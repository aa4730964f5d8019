-- ===== src/Department/Operations/Isolated.antt =====
-- The operations of one tenant leave the departments of every other tenant alone.
use hr_saas_platform.Shared.{
  UuidText, ℕ, String, Bool, true, false, ◌≡◌, ◌≢◌, refl, ◌∙◌, Option, none, some, List, [], ◌∷◌,
  arith, inl, inr, Bool-cases,
}
use hr_saas_platform.Shared.Table.{select, update_where, select-insert}
use hr_saas_platform.Events.{Payload}
use hr_saas_platform.Database.{Database, Department}
use hr_saas_platform.Service.{pure, ◌>>=◌, ◌>>◌, Context, emit_async}
use hr_saas_platform.Service.Keeps.{Keeps, Keeps-bind, Keeps-tenant, keeps_rules}
use hr_saas_platform.Department.Repository.{
  has_id, in_tenant, find_all_for_tenant, create, Patch, apply_patch, rename_taken, name_taken,
  update,
}
use hr_saas_platform.Department.Operations.{
  emit, require, update_or_throw, validate_parent_department, validate_optional_parent,
  validate_new_parent, checked_name, checked_parent, check_parent_active, create_department,
  update_department, assign_manager, remove_manager, deactivate_department, reactivate_department,
  UpdateDepartmentDto, CreateDepartmentDto,
}

-- An update of rows that a query does not select, and that it does not select afterwards.
select-update_others :
    {Row : Type 0} (p q : Row → Bool) (f : Row → Row) (rows : List Row)
    → ((r : Row) → q r ≡ true → p r ≡ false)
    → ((r : Row) → q r ≡ true → p (f r) ≡ false)
    → select p (update_where q f rows) ≡ select p rows
unfolding select update_where
select-update_others p q f [] before after = refl
select-update_others p q f (x ∷ rows) before after =
    ground (arith, before x, after x, select-update_others p q f rows before after)

module _ (tenant other : ℕ) (apart : other ≢ tenant) (theirs : List Department) where
  abbrev pub Theirs : Database → Type 0
  Theirs db = find_all_for_tenant other db.departments ≡ theirs

  Keeps-emit :
      (ctx : Context) (t actor : ℕ) (payload : Payload) → Keeps Theirs (emit ctx t actor payload)
  unfolding emit emit_async
  Keeps-emit ctx t actor payload = record { at = λ db h. h }

  Keeps-create : (row : Department) → row.tenant_id ≡ tenant → Keeps Theirs (create row)
  unfolding create find_all_for_tenant
  Keeps-create row here = record {
    at = λ db h. elim (Bool-cases (name_taken row.tenant_id row.name db.departments)) [
      | inl taken ↦ rw taken h
      | inr free ↦ rw free (select-insert (in_tenant other) row db.departments ∙ ground arith)
    ];
  }

  Keeps-update : (now id : ℕ) (patch : Patch) → Keeps Theirs (update now id tenant patch)
  unfolding update find_all_for_tenant apply_patch
  Keeps-update now id patch = record {
    at = λ db h. elim (Bool-cases (rename_taken id tenant patch.name db.departments)) [
      | inl taken ↦ rw taken h
      | inr free ↦ rw free (
          select-update_others (in_tenant other) (has_id id tenant) (apply_patch now patch)
            db.departments (λ r hit. ground arith) (λ r hit. ground arith)
          ∙ h)
    ];
  }

  Keeps-require : (id : ℕ) → Keeps Theirs (require id tenant)
  unfolding require
  Keeps-require id = search keeps_rules

  Keeps-update_or_throw :
      (ctx : Context) (id : ℕ) (patch : Patch) → Keeps Theirs (update_or_throw ctx id tenant patch)
  unfolding update_or_throw
  Keeps-update_or_throw ctx id patch = search (keeps_rules, Keeps-update)

  Keeps-validate_parent : (p : ℕ) → Keeps Theirs (validate_parent_department p tenant)
  unfolding validate_parent_department
  Keeps-validate_parent p = search keeps_rules

  Keeps-optional_parent : (p : Option ℕ) → Keeps Theirs (validate_optional_parent p tenant)
  Keeps-optional_parent none = search keeps_rules
  Keeps-optional_parent (some p) = search Keeps-validate_parent

  Keeps-checked_name :
      (ilike : String → String → Bool) (id : ℕ) (dept : Department) (name : Option String)
      → Keeps Theirs (checked_name ilike id tenant dept name)
  unfolding checked_name
  Keeps-checked_name ilike id dept none = search keeps_rules
  Keeps-checked_name ilike id dept (some name) = search keeps_rules

  Keeps-new_parent : (id p : UuidText) → Keeps Theirs (validate_new_parent id p tenant)
  unfolding validate_new_parent
  Keeps-new_parent id p = search (keeps_rules, Keeps-validate_parent)

  Keeps-checked_parent :
      (id : UuidText) (dept : Department) (p : Option (Option UuidText))
      → Keeps Theirs (checked_parent id tenant dept p)
  unfolding checked_parent
  Keeps-checked_parent id dept none = search keeps_rules
  Keeps-checked_parent id dept (some none) = search keeps_rules
  Keeps-checked_parent id dept (some (some p)) = search (keeps_rules, Keeps-new_parent)

  Keeps-parent_active : (p : Option ℕ) → Keeps Theirs (check_parent_active p tenant)
  unfolding check_parent_active
  Keeps-parent_active none = search keeps_rules
  Keeps-parent_active (some p) = search keeps_rules

  -- What the operations do after their checks.
  Keeps-write :
      (ctx : Context) (t actor id : ℕ) (patch : Patch) (payload : Payload)
      → Keeps Theirs
          (do updated ← update_or_throw ctx id tenant patch; emit ctx t actor payload; pure updated)
  Keeps-write ctx t actor id patch payload = search (keeps_rules, Keeps-update_or_throw, Keeps-emit)

  module _ (ctx : Context) (here : ctx.tenant_id ≡ some tenant) where
    pub Keeps-create_department :
        (ilike : String → String → Bool) (dto : CreateDepartmentDto) (actor : ℕ)
        → Keeps Theirs (create_department ilike ctx dto actor)
    unfolding create_department
    Keeps-create_department ilike dto actor = Keeps-tenant ctx _ here (
        Keeps-bind _ _ (search keeps_rules) λ existing. Keeps-bind _ _ (search keeps_rules) λ _.
          Keeps-bind _ _ (Keeps-optional_parent dto.parent_id)
            λ _. Keeps-bind _ _ (Keeps-create _ refl) λ row. search (keeps_rules, Keeps-emit))

    pub Keeps-update_department :
        (ilike : String → String → Bool) (id : UuidText) (dto : UpdateDepartmentDto) (actor : ℕ)
        → Keeps Theirs (update_department ilike ctx id dto actor)
    unfolding update_department
    Keeps-update_department ilike id dto actor =
        Keeps-tenant ctx _ here (
          search
            (keeps_rules, Keeps-require, Keeps-checked_name, Keeps-checked_parent, Keeps-write))

    pub Keeps-assign_manager :
        (id employee actor : ℕ) → Keeps Theirs (assign_manager ctx id employee actor)
    unfolding assign_manager
    Keeps-assign_manager id employee actor =
        Keeps-tenant ctx _ here (search (keeps_rules, Keeps-require, Keeps-write))

    pub Keeps-remove_manager : (id actor : ℕ) → Keeps Theirs (remove_manager ctx id actor)
    unfolding remove_manager
    Keeps-remove_manager id actor =
        Keeps-tenant ctx _ here (search (keeps_rules, Keeps-require, Keeps-write))

    pub Keeps-deactivate_department :
        (id actor employees : ℕ) → Keeps Theirs (deactivate_department ctx id actor employees)
    unfolding deactivate_department
    Keeps-deactivate_department id actor employees =
        Keeps-tenant ctx _ here (search (keeps_rules, Keeps-require, Keeps-write) depth 12)

    pub Keeps-reactivate_department :
        (id actor : ℕ) → Keeps Theirs (reactivate_department ctx id actor)
    unfolding reactivate_department
    Keeps-reactivate_department id actor =
        Keeps-tenant ctx _ here
          (search (keeps_rules, Keeps-require, Keeps-parent_active, Keeps-write))
