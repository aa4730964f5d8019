-- ===== src/Department/Operations/Create.antt =====
-- `createDepartment` keeps the invariant, where the new id is not in use.
use hr_saas_platform.Shared.{
  ℕ, String, Bool, false, ◌≡◌, refl, ap, ◌∙◌, Option, none, some, inl, inr, Bool-cases,
}
use hr_saas_platform.Database.{Database, Department}
use hr_saas_platform.Service.{Context}
use hr_saas_platform.Service.Ensures.{
  Ensures, Ensures-pure, Ensures-gets, Ensures-throw_if, Ensures-bind, Ensures-weaken,
  Ensures-tenant,
}
use hr_saas_platform.Department.Repository.{find_by_id, name_taken, create}
use hr_saas_platform.Department.Consistency.{HasParent}
use hr_saas_platform.Department.Insertion.{insert-IsConsistent}
use hr_saas_platform.Department.Operations.{
  CreateDepartmentDto, is_some, validate_optional_parent, create_department,
}
use hr_saas_platform.Department.Operations.Steps.{
  Consistent, IsActiveParent, Ensures-emit, Ensures-validate_parent,
}

module _ (tenant : ℕ) {P : Database → Type 0} where
  Ensures-optional_parent :
      (parent : Option ℕ)
      → Ensures
          (Consistent tenant)
          P
          (validate_optional_parent parent tenant)
          (λ _ db. P db × ((p : ℕ) → parent ≡ some p → IsActiveParent p tenant db.departments))
  Ensures-optional_parent none =
      Ensures-weaken (Ensures-pure tt) (λ db p. p) (λ _ db p. (p.0, λ q up. absurd (cc up)))
  Ensures-optional_parent (some parent) =
      Ensures-weaken (Ensures-validate_parent tenant parent) (λ db p. p)
        (λ _ db (p, (e, found, active)).
          (p, λ q up. (e, ap (λ x. find_by_id x tenant db.departments) (cc up) ∙ found, active)))

  -- The row is inserted, or its name is taken.
  Ensures-create :
      (row : Department)
      → row.tenant_id ≡ tenant
      → ((db : Database) → P db → find_by_id row.id tenant db.departments ≡ none)
      → ((db : Database) → P db → HasParent tenant db.departments row)
      → (row.is_active ≡ false → row.manager_employee_id ≡ none)
      → Ensures (Consistent tenant) P (create row) (λ _ _. Unit {0})
  unfolding create
  Ensures-create row here fresh parent idle = record {
    at = λ db i p. elim (Bool-cases (name_taken row.tenant_id row.name db.departments)) [
      | inl taken ↦ rw taken i
      | inr free ↦
          rw free (
            insert-IsConsistent tenant db.departments i row here (fresh db p) (parent db p) idle,
            tt,
          )
    ];
  }

module _ (tenant : ℕ) (ctx : Context) (here : ctx.tenant_id ≡ some tenant) where
  pub create_department-Ensures :
      (ilike : String → String → Bool) (dto : CreateDepartmentDto) (actor : ℕ)
      → Ensures
          (Consistent tenant)
          (λ db. find_by_id (ctx.uuid 0) tenant db.departments ≡ none)
          (create_department ilike ctx dto actor)
          (λ _ _. Unit {0})
  unfolding create_department
  create_department-Ensures ilike dto actor = Ensures-tenant ctx _ here (
      Ensures-bind _ _ (Ensures-gets _) λ existing.
        Ensures-bind _ _ (Ensures-throw_if (is_some existing) _) λ _.
          Ensures-bind _ _ (Ensures-optional_parent tenant dto.parent_id) λ _.
            Ensures-bind _ _
              (Ensures-create tenant _ refl (λ db p. p.0.0.0)
                (λ db p q up. let (e, found, active) = p.1 q up in (e, found, λ _. active))
                (λ inactive. absurd (cc inactive)))
              λ row.
                Ensures-bind _ _ (Ensures-emit tenant ctx tenant actor _)
                  λ _. Ensures-weaken (Ensures-pure row) (λ db p. p) (λ _ db _. tt))
