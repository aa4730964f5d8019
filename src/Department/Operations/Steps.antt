-- ===== src/Department/Operations/Steps.antt =====
-- What the steps that the department service shares ensure.
use mathlib.Core.Option
use mathlib.Core.Option.{some-injective}
use mathlib.Core.List
use text.Mathlib.Text.{◌==◌ as str_eq}
use hr_saas_platform.Shared.{
  UuidText, rendered, rendered_text, column_is, subst, ap, refl, ℕ, String, ◌=?=◌, Bool, true,
  false, not, ◌≡◌, sym, ◌∙◌, Option, none, some, List, arith, inl, inr, Bool-cases,
}
use hr_saas_platform.Shared.Table.{update_where}
use hr_saas_platform.Events.{Payload}
use hr_saas_platform.Database.{Database, Department}
use hr_saas_platform.Service.{returned, Context, emit_async}
use hr_saas_platform.Service.Ensures.{
  Ensures, Ensures-returned, Ensures-pure, Ensures-gets, Ensures-found_or, Ensures-throw_if,
  Ensures-bind, Ensures-if, Ensures-weaken,
}
use hr_saas_platform.Department.Repository.{
  has_id, find_by_id, Patch, apply_patch, rename_taken, update,
}
use hr_saas_platform.Department.Subtree.{find_subtree_ids}
use hr_saas_platform.Department.Subtree.Correct.{find_subtree_ids_correct}
use hr_saas_platform.Department.Consistency.{IsConsistent}
use hr_saas_platform.Department.Operations.{
  includes, emit, require, update_or_throw, validate_parent_department, validate_new_parent,
  checked_name, checked_parent, subtree_texts, IsRenderedParent,
}

-- The parent is a department of the tenant, and active.
abbrev pub IsActiveParent : ℕ → ℕ → List Department → Type 0
IsActiveParent parent tenant rows =
    (e : Department) × (find_by_id parent tenant rows ≡ some e) × (e.is_active ≡ true)

-- What `updateDepartment` has checked of the parent that it sets.
abbrev pub IsChecked : ℕ → ℕ → List Department → Option (Option ℕ) → Type 0
IsChecked id tenant rows none = Unit
IsChecked id tenant rows (some none) = Unit
IsChecked id tenant rows (some (some parent)) =
    IsActiveParent parent tenant rows
    × ((ids : List ℕ) × (find_subtree_ids id tenant rows ≡ some ids)
        × (includes (rendered parent) (List.map rendered ids) ≡ false))

-- The texts of a walk that has ended are those of its ids.
texts_of :
    (walk : Option (List ℕ)) (texts : List UuidText)
    → Option.map (List.map rendered) walk ≡ some texts
    → (ids : List ℕ) × (walk ≡ some ids) × (List.map rendered ids ≡ texts)
texts_of none texts e = cc
texts_of (some ids) texts e = (ids, refl, some-injective _ _ e)

module _ (tenant : ℕ) where
  abbrev pub Consistent : Database → Type 0
  Consistent db = IsConsistent tenant db.departments

  -- A change of one row that keeps the tenant's departments consistent.
  abbrev pub Keeping : (Database → Type 0) → Context → ℕ → Patch → Type 0
  Keeping P ctx id patch =
      (db : Database)
      → Consistent db
      → P db
      → IsConsistent tenant
          (update_where (has_id id tenant) (apply_patch ctx.now patch) db.departments)

  module _ {P : Database → Type 0} where
    pub Ensures-emit :
        (ctx : Context) (t actor : ℕ) (payload : Payload)
        → Ensures Consistent P (emit ctx t actor payload) (λ _ _. Unit {0})
    unfolding emit emit_async
    Ensures-emit ctx t actor payload = record { at = λ db i p. (i, tt) }

    pub Ensures-require :
        (id : ℕ)
        → Ensures Consistent P
            (require id tenant)
            (λ d db. P db × (find_by_id id tenant db.departments ≡ some d))
    unfolding require
    Ensures-require id = Ensures-bind _ _ (Ensures-gets _) λ found.
        Ensures-weaken (Ensures-found_or found _) (λ db p. p) (λ d db (p, e). (p.0, sym p.1 ∙ e))

    pub Ensures-validate_parent :
        (parent : ℕ)
        → Ensures Consistent P
            (validate_parent_department parent tenant)
            (λ _ db. P db × IsActiveParent parent tenant db.departments)
    unfolding validate_parent_department
    Ensures-validate_parent parent = Ensures-bind _ _ (Ensures-gets _) λ found.
        Ensures-bind _ _ (Ensures-found_or found _) λ row.
          Ensures-weaken (Ensures-throw_if (not row.is_active) _) (λ db p. p)
            (λ _ db (p, active). (p.0.0, (row, sym p.0.1 ∙ p.1, ground arith)))

    Ensures-update :
        (ctx : Context) (id : ℕ) (patch : Patch)
        → Keeping P ctx id patch
        → Ensures Consistent P (update ctx.now id tenant patch) (λ _ _. Unit {0})
    unfolding update
    Ensures-update ctx id patch keep = record {
      at = λ db i p. elim (Bool-cases (rename_taken id tenant patch.name db.departments)) [
        | inl taken ↦ rw taken i
        | inr free ↦ rw free (keep db i p, tt)
      ];
    }

    pub Ensures-update_or_throw :
        (ctx : Context) (id : ℕ) (patch : Patch)
        → Keeping P ctx id patch
        → Ensures Consistent P (update_or_throw ctx id tenant patch) (λ _ _. Unit {0})
    unfolding update_or_throw
    Ensures-update_or_throw ctx id patch keep =
        Ensures-bind _ _ (Ensures-update ctx id patch keep)
          λ updated. Ensures-weaken (Ensures-found_or updated _) (λ db p. p) (λ _ db _. tt)

    pub Ensures-checked_name :
        (ilike : String → String → Bool) (id : ℕ) (dept : Department) (name : Option String)
        → Ensures Consistent P (checked_name ilike id tenant dept name) (λ _ db. P db)
    unfolding checked_name
    Ensures-checked_name ilike id dept none =
        Ensures-weaken (Ensures-pure none) (λ db p. p) (λ _ db p. p.0)
    Ensures-checked_name ilike id dept (some name) =
        Ensures-if (str_eq name dept.name) _ _
          (λ same. Ensures-weaken (Ensures-pure none) (λ db p. p) (λ _ db p. p.0))
          λ new. Ensures-bind _ _ (Ensures-gets _) λ conflict.
            Ensures-bind _ _ (Ensures-throw_if _ _)
              λ _. Ensures-weaken (Ensures-pure (some name)) (λ db p. p) (λ _ db p. p.0.0.0)

    pub Ensures-validate_new_parent :
        (id parent : ℕ)
        → Ensures Consistent P
            (validate_new_parent (rendered id) (rendered parent) tenant)
            (λ _ db. P db × IsChecked id tenant db.departments (some (some parent)))
    unfolding validate_new_parent subtree_texts
    Ensures-validate_new_parent id parent = Ensures-bind _ _ (Ensures-validate_parent parent) λ _.
        Ensures-bind _ _ (Ensures-throw_if _ _) λ _. Ensures-bind _ _ (Ensures-gets _) λ walk.
          Ensures-bind _ _ (walk_returns walk) λ texts.
            Ensures-weaken (Ensures-throw_if (includes (rendered parent) texts) _) (λ db p. p)
              (λ _ db (p, out).
                let (ids, ends, e) = texts_of _ texts (sym p.0.1 ∙ p.1) in
                (p.0.0.0.0, (p.0.0.0.1, (ids, ends, ap (includes (rendered parent)) e ∙ out))))
      where
        walk_returns :
            {R : Database → Type 0} (walk : Option (List UuidText))
            → Ensures Consistent
                (λ db. R db × (walk ≡ subtree_texts (rendered id) tenant db.departments))
                (returned walk)
                (λ texts db.
                  (R db × (walk ≡ subtree_texts (rendered id) tenant db.departments))
                  × (walk ≡ some texts))
        walk_returns walk = Ensures-returned walk λ db i p.
            let (ids, ends, _, _) = find_subtree_ids_correct id tenant db.departments i.forest in
            (List.map rendered ids, p.1 ∙ ap (Option.map (List.map rendered)) ends)

    pub Ensures-checked_parent :
        (id : ℕ) (dept : Department) (parent : Option (Option UuidText))
        → IsRenderedParent parent
        → Ensures Consistent P
            (checked_parent (rendered id) tenant dept parent)
            (λ set db. P db × IsChecked id tenant db.departments set)
    unfolding checked_parent
    Ensures-checked_parent id dept none lower =
        Ensures-weaken (Ensures-pure none) (λ db p. p) (λ set db p. (p.0, rw p.1 tt))
    Ensures-checked_parent id dept (some none) lower =
        Ensures-if (dept.parent_id =?= none) _ _
          (λ same. Ensures-weaken (Ensures-pure none) (λ db p. p) (λ set db p. (p.0, rw p.1 tt)))
          λ other.
            Ensures-weaken (Ensures-pure (some none)) (λ db p. p) (λ set db p. (p.0, rw p.1 tt))
    Ensures-checked_parent id dept (some (some parent)) lower =
        Ensures-if (column_is dept.parent_id parent) _ _
          (λ same. Ensures-weaken (Ensures-pure none) (λ db p. p) (λ set db p. (p.0, rw p.1 tt)))
          λ other.
            Ensures-bind _ _
              (subst
                (λ t.
                  Ensures Consistent P (validate_new_parent (rendered id) t tenant)
                    (λ _ db. P db × IsChecked id tenant db.departments (some (some parent.uuid))))
                (rendered_text parent lower) (Ensures-validate_new_parent id parent.uuid))
              λ _.
                Ensures-weaken (Ensures-pure (some (some parent.uuid))) (λ db p. p)
                  (λ set db p. (p.0.0, rw p.1 p.0.1))
