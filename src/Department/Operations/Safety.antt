-- ===== src/Department/Operations/Safety.antt =====
-- Every operation that changes departments returns or throws, and keeps the invariant.
use hr_saas_platform.Shared.{
  ℕ, ltb, true, false, not, ◌≡◌, ◌≢◌, refl, sym, ap, ◌∙◌, Option, none, some, List, Memᴰ, arith,
  inl,
}
use hr_saas_platform.Shared.Table.{count_where-pos, update_where}
use hr_saas_platform.Events.{Payload}
use hr_saas_platform.Database.{Database, Department}
use hr_saas_platform.Service.{pure, ◌>>=◌, ◌>>◌, Context}
use hr_saas_platform.Service.Ensures.{
  Ensures, Ensures-pure, Ensures-gets, Ensures-throw_if, Ensures-bind, Ensures-if, Ensures-weaken,
  Ensures-tenant,
}
use hr_saas_platform.Department.Repository.{
  has_id, find_by_id, count_active_children, is_active_child_of, Patch, no_change, set_or,
  apply_patch,
}
use hr_saas_platform.Department.Consistency.{
  IsConsistent, HasParent, find_by_id-Memᴰ, change-IsConsistent,
}
use hr_saas_platform.Department.Forest.{update-IsForest}
use hr_saas_platform.Department.Operations.{
  is_some, is_active_row, emit, update_or_throw, check_parent_active, assign_manager,
  remove_manager, deactivate_department, reactivate_department,
}
use hr_saas_platform.Department.Operations.Steps.{
  Consistent, Keeping, Ensures-emit, Ensures-require, Ensures-update_or_throw,
}

module _ {tenant : ℕ} {rows : List Department} (h : IsConsistent tenant rows) (id : ℕ)
    {dept : Department} (found : find_by_id id tenant rows ≡ some dept) where
  pub own_parent : HasParent tenant rows dept
  own_parent =
      let (m, same, here) = find_by_id-Memᴰ id tenant rows {d = dept} found in h.parents dept m here

  -- An inactive department may keep any parent.
  inactive_parent :
      (p : ℕ)
      → dept.parent_id ≡ some p
      → (e : Department) × (find_by_id p tenant rows ≡ some e) × (false ≡ true → e.is_active ≡ true)
  inactive_parent p up = let (e, e_found, _) = own_parent p up in (e, e_found, λ a. absurd (cc a))

  -- An active department needs an active parent.
  active_parent :
      ((p : ℕ) → dept.parent_id ≡ some p → is_active_row (find_by_id p tenant rows) ≡ true)
      → (p : ℕ) → dept.parent_id ≡ some p
      → (e : Department) × (find_by_id p tenant rows ≡ some e) × (true ≡ true → e.is_active ≡ true)
  active_parent above p up =
      let (e, e_found, _) = own_parent p up in
      (e, e_found, λ _. ap is_active_row (sym e_found) ∙ above p up)

  -- A department with an active child is active.
  pub active_above :
      (d : Department)
      → Memᴰ d rows
      → d.tenant_id ≡ tenant
      → d.parent_id ≡ some id
      → d.is_active ≡ true
      → dept.is_active ≡ true
  active_above d m here up active =
      let (e, e_found, above) = h.parents d m here id up in
      let same : e ≡ dept = cc (e_found, found) in
      ap (λ (r : Department). r.is_active) (sym same) ∙ above active

  pub idle_row : dept.is_active ≡ false → dept.manager_employee_id ≡ none
  idle_row =
      let (m, same, here) = find_by_id-Memᴰ id tenant rows {d = dept} found in
      h.managers dept m here

  -- A change that leaves the parent alone.
  module _ (now : ℕ) (patch : Patch) (parent : patch.parent_id ≡ none)
      (own : HasParent tenant rows (apply_patch now patch dept))
      (children : (d : Department)
        → Memᴰ d rows
        → d.tenant_id ≡ tenant
        → d.parent_id ≡ some id
        → d.is_active ≡ true
        → (apply_patch now patch dept).is_active ≡ true)
      (idle : (apply_patch now patch dept).is_active ≡ false
        → (apply_patch now patch dept).manager_employee_id ≡ none) where
    patch-IsConsistent :
        IsConsistent tenant (update_where (has_id id tenant) (apply_patch now patch) rows)
    unfolding apply_patch
    patch-IsConsistent =
        change-IsConsistent id tenant rows h found (apply_patch now patch) (λ d. refl) (λ d. refl)
          (update-IsForest h.forest (has_id id tenant) (apply_patch now patch) (λ d. refl)
            (λ d. inl (ap (λ p. set_or p d.parent_id) parent)))
          own children idle

  no_active_child :
      count_active_children id tenant rows ≡ 0
      → (d : Department) → Memᴰ d rows
      → d.tenant_id ≡ tenant
      → d.parent_id ≡ some id
      → d.is_active ≢ true
  unfolding count_active_children
  no_active_child zero d m here up active =
      ground (arith, count_where-pos (is_active_child_of id tenant) rows m (ground arith))

-- What the operations set.
abbrev manager_set : Option ℕ → Patch
manager_set employee = record no_change { manager_employee_id = some employee }

abbrev switched_off : Patch
switched_off = record no_change { is_active = some false; manager_employee_id = some none }

abbrev switched_on : Patch
switched_on = record no_change { is_active = some true }

module _ (tenant : ℕ) (ctx : Context) (here : ctx.tenant_id ≡ some tenant) where
  -- The end of each operation: the row is written, and the event after it.
  pub Ensures-write :
      {P : Database → Type 0} (id actor : ℕ) (patch : Patch) (payload : Payload)
      → Keeping tenant P ctx id patch
      → Ensures
          (Consistent tenant)
          P
          (do
            updated ← update_or_throw ctx id tenant patch
            emit ctx tenant actor payload
            pure updated)
          (λ _ _. Unit {0})
  Ensures-write id actor patch payload keep =
      Ensures-bind _ _ (Ensures-update_or_throw tenant ctx id patch keep) λ updated.
        Ensures-bind _ _ (Ensures-emit tenant ctx tenant actor payload)
          λ _. Ensures-weaken (Ensures-pure updated) (λ db p. p) (λ _ db _. tt)

  pub assign_manager-Ensures :
      (id employee actor : ℕ)
      → Ensures
          (Consistent tenant)
          (λ _. Unit {0})
          (assign_manager ctx id employee actor)
          (λ _ _. Unit {0})
  unfolding assign_manager apply_patch
  assign_manager-Ensures id employee actor = Ensures-tenant ctx _ here (
      Ensures-bind _ _ (Ensures-require tenant id) λ dept.
        Ensures-bind _ _ (Ensures-throw_if (not dept.is_active) _) λ _.
          Ensures-write id actor (manager_set (some employee)) _ λ db i p.
            patch-IsConsistent i id p.0.1 ctx.now (manager_set (some employee)) refl
              (own_parent i id p.0.1) (active_above i id p.0.1) (λ inactive. ground arith))

  pub remove_manager-Ensures :
      (id actor : ℕ)
      → Ensures (Consistent tenant) (λ _. Unit {0}) (remove_manager ctx id actor) (λ _ _. Unit {0})
  unfolding remove_manager apply_patch
  remove_manager-Ensures id actor = Ensures-tenant ctx _ here (
      Ensures-bind _ _ (Ensures-require tenant id) λ dept.
        Ensures-if (not (is_some dept.manager_employee_id)) _ _
          (λ _. Ensures-weaken (Ensures-pure dept) (λ db p. p) (λ _ db _. tt))
          λ _. Ensures-write id actor (manager_set none) _ λ db i p.
            patch-IsConsistent i id p.1 ctx.now (manager_set none) refl (own_parent i id p.1)
              (active_above i id p.1) (λ inactive. refl))

  pub deactivate_department-Ensures :
      (id actor active_employee_count : ℕ)
      → Ensures
          (Consistent tenant)
          (λ _. Unit {0})
          (deactivate_department ctx id actor active_employee_count)
          (λ _ _. Unit {0})
  unfolding deactivate_department apply_patch
  deactivate_department-Ensures id actor active_employee_count = Ensures-tenant ctx _ here (
      Ensures-bind _ _ (Ensures-require tenant id) λ dept.
        Ensures-bind _ _ (Ensures-throw_if (not dept.is_active) _) λ _.
          Ensures-bind _ _ (Ensures-gets _) λ children.
            Ensures-bind _ _ (Ensures-throw_if (ltb 0 children) _) λ _.
              Ensures-bind _ _ (Ensures-throw_if (ltb 0 active_employee_count) _) λ _.
                Ensures-write id actor switched_off _ λ db i p.
                  patch-IsConsistent i id p.0.0.0.0.1 ctx.now switched_off refl
                    (inactive_parent i id p.0.0.0.0.1)
                    (λ d m t up active. absurd (
                      no_active_child i id p.0.0.0.0.1 (ground (arith, sym p.0.0.1)) d m t up
                        active))
                    (λ inactive. refl))

  -- The parent of the department to reactivate, where it has one, is active.
  Ensures-check_parent :
      {P : Database → Type 0} (parent : Option ℕ)
      → Ensures (Consistent tenant) P (check_parent_active parent tenant) (λ _ db.
        P db
        × ((p : ℕ) → parent ≡ some p → is_active_row (find_by_id p tenant db.departments) ≡ true))
  unfolding check_parent_active
  Ensures-check_parent none =
      Ensures-weaken (Ensures-pure tt) (λ db p. p) (λ _ db p. (p.0, λ q up. absurd (cc up)))
  Ensures-check_parent (some parent) = Ensures-bind _ _ (Ensures-gets _) λ found.
      Ensures-weaken (Ensures-throw_if (not (is_active_row found)) _) (λ db p. p)
        (λ _ db p. (
          p.0.0,
          λ q up.
              let same : parent ≡ q = cc up in
              ap (λ x. is_active_row (find_by_id x tenant db.departments)) (sym same)
              ∙ (ap is_active_row (sym p.0.1) ∙ ground arith),
        ))

  pub reactivate_department-Ensures :
      (id actor : ℕ)
      → Ensures
          (Consistent tenant)
          (λ _. Unit {0})
          (reactivate_department ctx id actor)
          (λ _ _. Unit {0})
  unfolding reactivate_department apply_patch
  reactivate_department-Ensures id actor = Ensures-tenant ctx _ here (
      Ensures-bind _ _ (Ensures-require tenant id) λ dept.
        Ensures-bind _ _ (Ensures-throw_if dept.is_active _) λ _.
          Ensures-bind _ _ (Ensures-check_parent dept.parent_id) λ _.
            Ensures-write id actor switched_on _ λ db i p.
              patch-IsConsistent i id p.0.0.1 ctx.now switched_on refl
                (active_parent i id p.0.0.1 p.1) (λ d m t up active. refl)
                (λ inactive. absurd (cc inactive)))
