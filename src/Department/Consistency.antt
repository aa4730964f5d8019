-- ===== src/Department/Consistency.antt =====
-- The invariant of a tenant's departments, and the changes of one row that keep it.
use mathlib.Core.Option
use hr_saas_platform.Shared.{
  ℕ, ◌==◌, ==_iff, if◌then◌else◌, Bool, true, false, ◌≡◌, sym, ap, ◌∙◌, none, some, List, Memᴰ,
  arith, inl, inr, Bool-cases,
}
use hr_saas_platform.Shared.Table.{
  update_where, find_first-Memᴰ, find_first-update_where, select-update_where, Memᴰ-update_where,
  Memᴰ-select, Memᴰ-select_of,
}
use hr_saas_platform.Database.{Department}
use hr_saas_platform.Department.Repository.{has_id, in_tenant, find_by_id, find_all_for_tenant}
use hr_saas_platform.Department.Hierarchy.{IsForest, row_unique}

-- A parent is a department of the same tenant, and an active department has an active parent.
abbrev pub HasParent : ℕ → List Department → Department → Type 0
HasParent tenant rows d =
    (p : ℕ)
    → d.parent_id ≡ some p
    → (e : Department) × (find_by_id p tenant rows ≡ some e)
      × (d.is_active ≡ true → e.is_active ≡ true)

pub record IsConsistent (tenant : ℕ) (rows : List Department) : Type 0 where
  -- ids are distinct and there is no cycle
  pub forest : IsForest (find_all_for_tenant tenant rows)
  pub parents : (d : Department) → Memᴰ d rows → d.tenant_id ≡ tenant → HasParent tenant rows d
  -- an inactive department has no manager
  pub managers :
      (d : Department)
      → Memᴰ d rows
      → d.tenant_id ≡ tenant
      → d.is_active ≡ false
      → d.manager_employee_id ≡ none

-- The row that `findById` returns.
pub find_by_id-Memᴰ :
    (id tenant : ℕ) (rows : List Department) {d : Department}
    → find_by_id id tenant rows ≡ some d
    → Memᴰ d rows × (d.id ≡ id) × (d.tenant_id ≡ tenant)
unfolding find_by_id
find_by_id-Memᴰ id tenant rows {d} e =
    let (m, h) = find_first-Memᴰ (has_id id tenant) rows {r = d} e in
    (m, ground arith, ground arith)

pub Memᴰ-find_all :
    (tenant : ℕ) (rows : List Department) {d : Department}
    → Memᴰ d rows
    → d.tenant_id ≡ tenant
    → Memᴰ d (find_all_for_tenant tenant rows)
unfolding find_all_for_tenant
Memᴰ-find_all tenant rows m e = Memᴰ-select_of (in_tenant tenant) rows m ((==_iff _ _).1 e)

pub Memᴰ_of_find_all :
    (tenant : ℕ) (rows : List Department) {d : Department}
    → Memᴰ d (find_all_for_tenant tenant rows)
    → Memᴰ d rows × (d.tenant_id ≡ tenant)
unfolding find_all_for_tenant
Memᴰ_of_find_all tenant rows m =
    let (n, h) = Memᴰ-select (in_tenant tenant) rows m in (n, (==_iff _ _).0 h)

-- In a forest there is one row of an id.
pub row_of_id :
    (tenant : ℕ) (rows : List Department) (h : IsConsistent tenant rows) (id : ℕ) {d e : Department}
    → find_by_id id tenant rows ≡ some d
    → Memᴰ e rows
    → e.tenant_id ≡ tenant
    → e.id ≡ id
    → e ≡ d
row_of_id tenant rows h id {d} {e} found m here same =
    let (n, same', here') = find_by_id-Memᴰ id tenant rows {d = d} found in
    row_unique (find_all_for_tenant tenant rows) h.forest.unique (Memᴰ-find_all tenant rows m here)
      (Memᴰ-find_all tenant rows n here') (same ∙ sym same')

module _ (id tenant : ℕ) (rows : List Department) (h : IsConsistent tenant rows) {dept : Department}
    (found : find_by_id id tenant rows ≡ some dept) (f : Department → Department)
    (keeps_id : (d : Department) → (f d).id ≡ d.id)
    (keeps_tenant : (d : Department) → (f d).tenant_id ≡ d.tenant_id) where
  abbrev pub changed : List Department
  changed = update_where (has_id id tenant) f rows

  abbrev change : Department → Department
  change r = if has_id id tenant r then f r else r

  pub find_all-changed :
      find_all_for_tenant tenant changed
      ≡ update_where (has_id id tenant) f (find_all_for_tenant tenant rows)
  unfolding find_all_for_tenant
  find_all-changed =
      select-update_where (in_tenant tenant) (has_id id tenant) f rows
        (λ r. ap (λ t. t == tenant) (keeps_tenant r))

  pub find_by_id-changed :
      (p : ℕ) → find_by_id p tenant changed ≡ Option.map change (find_by_id p tenant rows)
  unfolding find_by_id
  find_by_id-changed p =
      find_first-update_where (has_id p tenant) (has_id id tenant) f rows
        (λ r. cc (keeps_id r, keeps_tenant r))

  -- The row that the update changes is the one that was found.
  hit_is_dept : (r : Department) → Memᴰ r rows → has_id id tenant r ≡ true → r ≡ dept
  hit_is_dept r m hit = row_of_id tenant rows h id found m (ground arith) (ground arith)

  change_hit : (r : Department) → Memᴰ r rows → has_id id tenant r ≡ true → change r ≡ f dept
  change_hit r m hit = rw hit (ap f (hit_is_dept r m hit))

  change_miss : (r : Department) → has_id id tenant r ≡ false → change r ≡ r
  change_miss r miss = rw miss

  -- A parent that is active after the change, if it was found and stays active where it changes.
  changed_parent :
      (active : Bool) (p : ℕ) {e : Department}
      → find_by_id p tenant rows ≡ some e
      → (p ≡ id → active ≡ true → (f dept).is_active ≡ true)
      → (active ≡ true → e.is_active ≡ true)
      → (e' : Department) × (find_by_id p tenant changed ≡ some e')
        × (active ≡ true → e'.is_active ≡ true)
  changed_parent active p {e} e_found hit_active still =
      let (m, same, here) = find_by_id-Memᴰ p tenant rows {d = e} e_found in
      (
        change e,
        find_by_id-changed p ∙ ap (Option.map change) e_found,
        λ a. elim (Bool-cases (has_id id tenant e)) [
          | inl hit ↦
              ap (λ (r : Department). r.is_active) (change_hit e m hit)
              ∙ hit_active (ground arith) a
          | inr miss ↦ ap (λ (r : Department). r.is_active) (change_miss e miss) ∙ still a
        ],
      )

  -- The invariant is kept if the hierarchy is, if the new parent of the row is there and active
  -- where it must be, if no active child loses its active parent, and if an inactive row has no
  -- manager.
  module _ (forest : IsForest (update_where (has_id id tenant) f (find_all_for_tenant tenant rows)))
      (own : HasParent tenant rows (f dept))
      (children : (d : Department)
        → Memᴰ d rows
        → d.tenant_id ≡ tenant
        → d.parent_id ≡ some id
        → d.is_active ≡ true
        → (f dept).is_active ≡ true)
      (idle : (f dept).is_active ≡ false → (f dept).manager_employee_id ≡ none) where
    own_changed : HasParent tenant changed (f dept)
    own_changed p up =
        let (e, e_found, active) = own p up in
        changed_parent (f dept).is_active p e_found (λ _ a. a) active

    other_changed :
        (r : Department) → Memᴰ r rows → r.tenant_id ≡ tenant → HasParent tenant changed r
    other_changed r m here p up =
        let (e, e_found, active) = h.parents r m here p up in
        changed_parent r.is_active p e_found (λ same a. children r m here (up ∙ ap some same) a)
          active

    changed_row :
        (r : Department)
        → Memᴰ r rows
        → r.tenant_id ≡ tenant
        → HasParent tenant changed (change r)
          × ((change r).is_active ≡ false → (change r).manager_employee_id ≡ none)
    changed_row r m here = elim (Bool-cases (has_id id tenant r)) [
      | inl hit ↦ rw (change_hit r m hit) (own_changed, idle)
      | inr miss ↦ rw (change_miss r miss) (other_changed r m here, h.managers r m here)
    ]

    old_row :
        {d : Department}
        → Memᴰ d changed
        → d.tenant_id ≡ tenant
        → HasParent tenant changed d × (d.is_active ≡ false → d.manager_employee_id ≡ none)
    old_row {d} m here =
        let (old, n, e) = Memᴰ-update_where (has_id id tenant) f rows m in
        rw e (
          changed_row old n
            (ground (arith, keeps_tenant old, ap (λ (r : Department). r.tenant_id) e)))

    pub change-IsConsistent : IsConsistent tenant changed
    change-IsConsistent = record {
      forest = rw find_all-changed forest;
      parents = λ d m here. (old_row m here).0;
      managers = λ d m here. (old_row m here).1;
    }
