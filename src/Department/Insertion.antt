-- ===== src/Department/Insertion.antt =====
-- A new department under an active parent keeps the invariant of its tenant.
use hr_saas_platform.Shared.{
  ℕ, ==_iff, false, ◌≡◌, ◌≢◌, refl, ◌∙◌, none, some, List, Memᴰ, arith, inl, inr,
}
use hr_saas_platform.Shared.Table.{
  insert, find_first-insert, select-insert, Memᴰ-insert, find_first_of_Memᴰ,
}
use hr_saas_platform.Database.{Department}
use hr_saas_platform.Department.Repository.{has_id, in_tenant, find_by_id, find_all_for_tenant}
use hr_saas_platform.Department.Forest.{insert-IsForest}
use hr_saas_platform.Department.Consistency.{IsConsistent, HasParent, Memᴰ_of_find_all}

-- The row of a member is found.
find_by_id_of_Memᴰ :
    (id tenant : ℕ) (rows : List Department) {d : Department}
    → Memᴰ d rows
    → d.id ≡ id
    → d.tenant_id ≡ tenant
    → (e : Department) × (find_by_id id tenant rows ≡ some e)
unfolding find_by_id
find_by_id_of_Memᴰ id tenant rows {d} m same here =
    find_first_of_Memᴰ (has_id id tenant) rows m (ground arith)

module _ (tenant : ℕ) (rows : List Department) (h : IsConsistent tenant rows) (row : Department)
    (here : row.tenant_id ≡ tenant) (fresh : find_by_id row.id tenant rows ≡ none)
    (parent : HasParent tenant rows row)
    (idle : row.is_active ≡ false → row.manager_employee_id ≡ none) where
  other_id : (r : Department) → Memᴰ r rows → r.tenant_id ≡ tenant → r.id ≢ row.id
  other_id r m t same = let (e, found) = find_by_id_of_Memᴰ row.id tenant rows m same t in cc

  -- A parent that is found has another id than the new row.
  other_parent : (d : Department) → HasParent tenant rows d → d.parent_id ≢ some row.id
  other_parent d up same = let (e, found, _) = up row.id same in cc

  still_found :
      (p : ℕ) {e : Department}
      → find_by_id p tenant rows ≡ some e
      → find_by_id p tenant (insert row rows) ≡ some e
  unfolding find_by_id
  still_found p found = find_first-insert (has_id p tenant) row rows ∙ rw found refl

  parent_inserted :
      (d : Department) → HasParent tenant rows d → HasParent tenant (insert row rows) d
  parent_inserted d up p same =
      let (e, found, active) = up p same in (e, still_found p found, active)

  find_all-insert :
      find_all_for_tenant tenant (insert row rows) ≡ insert row (find_all_for_tenant tenant rows)
  unfolding find_all_for_tenant
  find_all-insert =
      select-insert (in_tenant tenant) row rows ∙ rw ((==_iff row.tenant_id tenant).1 here) refl

  fresh_in_tenant :
      (r : Department)
      → Memᴰ r (find_all_for_tenant tenant rows)
      → (r.id ≢ row.id) × (r.parent_id ≢ some row.id)
  fresh_in_tenant r m =
      let (n, t) = Memᴰ_of_find_all tenant rows m in
      (other_id r n t, other_parent r (h.parents r n t))

  pub insert-IsConsistent : IsConsistent tenant (insert row rows)
  insert-IsConsistent = record {
    forest =
        rw find_all-insert (insert-IsForest h.forest row fresh_in_tenant (other_parent row parent));
    parents = λ d m t. elim (Memᴰ-insert row rows m) [
      | inl old ↦ parent_inserted d (h.parents d old t)
      | inr e ↦ rw e (parent_inserted row parent)
    ];
    managers =
        λ d m t. elim (Memᴰ-insert row rows m) [ inl old ↦ h.managers d old t | inr e ↦ rw e idle ];
  }
