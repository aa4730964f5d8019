-- ===== src/Department/Operations/Moves.antt =====
-- `updateDepartment` refuses to move a department below itself.
use mathlib.Core.List
use hr_saas_platform.Shared.{
  All-Memᴰ, ==_iff, subst, Memᴰ, rendered, column_is, same_text, suc, Option, ℕ, String, ◌==◌, Bool,
  true, false, ◌<◌, ◌≡◌, refl, ap, ◌∙◌, none, some, List, [], ◌∷◌, arith, inl, inr, Bool-cases,
}
use hr_saas_platform.Shared.Table.{
  Memᴰ-update_where_of, update_where, find_first-update_where, find_first-Memᴰ,
}
use hr_saas_platform.Exceptions.{department_circular_reference}
use hr_saas_platform.Database.{Database, Department}
use hr_saas_platform.Service.{ok, err, emit_async, ◌>>=◌, Context, current_tenant_id}
use hr_saas_platform.Department.Repository.{
  find_by_id, has_id, find_all_for_tenant, update, Patch, no_change, apply_patch,
}
use hr_saas_platform.Department.Subtree.Walk.{count}
use hr_saas_platform.Department.Subtree.Correct.{find_subtree_ids_correct}
use hr_saas_platform.Department.Hierarchy.{Descends, self, child, rank-Descends}
use hr_saas_platform.Department.Forest.{IsForest-IsBelow}
use hr_saas_platform.Department.Consistency.{
  IsConsistent, find_by_id-Memᴰ, Memᴰ-find_all, Memᴰ_of_find_all,
}
use hr_saas_platform.Department.Operations.{
  includes, require, validate_parent_department, checked_name, checked_parent, validate_new_parent,
  update_department, subtree_texts, update_or_throw, emit,
}
use hr_saas_platform.Department.Operations.Steps.{IsActiveParent}

-- An id that occurs in the array is included in it.
includes-count :
    (x : ℕ) (ids : List ℕ) → 0 < count x ids → includes (rendered x) (List.map rendered ids) ≡ true
unfolding count
includes-count x [] h = absurd (ground arith)
includes-count x (y ∷ ids) h = ground (arith, includes-count x ids)

module _ (tenant : ℕ) (rows : List Department) (h : IsConsistent tenant rows) (id : ℕ)
    {dept : Department} (found : find_by_id id tenant rows ≡ some dept) (parent : ℕ)
    (below : Descends (find_all_for_tenant tenant rows) id parent) where
  -- A descendant is not the parent already.
  new_below : column_is dept.parent_id (rendered parent) ≡ false
  new_below =
      let (m, same, here) = find_by_id-Memᴰ id tenant rows {d = dept} found in
      elim (Bool-cases (column_is dept.parent_id (rendered parent))) [
        | inl hit ↦ absurd (
            ground (
              arith,
              IsForest-IsBelow h.forest dept (Memᴰ-find_all tenant rows m here) parent
                  (ground arith),
              rank-Descends h.forest.rank _ h.forest.ranked below,
              ap h.forest.rank same,
            ))
        | inr miss ↦ miss
      ]

-- In a tenant whose departments are consistent, a department cannot move under itself or under a
-- descendant of it that is active:
-- a request that writes both UUIDs in lower case, as the database renders them, is refused with the
-- circular reference, and nothing is written.
pub update_department-below :
    (ilike : String → String → Bool) (ctx : Context) (tenant id parent actor : ℕ)
    {dept : Department} (db : Database)
    → ctx.tenant_id ≡ some tenant
    → IsConsistent tenant db.departments
    → find_by_id id tenant db.departments ≡ some dept
    → IsActiveParent parent tenant db.departments
    → Descends (find_all_for_tenant tenant db.departments) id parent
    → update_department ilike ctx
        (rendered id)
        (record { name = none; parent_id = some (some (rendered parent)) })
        actor
        db
      ≡ (err (department_circular_reference id parent), db)
unfolding update_department require checked_name checked_parent validate_new_parent subtree_texts
    validate_parent_department ◌>>=◌ current_tenant_id
update_department-below ilike ctx tenant id parent actor db here h found (e, e_found, active)
      below =
    let (ids, walked, members, _) = find_subtree_ids_correct id tenant db.departments h.forest in
    let inside = includes-count parent ids ((members parent).1 below) in
    let new = new_below tenant db.departments h id found parent below in
    elim (Bool-cases (parent == id)) [
      | inl same ↦ rw (here, found, new, e_found, active, same) refl
      | inr other ↦ rw (here, found, new, e_found, active, other, walked, inside) refl
    ]

-- The texts of ids as rendered include no text of another spelling.
includes-other_spelling :
    (parent n : ℕ) (ids : List ℕ)
    → includes (record { uuid = parent; spelling = suc n }) (List.map rendered ids) ≡ false
includes-other_spelling parent n [] = refl
includes-other_spelling parent n (y ∷ ids) = ground (arith, includes-other_spelling parent n ids)

same_text-other_spelling :
    (a b n : ℕ) → same_text (record { uuid = a; spelling = suc n }) (rendered b) ≡ false
same_text-other_spelling a b n = ground arith

column_is-other_spelling :
    (o : Option ℕ) (b n : ℕ) → column_is o (record { uuid = b; spelling = suc n }) ≡ false
column_is-other_spelling none b n = refl
column_is-other_spelling (some a) b n = ground arith

-- The row of an id after it is written.
find_by_id-written :
    (now id tenant : ℕ) (patch : Patch) (rows : List Department) {dept : Department}
    → find_by_id id tenant rows ≡ some dept
    → find_by_id id tenant (update_where (has_id id tenant) (apply_patch now patch) rows)
      ≡ some (apply_patch now patch dept)
unfolding find_by_id apply_patch
find_by_id-written now id tenant patch rows {dept} found =
    find_first-update_where (has_id id tenant) (has_id id tenant) (apply_patch now patch) rows
      (λ d. refl)
    ∙ rw (found, (find_first-Memᴰ (has_id id tenant) rows {r = dept} found).1) refl

-- What descends from a department still does after its row has changed, the id and tenant apart.
Descends-update_where :
    (id tenant now : ℕ) (patch : Patch) (rows : List Department)
    → IsConsistent tenant rows
    → {x : ℕ} → Descends (find_all_for_tenant tenant rows) id x
    → Descends
        (find_all_for_tenant tenant (update_where (has_id id tenant) (apply_patch now patch) rows))
        id
        x
Descends-update_where id tenant now patch rows h self = self
Descends-update_where id tenant now patch rows h (child d below m e same) =
    let (n, here) = Memᴰ_of_find_all tenant rows m in
    elim (Bool-cases (d.id == id)) [
      | inl root ↦ absurd (
          ground (
            arith,
            rank-Descends h.forest.rank _ h.forest.ranked below,
            All-Memᴰ (λ r. (p : ℕ) → r.parent_id ≡ some p → h.forest.rank p < h.forest.rank r.id) _
                h.forest.ranked m _ e,
            ap h.forest.rank ((==_iff _ _).0 root),
          ))
      | inr other ↦
          child d (Descends-update_where id tenant now patch rows h below)
            (Memᴰ-find_all tenant _ (unchanged_row other n) here) e same
    ]
  where
    unchanged_row :
        {d : Department}
        → (d.id == id) ≡ false
        → Memᴰ d rows
        → Memᴰ d (update_where (has_id id tenant) (apply_patch now patch) rows)
    unchanged_row {d} other n =
        subst (λ r. Memᴰ r (update_where (has_id id tenant) (apply_patch now patch) rows))
          (rw other refl)
          (Memᴰ-update_where_of (has_id id tenant) (apply_patch now patch) rows {r = d} n)

-- Where the parent's UUID is written in another case than the database renders it in, the check fails:
-- in a tenant whose departments are consistent, a department moves under itself or under an active
-- descendant of it, which then is its parent and still descends from it: a cycle.
pub update_department-other_spelling :
    (ilike : String → String → Bool) (ctx : Context) (tenant id parent n actor : ℕ)
    {dept : Department} (db : Database)
    → ctx.tenant_id ≡ some tenant
    → IsConsistent tenant db.departments
    → find_by_id id tenant db.departments ≡ some dept
    → IsActiveParent parent tenant db.departments
    → Descends (find_all_for_tenant tenant db.departments) id parent
    → let out =
        update_department ilike ctx
          (rendered id)
          (record {
            name = none;
            parent_id = some (some (record { uuid = parent; spelling = suc n }));
          })
          actor
          db in
      (row : Department) × (out.0 ≡ ok row)
      × (row.id ≡ id)
      × (row.parent_id ≡ some parent)
      × (find_by_id id tenant out.1.departments ≡ some row)
      × Descends (find_all_for_tenant tenant out.1.departments) id parent
unfolding update_department require checked_name checked_parent validate_new_parent subtree_texts
    validate_parent_department update_or_throw emit update apply_patch ◌>>=◌ current_tenant_id
    emit_async
update_department-other_spelling ilike ctx tenant id parent n actor {dept} db here h found
      (e, e_found, active) below =
    let (ids, walked, _, _) = find_subtree_ids_correct id tenant db.departments h.forest in
    let (m, same, mine) = find_by_id-Memᴰ id tenant db.departments {d = dept} found in
    rw
      (
        here,
        found,
        column_is-other_spelling dept.parent_id parent n,
        e_found,
        active,
        same_text-other_spelling parent id n,
        walked,
        includes-other_spelling parent n ids,
        found,
      )
      (
        _,
        refl,
        same,
        refl,
        find_by_id-written ctx.now id tenant (record no_change { parent_id = some (some parent) })
            db.departments found,
        Descends-update_where id tenant ctx.now
            (record no_change { parent_id = some (some parent) }) db.departments h below,
      )
