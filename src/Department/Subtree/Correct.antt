-- ===== src/Department/Subtree/Correct.antt =====
-- `findSubtreeIds` on a forest and on a hierarchy with a cycle.
use hr_saas_platform.Shared.{
  ℕ, suc, length, ◌≤◌, ◌<◌, ◌≡◌, some, List, [], ◌∷◌, Memᴰ, arith, ◌↔◌, subst,
}
use hr_saas_platform.Shared.Table.{count_where-le-length}
use hr_saas_platform.Database.{Department}
use hr_saas_platform.Department.Repository.{find_all_for_tenant}
use hr_saas_platform.Department.Hierarchy.{Descends, self, child, IsForest}
use hr_saas_platform.Department.Subtree.{find_subtree_ids}
use hr_saas_platform.Department.Subtree.Walk.{count, is_waiting}
use hr_saas_platform.Department.Subtree.Loop.{Inv-start, traverse_ends}

complete :
    (all : List Department) (root : ℕ) (ids : List ℕ)
    → ((d : Department) (p : ℕ)
        → Memᴰ d all
        → d.parent_id ≡ some p
        → 0 < count p ids
        → 0 < count d.id ids)
    → 0 < count root ids
    → {x : ℕ} → Descends all root x
    → 0 < count x ids
complete all root ids closed rooted self = rooted
complete all root ids closed rooted (child d below m up same) =
    subst (λ y. 0 < count y ids) same (closed d _ m up (complete all root ids closed rooted below))

-- In a tenant whose departments form a forest, `findSubtreeIds` returns: it lists the ids that
-- descend from the root, the root's own among them, and each of them once.
pub find_subtree_ids_correct :
    (root tenant : ℕ) (rows : List Department)
    → IsForest (find_all_for_tenant tenant rows)
    → (ids : List ℕ) × (find_subtree_ids root tenant rows ≡ some ids)
      × ((x : ℕ) → (0 < count x ids) ↔ Descends (find_all_for_tenant tenant rows) root x)
      × ((x : ℕ) → count x ids ≤ 1)
unfolding find_subtree_ids count
find_subtree_ids_correct root tenant rows forest =
    let all = find_all_for_tenant tenant rows in
    let (ids, ends, inv) =
      traverse_ends forest.rank all root forest.unique forest.ranked (suc (length all)) (root ∷ [])
        [] (Inv-start forest.rank all root forest.unique forest.ranked)
        (omega (arith, count_where-le-length (is_waiting []) all)) in
    (
      ids,
      ends,
      λ x. (
        λ h. inv.sound x (omega arith),
        complete all root ids (λ d p m up v. omega (arith, inv.closed d p m up v))
            (omega (arith, inv.rooted)),
      ),
      λ x. omega (arith, inv.once x),
    )
