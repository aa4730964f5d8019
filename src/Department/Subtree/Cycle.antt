-- ===== src/Department/Subtree/Cycle.antt =====
-- The traversal has no set of visited departments: on a cycle through its root it never returns.
use hr_saas_platform.Shared.{
  ℕ, zero, suc, ◌==◌, length, ◌<◌, ◌≡◌, refl, sym, none, some, List, [], ◌∷◌, Memᴰ, arith, inl, inr,
  ◌⊎◌, subst, ap, ◌∙◌, Bool-cases,
}
use hr_saas_platform.Database.{Department}
use hr_saas_platform.Department.Repository.{find_all_for_tenant}
use hr_saas_platform.Department.Hierarchy.{Descends, self, child}
use hr_saas_platform.Department.Subtree.{traverse, children_map, find_subtree_ids}
use hr_saas_platform.Department.Subtree.ChildMap.{child_ids, children_of-children_map}
use hr_saas_platform.Department.Subtree.Walk.{count, count-append, child_of_row}

-- A child of `x` from which the way leads on to `root`.
abbrev Onward : List Department → ℕ → ℕ → Type 0
Onward all root x = (d : Department) × Memᴰ d all × (d.parent_id ≡ some x) × Descends all d.id root

first_step : (all : List Department) {x y : ℕ} → Descends all x y → (x ≡ y) ⊎ Onward all y x
first_step all self = inl refl
first_step all {x} {y} (child {p} d below m up same) = elim (first_step all below) [
  | inl e ↦ inr (d, m, up ∙ ap some (sym e), subst (λ z. Descends all d.id z) same self)
  | inr (c, n, up', on) ↦ inr (c, n, up', child d on m up same)
]

module _ (all : List Department) (root : ℕ) (cycle : Onward all root root) where
  onward : {x : ℕ} → Descends all x root → Onward all root x
  onward {x} d = elim (first_step all d) [
    | inl e ↦ subst (Onward all root) (sym e) cycle
    | inr o ↦ o
  ]

  traverse-none :
      (fuel : ℕ) (queue result : List ℕ) {x : ℕ}
      → 0 < count x queue
      → Descends all x root
      → traverse fuel (children_map all) queue result ≡ none
  unfolding traverse count
  traverse-none zero [] result h d = absurd (omega arith)
  traverse-none zero (current ∷ rest) result h d = refl
  traverse-none (suc fuel) [] result h d = absurd (omega arith)
  traverse-none (suc fuel) (current ∷ rest) result {x} h d =
      rw (children_of-children_map current all) (elim (Bool-cases (current == x)) [
        | inl e ↦
            let (c, m, up, on) = onward d in
            traverse-none fuel _ _ {x = c.id}
              (omega (
                arith,
                count-append c.id rest (child_ids current all),
                child_of_row c current all m (up ∙ ap some (ground arith)),
              ))
              on
        | inr e ↦
            traverse-none fuel _ _ {x = x}
              (ground (arith, count-append x rest (child_ids current all))) d
      ])

-- Where some child of the root leads down to the root again, no number of rounds is enough:
-- `findSubtreeIds` does not return.
pub find_subtree_ids_cycle :
    (root tenant : ℕ) (rows : List Department) (d : Department)
    → Memᴰ d (find_all_for_tenant tenant rows)
    → d.parent_id ≡ some root
    → Descends (find_all_for_tenant tenant rows) d.id root
    → (find_subtree_ids root tenant rows ≡ none)
      × ((fuel : ℕ)
          → traverse fuel (children_map (find_all_for_tenant tenant rows)) (root ∷ []) [] ≡ none)
unfolding find_subtree_ids count
find_subtree_ids_cycle root tenant rows d m up down =
    let all = find_all_for_tenant tenant rows in
    let stuck = λ (fuel : ℕ).
      traverse-none all root (d, m, up, down) fuel (root ∷ []) [] {x = root} (ground arith) self in
    (stuck (suc (length all)), stuck)
