-- ===== src/Department/Subtree/ChildMap.antt =====
-- The map that `findSubtreeIds` builds lists, for each parent, the ids of its children.
use mathlib.Core.List.{foldl, append_assoc, append-nil}
use hr_saas_platform.Shared.{
  ℕ, ◌==◌, ◌=?=◌, if◌then◌else◌, ◌≡◌, refl, sym, ◌∙◌, some, List, [], ◌∷◌, ◌++◌, arith, inl, inr,
  Option-cases,
}
use hr_saas_platform.Database.{Department}
use hr_saas_platform.Department.Subtree.{
  ChildMap, children_of, set_children, add_child, children_map,
}

-- The ids of the rows whose parent is `p`, in their order.
unfoldable pub child_ids : ℕ → List Department → List ℕ
child_ids p [] = []
child_ids p (d ∷ all) =
    let rest = child_ids p all in if d.parent_id =?= some p then d.id ∷ rest else rest

children_of-set_children :
    (j k : ℕ) (ids : List ℕ) (m : ChildMap)
    → children_of j (set_children k ids m) ≡ (if k == j then ids else children_of j m)
unfolding children_of set_children
children_of-set_children j k ids [] = refl
children_of-set_children j k ids ((i, old) ∷ m) = ground (arith, children_of-set_children j k ids m)

children_of-add_child :
    (j : ℕ) (m : ChildMap) (d : Department)
    → children_of j (add_child m d)
      ≡ (if d.parent_id =?= some j then children_of j m ++ d.id ∷ [] else children_of j m)
unfolding add_child
children_of-add_child j m d = elim (Option-cases d.parent_id) [
  | inl e ↦ ground arith
  | inr (p, e) ↦ ground (arith, children_of-set_children j p (children_of p m ++ d.id ∷ []) m)
]

children_of-foldl :
    (j : ℕ) (m : ChildMap) (all : List Department)
    → children_of j (foldl add_child m all) ≡ children_of j m ++ child_ids j all
unfolding child_ids
children_of-foldl j m [] = sym (append-nil _)
children_of-foldl j m (d ∷ all) =
    children_of-foldl j (add_child m d) all
    ∙ ground (
      arith,
      children_of-add_child j m d,
      append_assoc (children_of j m) (d.id ∷ []) (child_ids j all),
    )

pub children_of-children_map :
    (j : ℕ) (all : List Department) → children_of j (children_map all) ≡ child_ids j all
unfolding children_map children_of
children_of-children_map j all = children_of-foldl j [] all
