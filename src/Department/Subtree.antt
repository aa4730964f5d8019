-- ===== src/Department/Subtree.antt =====
-- `findSubtreeIds` (src/modules/department/repositories/department.repository.ts): the map from a
-- parent to its children, and the breadth-first traversal.
pub mod ChildMap
pub mod Walk
pub mod Loop
pub mod Correct
pub mod Cycle
use mathlib.Core.List.{foldl}
use hr_saas_platform.Shared.{
  ℕ, zero, suc, ◌==◌, if◌then◌else◌, length, Option, none, some, List, [], ◌∷◌, ◌++◌,
}
use hr_saas_platform.Database.{Department}
use hr_saas_platform.Department.Repository.{find_all_for_tenant}

-- Map<string, string[]>
abbrev pub ChildMap : Type 0
ChildMap = List (ℕ × List ℕ)

-- `childrenMap.get(key) ?? []`
unfoldable pub children_of : ℕ → ChildMap → List ℕ
children_of key [] = []
children_of key ((k, ids) ∷ m) = if k == key then ids else children_of key m

-- `childrenMap.set(key, ids)`
unfoldable pub set_children : ℕ → List ℕ → ChildMap → ChildMap
set_children key ids [] = (key, ids) ∷ []
set_children key ids ((k, old) ∷ m) =
    if k == key then (key, ids) ∷ m else (k, old) ∷ set_children key ids m

-- One round of the loop that fills the map.
unfoldable pub add_child : ChildMap → Department → ChildMap
add_child m dept = elim dept.parent_id [
  | none ↦ m
  | some parent ↦ set_children parent (children_of parent m ++ dept.id ∷ []) m
]

unfoldable pub children_map : List Department → ChildMap
unfolding add_child
children_map = foldl add_child []

-- The `while` loop, on fuel: `none` where it runs out.
unfoldable pub traverse : ℕ → ChildMap → List ℕ → List ℕ → Option (List ℕ)
traverse zero m queue result = elim queue [ [] ↦ some result | _ ∷ _ ↦ none ]
traverse (suc fuel) m queue result = elim queue [
  | [] ↦ some result
  | current ∷ rest ↦ traverse fuel m (rest ++ children_of current m) (result ++ current ∷ [])
]

-- One round for the root and one for each department is enough, where the loop ends at all.
unfoldable pub find_subtree_ids : ℕ → ℕ → List Department → Option (List ℕ)
unfolding traverse children_map
find_subtree_ids root tenant rows =
    let all = find_all_for_tenant tenant rows in
    traverse (suc (length all)) (children_map all) (root ∷ []) []
