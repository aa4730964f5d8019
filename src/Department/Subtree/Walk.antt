-- ===== src/Department/Subtree/Walk.antt =====
-- One round of the traversal, as counts of ids: what it takes from the queue and what it adds.
use hr_saas_platform.Shared.{
  ℕ, suc, ◌+◌, ◌==◌, ◌=?=◌, if◌then◌else◌, length, Bool, false, ◌&&◌, ◌≤◌, ◌<◌, ◌≡◌, refl, none,
  some, List, [], ◌∷◌, ◌++◌, Memᴰ, arith, inl, inr, Option-cases, Bool-cases,
}
use hr_saas_platform.Shared.Table.{count_where}
use hr_saas_platform.Database.{Department}
use hr_saas_platform.Department.Subtree.ChildMap.{child_ids}

-- How often an id is listed.
unfoldable pub count : ℕ → List ℕ → ℕ
count x [] = 0
count x (y ∷ ys) = let rest = count x ys in if y == x then suc rest else rest

pub count-append : (x : ℕ) (ys zs : List ℕ) → count x (ys ++ zs) ≡ count x ys + count x zs
unfolding count
count-append x [] zs = omega arith
count-append x (y ∷ ys) zs = ground (arith, count-append x ys zs)

pub count-singleton : (x y : ℕ) → count x (y ∷ []) ≡ (if y == x then 1 else 0)
unfolding count
count-singleton x y = ground arith

-- A child that is listed comes from a row that names the parent.
pub row_of_child :
    (x p : ℕ) (all : List Department)
    → 0 < count x (child_ids p all)
    → (d : Department) × Memᴰ d all × (d.id ≡ x) × (d.parent_id ≡ some p)
unfolding count child_ids
row_of_child x p [] h = absurd (omega arith)
row_of_child x p (d ∷ all) h = elim (Bool-cases (d.parent_id =?= some p && d.id == x)) [
  | inl here ↦ (d, Memᴰ.head refl, ground arith, ground arith)
  | inr other ↦
      let (e, m, same, up) = row_of_child x p all (ground arith) in (e, Memᴰ.tail m, same, up)
]

pub child_of_row :
    (d : Department) (p : ℕ) (all : List Department)
    → Memᴰ d all
    → d.parent_id ≡ some p
    → 0 < count d.id (child_ids p all)
unfolding count child_ids
child_of_row d p [] m e = elim m [ ]
child_of_row d p (x ∷ all) (Memᴰ.head same) e = ground arith
child_of_row d p (x ∷ all) (Memᴰ.tail m) e = ground (arith, child_of_row d p all m e)

pub count-child_ids-le :
    (x p : ℕ) (all : List Department) → count x (child_ids p all) ≤ count_where (λ d. d.id == x) all
unfolding count child_ids count_where
count-child_ids-le x p [] = omega arith
count-child_ids-le x p (d ∷ all) = ground (arith, count-child_ids-le x p all)

-- A row whose parent has not been visited.
abbrev pub is_waiting : List ℕ → Department → Bool
is_waiting result d = elim d.parent_id [ none ↦ false | some p ↦ count p result == 0 ]

-- Visiting `p` for the first time moves its children out of the rows that wait.
pub waiting-visit :
    (p : ℕ) (result : List ℕ) (all : List Department)
    → count p result ≡ 0
    → count_where (is_waiting (result ++ p ∷ [])) all + length (child_ids p all)
      ≡ count_where (is_waiting result) all
unfolding child_ids count_where
waiting-visit p result [] h = omega arith
waiting-visit p result (d ∷ all) h = elim (Option-cases d.parent_id) [
  | inl e ↦ ground (arith, waiting-visit p result all h)
  | inr (q, e) ↦
      ground
        (arith, waiting-visit p result all h, count-append q result (p ∷ []), count-singleton q p)
]
