-- ===== src/Department/Hierarchy.antt =====
-- The hierarchy that the `parent_id` columns describe, independently of any traversal.
use hr_saas_platform.Shared.{
  ℕ, ◌==◌, ◌≤◌, ◌<◌, ◌≡◌, sym, ap, ◌∙◌, some, List, [], ◌∷◌, Memᴰ, All, All-Memᴰ, arith,
}
use hr_saas_platform.Shared.Table.{count_where, count_where-pos}
use hr_saas_platform.Database.{Department}

-- `x` is the root, or its row names a parent that descends from the root.
pub data Descends (all : List Department) (root : ℕ) : ℕ → Type 0 where
  self : Descends all root root
  child :
      {p x : ℕ} (d : Department)
      → Descends all root p
      → Memᴰ d all
      → d.parent_id ≡ some p
      → d.id ≡ x
      → Descends all root x

-- The primary key: no two rows have one id.
abbrev pub UniqueIds : List Department → Type 0
UniqueIds all = (x : ℕ) → count_where (λ d. d.id == x) all ≤ 1

-- Every parent has a smaller rank than its children, so the hierarchy has no cycle.
abbrev pub IsRanked : (ℕ → ℕ) → List Department → Type 0
IsRanked rank = All (λ d. (p : ℕ) → d.parent_id ≡ some p → rank p < rank d.id)

pub rank-Descends :
    (rank : ℕ → ℕ) (all : List Department)
    → IsRanked rank all
    → {root x : ℕ} → Descends all root x
    → rank root ≤ rank x
rank-Descends rank all h self = omega arith
rank-Descends rank all h (child d below m e same) =
    let step = All-Memᴰ (λ d. (p : ℕ) → d.parent_id ≡ some p → rank p < rank d.id) all h m _ e in
    let earlier = rank-Descends rank all h below in omega (arith, ap rank same)

-- With unique ids, the rows of one id are one row.
pub row_unique :
    (all : List Department) {d e : Department}
    → UniqueIds all
    → Memᴰ d all
    → Memᴰ e all
    → d.id ≡ e.id
    → d ≡ e
unfolding count_where
row_unique [] u m n same = elim m [ ]
row_unique (x ∷ all) u (Memᴰ.head p) (Memᴰ.head q) same = p ∙ sym q
row_unique (x ∷ all) {d} {e} u (Memᴰ.head p) (Memᴰ.tail n) same =
    absurd (ground (arith, u d.id, count_where-pos (λ r. r.id == d.id) all n))
row_unique (x ∷ all) {d} {e} u (Memᴰ.tail m) (Memᴰ.head q) same =
    absurd (ground (arith, u e.id, count_where-pos (λ r. r.id == e.id) all m))
row_unique (x ∷ all) u (Memᴰ.tail m) (Memᴰ.tail n) same =
    row_unique all (λ y. ground (arith, u y)) m n same

-- The departments of a tenant form a forest: distinct ids, and no cycle of parents.
pub record IsForest (all : List Department) : Type 0 where
  pub unique : UniqueIds all
  pub rank : ℕ → ℕ
  pub ranked : IsRanked rank all
