-- ===== src/Department/Forest.antt =====
-- Which changes of the rows of a tenant keep them a forest.
use hr_saas_platform.Shared.{
  ℕ, ◌+◌, ◌==◌, ==_ne, if◌then◌else◌, Bool, true, false, ◌<◌, ◌≡◌, ◌≢◌, refl, sym, ap, ◌∙◌, Option,
  none, some, List, Memᴰ, All, All-Memᴰ, All-tabulate, arith, inl, inr, ◌⊎◌, ◌↔◌, Bool-cases,
}
use hr_saas_platform.Shared.Table.{
  update_where, insert, count_where-update_where, count_where-insert, count_where-eq-zero,
  Memᴰ-update_where, Memᴰ-insert,
}
use hr_saas_platform.Database.{Department}
use hr_saas_platform.Department.Hierarchy.{Descends, self, child, IsForest, row_unique}
use hr_saas_platform.Department.Subtree.Walk.{count}

-- The order of ranks between a row and its parent.
abbrev pub IsBelow : (ℕ → ℕ) → Department → Type 0
IsBelow rank d = (p : ℕ) → d.parent_id ≡ some p → rank p < rank d.id

pub IsForest-IsBelow :
    {all : List Department} (forest : IsForest all) (d : Department)
    → Memᴰ d all
    → IsBelow forest.rank d
IsForest-IsBelow {all} forest d m = All-Memᴰ (IsBelow forest.rank) all forest.ranked m

module _ {all : List Department} (forest : IsForest all) (q : Department → Bool)
    (f : Department → Department) (keeps_id : (d : Department) → (f d).id ≡ d.id) where
  -- A change that leaves the parent alone, or clears it, needs no new ranks.
  pub update-IsForest :
      ((d : Department) → ((f d).parent_id ≡ d.parent_id) ⊎ ((f d).parent_id ≡ none))
      → IsForest (update_where q f all)
  update-IsForest keeps = record {
    unique = λ x.
        rw (count_where-update_where (λ d. d.id == x) q f all (λ d. ap (λ i. i == x) (keeps_id d)))
          (forest.unique x);
    rank = forest.rank;
    ranked = All-tabulate (update_where q f all) below;
  }
    where
      below : (d : Department) → Memᴰ d (update_where q f all) → IsBelow forest.rank d
      below d m p up =
          let (old, n, e) = Memᴰ-update_where q f all m in
          ground (
            arith,
            ap (λ (r : Department). r.id) e,
            ap (λ (r : Department). r.parent_id) e,
            keeps old,
            keeps_id old,
            IsForest-IsBelow forest old n p,
          )

  -- A department may move under any other that is no descendant of it: the ranks of its subtree
  -- are raised above that of the new parent.
  module _ (id new_parent : ℕ) (ids : List ℕ)
      (members : (x : ℕ) → (0 < count x ids) ↔ Descends all id x)
      (outside : count new_parent ids ≡ 0) where
    raised : ℕ → ℕ
    raised x =
        if count x ids == 0 then forest.rank x else forest.rank x + forest.rank new_parent + 1

    -- Another department is in the subtree just when its parent is.
    same_side :
        (d : Department) (p : ℕ)
        → Memᴰ d all
        → d.id ≢ id
        → d.parent_id ≡ some p
        → (0 < count p ids) ↔ (0 < count d.id ids)
    same_side d p m other up = (
      λ h. (members d.id).1 (child d ((members p).0 h) m up refl),
      λ h. up_from ((members d.id).0 h) refl,
    )
      where
        up_from : {x : ℕ} → Descends all id x → x ≡ d.id → 0 < count p ids
        up_from self e = absurd (other (sym e))
        up_from (child {p = p'} d' below m' up' same) e =
            let twin = row_unique all forest.unique m m' (sym e ∙ sym same) in
            let one : p ≡ p' = cc (ap (λ (r : Department). r.parent_id) twin) in
            rw one ((members p').1 below)

    pub move-IsForest :
        ((d : Department) → (f d).parent_id ≡ some new_parent)
        → ((d : Department) → Memᴰ d all → (q d ≡ true) ↔ (d.id ≡ id))
        → IsForest (update_where q f all)
    unfolding raised
    move-IsForest sets hits = record {
      unique = λ x.
          rw
            (count_where-update_where (λ d. d.id == x) q f all (λ d. ap (λ i. i == x) (keeps_id d)))
            (forest.unique x);
      rank = raised;
      ranked = All-tabulate (update_where q f all) below;
    }
      where
        moved :
            (d : Department) (p : ℕ)
            → d.id ≡ id
            → (f d).parent_id ≡ some p
            → raised p < raised (f d).id
        moved d p same up =
            let one : p ≡ new_parent = cc (sets d) in
            ground (
              arith,
              (members id).1 self,
              ap (λ x. count x ids) one,
              ap forest.rank one,
              keeps_id d,
            )

        below : (d : Department) → Memᴰ d (update_where q f all) → IsBelow raised d
        below d m p up =
            let (old, n, e) = Memᴰ-update_where q f all m in
            elim (Bool-cases (q old)) [
              | inl hit ↦
                  let e' : d ≡ f old = ground arith in
                  rw (ap (λ (r : Department). r.id) e') (
                    moved old p ((hits old n).0 hit)
                      (sym (ap (λ (r : Department). r.parent_id) e') ∙ up))
              | inr miss ↦
                  let e' : d ≡ old = ground arith in
                  let up' : old.parent_id ≡ some p =
                    sym (ap (λ (r : Department). r.parent_id) e') ∙ up in
                  rw (ap (λ (r : Department). r.id) e') (
                    ground (
                      arith,
                      IsForest-IsBelow forest old n p up',
                      same_side old p n (λ s. cc ((hits old n).1 s)) up',
                    ))
            ]

-- The rank just above that of the parent.
abbrev above_parent : (ℕ → ℕ) → Option ℕ → ℕ
above_parent rank none = 1
above_parent rank (some p) = rank p + 1

-- A new department whose id is no row's and no row's parent may hang under any other.
pub insert-IsForest :
    {all : List Department} (forest : IsForest all) (d : Department)
    → ((r : Department) → Memᴰ r all → (r.id ≢ d.id) × (r.parent_id ≢ some d.id))
    → d.parent_id ≢ some d.id
    → IsForest (insert d all)
insert-IsForest {all} forest d fresh own = record {
  unique = λ x.
      rw (count_where-insert (λ r. r.id == x) d all)
        (ground (arith, forest.unique x, count_where-eq-zero (λ r. r.id == d.id) all absent));
  rank = rank';
  ranked = All-tabulate (insert d all) below;
}
  where
    rank' : ℕ → ℕ
    rank' x = if x == d.id then above_parent forest.rank d.parent_id else forest.rank x

    absent : All (λ r. (r.id == d.id) ≡ false) all
    absent = All-tabulate all (λ r m. ==_ne r.id d.id (fresh r m).0)

    below : (r : Department) → Memᴰ r (insert d all) → IsBelow rank' r
    below r m p up = elim (Memᴰ-insert d all m) [
      | inl old ↦
          let (other, not_under) = fresh r old in
          let apart : p ≢ d.id = λ e. not_under (up ∙ ap some e) in
          ground (arith, IsForest-IsBelow forest r old p up)
      | inr e ↦
          let up' : d.parent_id ≡ some p = sym (ap (λ (r : Department). r.parent_id) e) ∙ up in
          let apart : p ≢ d.id = λ s. own (up' ∙ ap some s) in
          rw (ap (λ (r : Department). r.id) e) (ground arith)
    ]
