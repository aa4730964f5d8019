-- ===== src/Department/Subtree/Loop.antt =====
-- What holds between two rounds of the traversal of a forest, and that the rounds come to an end.
use hr_saas_platform.Shared.{
  ℕ, zero, suc, ◌+◌, length, length-append, ◌≤◌, ◌<◌, ◌≡◌, ◌≢◌, refl, sym, some, List, [], ◌∷◌,
  ◌++◌, Memᴰ, All-Memᴰ, ◌∙◌, arith, inl, inr, ◌⊎◌, ap,
}
use hr_saas_platform.Shared.Table.{count_where}
use hr_saas_platform.Database.{Department}
use hr_saas_platform.Department.Hierarchy.{
  Descends, self, child, UniqueIds, IsRanked, rank-Descends, row_unique,
}
use hr_saas_platform.Department.Subtree.{traverse, children_map}
use hr_saas_platform.Department.Subtree.ChildMap.{child_ids, children_of-children_map}
use hr_saas_platform.Department.Subtree.Walk.{
  count, count-append, count-singleton, row_of_child, child_of_row, count-child_ids-le, is_waiting,
  waiting-visit,
}

zero_or_pos : (n : ℕ) → (n ≡ 0) ⊎ (0 < n)
zero_or_pos zero = inl refl
zero_or_pos (suc n) = inr (omega arith)

module _ (rank : ℕ → ℕ) (all : List Department) (root : ℕ) (unique : UniqueIds all)
    (ranked : IsRanked rank all) where
  abbrev pub total : ℕ → List ℕ → List ℕ → ℕ
  total x queue result = count x queue + count x result

  -- Where a listed id comes from: it is the root, or a row names a visited parent.
  abbrev pub Origin : ℕ → List ℕ → Type 0
  Origin x result =
      (x ≡ root)
      ⊎ ((d : Department) × (p : ℕ) × Memᴰ d all
          × (d.id ≡ x)
          × (d.parent_id ≡ some p)
          × (0 < count p result))

  pub record Inv (queue result : List ℕ) : Type 0 where
    pub once : (x : ℕ) → total x queue result ≤ 1
    pub origin : (x : ℕ) → 0 < total x queue result → Origin x result
    pub sound : (x : ℕ) → 0 < total x queue result → Descends all root x
    pub closed :
        (d : Department) (p : ℕ)
        → Memᴰ d all
        → d.parent_id ≡ some p
        → 0 < count p result
        → 0 < total d.id queue result
    pub rooted : 0 < total root queue result

  head_listed : (current : ℕ) (rest result : List ℕ) → 0 < total current (current ∷ rest) result
  unfolding count
  head_listed current rest result = ground arith

  total-step :
      (x current : ℕ) (rest result more : List ℕ)
      → total x (rest ++ more) (result ++ current ∷ [])
        ≡ total x (current ∷ rest) result + count x more
  total-step x current rest result more = omega (
    arith,
    count-append x rest more,
    count-append x result (current ∷ []),
    count-append x (current ∷ []) rest,
  )

  module _ (current : ℕ) (rest result : List ℕ) (inv : Inv (current ∷ rest) result) where
    not-visited : count current result ≡ 0
    unfolding count
    not-visited = ground (arith, inv.once current)

    -- A row whose parent is the head of the queue is not the root's.
    child-ne-root : (d : Department) → Memᴰ d all → d.parent_id ≡ some current → d.id ≢ root
    child-ne-root d m up e = omega (
      arith,
      rank-Descends rank all ranked (inv.sound current (head_listed current rest result)),
      All-Memᴰ (λ r. (p : ℕ) → r.parent_id ≡ some p → rank p < rank r.id) all ranked m current up,
      ap rank e,
    )

    -- A child of the id at the head of the queue has not been listed before.
    child_is_new :
        (x : ℕ) → 0 < count x (child_ids current all) → total x (current ∷ rest) result ≡ 0
    child_is_new x h = elim (zero_or_pos (total x (current ∷ rest) result)) [
      | inl fresh ↦ fresh
      | inr listed ↦
          let (d, m, same, up) = row_of_child x current all h in
          elim (inv.origin x listed) [
            | inl e ↦ absurd (child-ne-root d m up (same ∙ e))
            | inr (e, p, n, same', up', visited) ↦
                let twin = row_unique all unique m n (same ∙ sym same') in
                let one : p ≡ current = cc (ap (λ (r : Department). r.parent_id) twin) in
                absurd (omega (arith, not-visited, ap (λ q. count q result) one))
          ]
    ]

    Origin-mono : (x : ℕ) → Origin x result → Origin x (result ++ current ∷ [])
    Origin-mono x (inl e) = inl e
    Origin-mono x (inr (d, p, m, same, up, visited)) =
        inr (d, p, m, same, up, omega (arith, count-append p result (current ∷ [])))

    Origin-of_child :
        (x : ℕ) → 0 < count x (child_ids current all) → Origin x (result ++ current ∷ [])
    unfolding count
    Origin-of_child x h =
        let (d, m, same, up) = row_of_child x current all h in
        inr (d, current, m, same, up, ground (arith, count-append current result (current ∷ [])))

    sound_of_child : (x : ℕ) → 0 < count x (child_ids current all) → Descends all root x
    sound_of_child x h =
        let (d, m, same, up) = row_of_child x current all h in
        child d (inv.sound current (head_listed current rest result)) m up same

    now_visited : (p : ℕ) → 0 < count p (result ++ current ∷ []) → count p result ≡ 0 → p ≡ current
    now_visited p h z =
        ground (arith, count-append p result (current ∷ []), count-singleton p current)

    pub Inv-step : Inv (rest ++ child_ids current all) (result ++ current ∷ [])
    Inv-step = record {
      once = λ x. elim (zero_or_pos (count x new)) [
        | inl z ↦ omega (arith, step x, z, inv.once x)
        | inr h ↦
            omega (arith, step x, child_is_new x h, count-child_ids-le x current all, unique x)
      ];
      origin = λ x h. elim (zero_or_pos (count x new)) [
        | inl z ↦ Origin-mono x (inv.origin x (omega (arith, step x)))
        | inr c ↦ Origin-of_child x c
      ];
      sound = λ x h. elim (zero_or_pos (count x new)) [
        | inl z ↦ inv.sound x (omega (arith, step x))
        | inr c ↦ sound_of_child x c
      ];
      closed = λ d p m up visited. elim (zero_or_pos (count p result)) [
        | inl z ↦ omega (
          arith,
          step d.id,
          child_of_row d current all m (up ∙ ap some (now_visited p visited z)),
        )
        | inr v ↦ omega (arith, step d.id, inv.closed d p m up v)
      ];
      rooted = omega (arith, step root, inv.rooted);
    }
      where
        new : List ℕ
        new = child_ids current all

        step :
            (x : ℕ)
            → total x (rest ++ child_ids current all) (result ++ current ∷ [])
              ≡ total x (current ∷ rest) result + count x (child_ids current all)
        step x = total-step x current rest result (child_ids current all)

  -- The traversal ends within one round for each listed id and each row that still waits.
  pub traverse_ends :
      (fuel : ℕ) (queue result : List ℕ)
      → Inv queue result
      → length queue + count_where (is_waiting result) all ≤ fuel
      → (ids : List ℕ) × (traverse fuel (children_map all) queue result ≡ some ids) × Inv [] ids
  unfolding traverse
  traverse_ends zero [] result inv h = (result, refl, inv)
  traverse_ends zero (current ∷ rest) result inv h = absurd (omega arith)
  traverse_ends (suc fuel) [] result inv h = (result, refl, inv)
  traverse_ends (suc fuel) (current ∷ rest) result inv h =
      rw (children_of-children_map current all) (
        traverse_ends fuel (rest ++ child_ids current all) (result ++ current ∷ [])
          (Inv-step current rest result inv)
          (omega (
            arith,
            length-append rest (child_ids current all),
            waiting-visit current result all (not-visited current rest result inv),
          )))

  pub Inv-start : Inv (root ∷ []) []
  unfolding count
  Inv-start = record {
    once = λ x. ground arith;
    origin = λ x h. inl (ground arith);
    sound = λ x h. rw (root_only x h) self;
    closed = λ d p m up visited. absurd (omega arith);
    rooted = ground arith;
  }
    where
      root_only : (x : ℕ) → 0 < count x (root ∷ []) + count x [] → x ≡ root
      root_only x h = ground arith
