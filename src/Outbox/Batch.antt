-- ===== src/Outbox/Batch.antt =====
-- The batch of a poll: at most fifty rows that are due, the oldest ones.
use mathlib.Core.List.Memᴰ
use hr_saas_platform.Shared.{
  ℕ, zero, suc, ◌≤◌, leb, length, All, All-Memᴰ, All-tabulate, true, ◌≡◌, refl, ap, List, [], ◌∷◌,
  Memᴰ, arith, inl, inr, ◌⊎◌, Bool-cases,
}
use hr_saas_platform.Shared.Table.{select, Memᴰ-select, Memᴰ-select_of}
use hr_saas_platform.Database.{EventOutboxRecord}
use hr_saas_platform.Outbox.{
  batch_size, is_due, insert_by_created, order_by_created, limit, selected,
}

abbrev pub IsOlder : EventOutboxRecord → EventOutboxRecord → Type 0
IsOlder r s = r.created_at ≤ s.created_at

abbrev IsSorted : List EventOutboxRecord → Type 0
IsSorted [] = Unit
IsSorted (r ∷ rows) = All (IsOlder r) rows × IsSorted rows

Memᴰ-insert_by_created :
    (r : EventOutboxRecord) (rows : List EventOutboxRecord) {s : EventOutboxRecord}
    → Memᴰ s (insert_by_created r rows)
    → (s ≡ r) ⊎ Memᴰ s rows
unfolding insert_by_created
Memᴰ-insert_by_created r [] m = inl (Memᴰ.eq_of_singleton m)
Memᴰ-insert_by_created r (x ∷ rows) m = elim (Bool-cases (leb r.created_at x.created_at)) [
  | inl before ↦ Memᴰ.cases_cons (rw before at m)
  | inr after ↦ elim (Memᴰ.cases_cons (rw after at m)) [
    | inl e ↦ inr (Memᴰ.head e)
    | inr n ↦ elim (Memᴰ-insert_by_created r rows n) [ inl e ↦ inl e | inr k ↦ inr (Memᴰ.tail k) ]
  ]
]

insert_by_created-Memᴰ :
    (r : EventOutboxRecord) (rows : List EventOutboxRecord) {s : EventOutboxRecord}
    → (s ≡ r) ⊎ Memᴰ s rows
    → Memᴰ s (insert_by_created r rows)
unfolding insert_by_created
insert_by_created-Memᴰ r [] (inl e) = Memᴰ.head e
insert_by_created-Memᴰ r [] (inr m) = elim m [ ]
insert_by_created-Memᴰ r (x ∷ rows) w = elim (Bool-cases (leb r.created_at x.created_at)) [
  | inl before ↦ rw before (elim w [ inl e ↦ Memᴰ.head e | inr m ↦ Memᴰ.tail m ])
  | inr after ↦ rw after (elim w [
    | inl e ↦ Memᴰ.tail (insert_by_created-Memᴰ r rows (inl e))
    | inr m ↦ elim (Memᴰ.cases_cons m) [
      | inl e ↦ Memᴰ.head e
      | inr n ↦ Memᴰ.tail (insert_by_created-Memᴰ r rows (inr n))
    ]
  ])
]

insert_by_created-IsSorted :
    (r : EventOutboxRecord) (rows : List EventOutboxRecord)
    → IsSorted rows
    → IsSorted (insert_by_created r rows)
unfolding insert_by_created
insert_by_created-IsSorted r [] h = (tt, tt)
insert_by_created-IsSorted r (x ∷ rows) (hx, h) =
    elim (Bool-cases (leb r.created_at x.created_at)) [
      | inl before ↦ rw before (
        (ground arith, All-tabulate rows (λ s m. ground (arith, All-Memᴰ (IsOlder x) rows hx m))),
        (hx, h),
      )
      | inr after ↦ rw after (
        All-tabulate (insert_by_created r rows) (λ s m. elim (Memᴰ-insert_by_created r rows m) [
          | inl e ↦ ground (arith, ap (λ (q : EventOutboxRecord). q.created_at) e)
          | inr n ↦ All-Memᴰ (IsOlder x) rows hx n
        ]),
        insert_by_created-IsSorted r rows h,
      )
    ]

order_by_created-IsSorted : (rows : List EventOutboxRecord) → IsSorted (order_by_created rows)
unfolding order_by_created
order_by_created-IsSorted [] = tt
order_by_created-IsSorted (r ∷ rows) =
    insert_by_created-IsSorted r (order_by_created rows) (order_by_created-IsSorted rows)

Memᴰ-order_by_created :
    (rows : List EventOutboxRecord) {s : EventOutboxRecord}
    → Memᴰ s (order_by_created rows)
    → Memᴰ s rows
unfolding order_by_created
Memᴰ-order_by_created [] m = m
Memᴰ-order_by_created (r ∷ rows) m = elim (Memᴰ-insert_by_created r (order_by_created rows) m) [
  | inl e ↦ Memᴰ.head e
  | inr n ↦ Memᴰ.tail (Memᴰ-order_by_created rows n)
]

order_by_created-Memᴰ :
    (rows : List EventOutboxRecord) {s : EventOutboxRecord}
    → Memᴰ s rows
    → Memᴰ s (order_by_created rows)
unfolding order_by_created
order_by_created-Memᴰ [] m = m
order_by_created-Memᴰ (r ∷ rows) m =
    insert_by_created-Memᴰ r (order_by_created rows)
      (elim (Memᴰ.cases_cons m) [ inl e ↦ inl e | inr n ↦ inr (order_by_created-Memᴰ rows n) ])

length-limit : (n : ℕ) (rows : List EventOutboxRecord) → length (limit n rows) ≤ n
unfolding limit
length-limit zero rows = omega arith
length-limit (suc n) [] = omega arith
length-limit (suc n) (r ∷ rows) = omega (arith, length-limit n rows)

Memᴰ-limit :
    (n : ℕ) (rows : List EventOutboxRecord) {s : EventOutboxRecord}
    → Memᴰ s (limit n rows)
    → Memᴰ s rows
unfolding limit
Memᴰ-limit zero rows m = elim m [ ]
Memᴰ-limit (suc n) [] m = m
Memᴰ-limit (suc n) (r ∷ rows) m = elim (Memᴰ.cases_cons m) [
  | inl e ↦ Memᴰ.head e
  | inr k ↦ Memᴰ.tail (Memᴰ-limit n rows k)
]

-- A row that the limit cuts off is no older than those that it leaves, and they are as many as it
-- allows.
abbrev pub IsCutOff : ℕ → List EventOutboxRecord → EventOutboxRecord → Type 0
IsCutOff n batch r = (length batch ≡ n) × All (λ s. IsOlder s r) batch

limit-cases :
    (n : ℕ) (rows : List EventOutboxRecord) {r : EventOutboxRecord}
    → IsSorted rows
    → Memᴰ r rows
    → Memᴰ r (limit n rows) ⊎ IsCutOff n (limit n rows) r
unfolding limit
limit-cases zero rows sorted m = inr (refl, tt)
limit-cases (suc n) [] sorted m = elim m [ ]
limit-cases (suc n) (x ∷ rows) (hx, h) m = elim (Memᴰ.cases_cons m) [
  | inl e ↦ inl (Memᴰ.head e)
  | inr k ↦ elim (limit-cases n rows h k) [
    | inl kept ↦ inl (Memᴰ.tail kept)
    | inr (full, older) ↦ inr (ap suc full, (All-Memᴰ (IsOlder x) rows hx k, older))
  ]
]

-- The batch has at most fifty rows, all of them rows of the table that are due; and a row that is
-- due is in it, or it holds fifty rows and none is newer than that row.
pub selected-batch :
    (now : ℕ) (rows : List EventOutboxRecord)
    → (length (selected now rows) ≤ batch_size)
      × ((s : EventOutboxRecord) → Memᴰ s (selected now rows) → Memᴰ s rows × (is_due now s ≡ true))
      × ((r : EventOutboxRecord)
          → Memᴰ r rows
          → is_due now r ≡ true
          → Memᴰ r (selected now rows) ⊎ IsCutOff batch_size (selected now rows) r)
unfolding selected
selected-batch now rows =
    let due = select (is_due now) rows in
    (
      length-limit batch_size (order_by_created due),
      λ s m. Memᴰ-select (is_due now) rows (Memᴰ-order_by_created due (Memᴰ-limit batch_size _ m)),
      λ r m d.
          limit-cases batch_size (order_by_created due) (order_by_created-IsSorted due)
            (order_by_created-Memᴰ due (Memᴰ-select_of (is_due now) rows m d)),
    )
