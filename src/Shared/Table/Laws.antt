-- ===== src/Shared/Table/Laws.antt =====
-- What a query finds after an update, an insertion or a deletion.
use Prim.Native.Nat.{◌+◌, ◌≤◌, ◌<◌}
use mathlib.Core.Path.{◌≡◌, refl, sym, ap, ◌∙◌}
use mathlib.Core.Logic.{◌⊎◌, inl, inr}
use mathlib.Core.Bool.{Bool, true, false}
use mathlib.Core.Option
use mathlib.Core.Option.{Option, none, some}
use mathlib.Core.List.Memᴰ
use mathlib.Core.List.{List, [], ◌∷◌, Memᴰ}
use native.Mathlib.Omega.{arith}
use hr_saas_platform.Shared.Tests.{if◌then◌else◌, Bool-cases}
use hr_saas_platform.Shared.Lists.{length, All, All-append}
use hr_saas_platform.Shared.Table.Defs.{find_first, select, update_where, count_where, insert}

-- The first row found, or else the second.
abbrev pub or_else {ℓ} : {A : Type ℓ} → Option A → Option A → Option A
or_else none o = o
or_else (some a) o = some a

module _ {Row : Type 0} (p : Row → Bool) where
  pub find_first-Memᴰ :
      (rows : List Row) {r : Row} → find_first p rows ≡ some r → Memᴰ r rows × (p r ≡ true)
  unfolding find_first
  find_first-Memᴰ [] e = cc
  find_first-Memᴰ (x ∷ rows) {r} e = elim (Bool-cases (p x)) [
    | inl hit ↦ (Memᴰ.head (ground arith), ground arith)
    | inr miss ↦
        let (m, h) = find_first-Memᴰ rows {r = r} (rw (miss, find_first) at e) in (Memᴰ.tail m, h)
  ]

  pub find_first-none : (rows : List Row) → find_first p rows ≡ none → All (λ r. p r ≡ false) rows
  unfolding find_first
  find_first-none [] e = tt
  find_first-none (x ∷ rows) e = elim (Bool-cases (p x)) [
    | inl hit ↦ absurd (cc (rw (hit, find_first) at e))
    | inr miss ↦ (miss, find_first-none rows (rw (miss, find_first) at e))
  ]

  pub find_first-insert :
      (r : Row) (rows : List Row)
      → find_first p (insert r rows) ≡ or_else (find_first p rows) (if p r then some r else none)
  unfolding find_first insert
  find_first-insert r [] = refl
  find_first-insert r (x ∷ rows) = ground (arith, find_first-insert r rows)

  pub count_where-insert :
      (r : Row) (rows : List Row)
      → count_where p (insert r rows) ≡ count_where p rows + (if p r then 1 else 0)
  unfolding count_where insert
  count_where-insert r [] = ground arith
  count_where-insert r (x ∷ rows) = ground (arith, count_where-insert r rows)

  pub length-select : (rows : List Row) → length (select p rows) ≡ count_where p rows
  unfolding select count_where
  length-select [] = refl
  length-select (x ∷ rows) = ground (arith, length-select rows)

  pub count_where-le-length : (rows : List Row) → count_where p rows ≤ length rows
  unfolding count_where
  count_where-le-length [] = omega arith
  count_where-le-length (x ∷ rows) = ground (arith, count_where-le-length rows)

  pub count_where-pos :
      (rows : List Row) {r : Row} → Memᴰ r rows → p r ≡ true → 0 < count_where p rows
  unfolding count_where
  count_where-pos [] m h = elim m [ ]
  count_where-pos (x ∷ rows) (Memᴰ.head e) h = ground arith
  count_where-pos (x ∷ rows) (Memᴰ.tail m) h = ground (arith, count_where-pos rows m h)

  pub count_where-eq-zero : (rows : List Row) → All (λ r. p r ≡ false) rows → count_where p rows ≡ 0
  unfolding count_where
  count_where-eq-zero [] h = refl
  count_where-eq-zero (x ∷ rows) (h, hs) = ground (arith, count_where-eq-zero rows hs)

  pub Memᴰ-select :
      (rows : List Row) {r : Row} → Memᴰ r (select p rows) → Memᴰ r rows × (p r ≡ true)
  unfolding select
  Memᴰ-select [] m = elim m [ ]
  Memᴰ-select (x ∷ rows) {r} m = elim (Bool-cases (p x)) [
    | inl hit ↦ elim (Memᴰ.cases_cons (rw hit at m)) [
      | inl e ↦ (Memᴰ.head e, ground arith)
      | inr m' ↦ (Memᴰ.tail (Memᴰ-select rows m').0, (Memᴰ-select rows m').1)
    ]
    | inr miss ↦ let (m', h) = Memᴰ-select rows (rw miss at m) in (Memᴰ.tail m', h)
  ]

  -- A change that keeps the test of the query changes the row that is found and no other.
  pub find_first-update_where :
      (q : Row → Bool) (f : Row → Row) (rows : List Row)
      → ((r : Row) → p (f r) ≡ p r)
      → find_first p (update_where q f rows)
        ≡ Option.map (λ r. if q r then f r else r) (find_first p rows)
  unfolding find_first update_where
  find_first-update_where q f [] keep = refl
  find_first-update_where q f (x ∷ rows) keep =
      ground (arith, keep x, find_first-update_where q f rows keep)

  pub select-update_where :
      (q : Row → Bool) (f : Row → Row) (rows : List Row)
      → ((r : Row) → p (f r) ≡ p r)
      → select p (update_where q f rows) ≡ update_where q f (select p rows)
  unfolding select update_where
  select-update_where q f [] keep = refl
  select-update_where q f (x ∷ rows) keep =
      ground (arith, keep x, select-update_where q f rows keep)

  pub select-insert :
      (r : Row) (rows : List Row)
      → select p (insert r rows) ≡ (if p r then insert r (select p rows) else select p rows)
  unfolding select insert
  select-insert r [] = ground arith
  select-insert r (x ∷ rows) = ground (arith, select-insert r rows)

  pub Memᴰ-select_of :
      (rows : List Row) {r : Row} → Memᴰ r rows → p r ≡ true → Memᴰ r (select p rows)
  unfolding select
  Memᴰ-select_of [] m h = elim m [ ]
  Memᴰ-select_of (x ∷ rows) (Memᴰ.head e) h = rw (ap p (sym e) ∙ h) (Memᴰ.head e)
  Memᴰ-select_of (x ∷ rows) (Memᴰ.tail m) h = elim (Bool-cases (p x)) [
    | inl hit ↦ rw hit (Memᴰ.tail (Memᴰ-select_of rows m h))
    | inr miss ↦ rw miss (Memᴰ-select_of rows m h)
  ]

  pub find_first_of_Memᴰ :
      (rows : List Row) {r : Row}
      → Memᴰ r rows
      → p r ≡ true
      → (s : Row) × (find_first p rows ≡ some s)
  unfolding find_first
  find_first_of_Memᴰ [] m h = elim m [ ]
  find_first_of_Memᴰ (x ∷ rows) (Memᴰ.head e) h = (x, rw (ap p (sym e) ∙ h) refl)
  find_first_of_Memᴰ (x ∷ rows) (Memᴰ.tail m) h = elim (Bool-cases (p x)) [
    | inl hit ↦ (x, rw hit refl)
    | inr miss ↦ let (s, e) = find_first_of_Memᴰ rows m h in (s, rw miss e)
  ]

  pub count_where-update_where :
      (q : Row → Bool) (f : Row → Row) (rows : List Row)
      → ((r : Row) → p (f r) ≡ p r)
      → count_where p (update_where q f rows) ≡ count_where p rows
  unfolding count_where update_where
  count_where-update_where q f [] keep = refl
  count_where-update_where q f (x ∷ rows) keep =
      ground (arith, keep x, count_where-update_where q f rows keep)

module _ {Row : Type 0} (q : Row → Bool) (f : Row → Row) where
  -- A row after an update is a row from before it, changed if the test holds of it.
  pub Memᴰ-update_where :
      (rows : List Row) {r : Row}
      → Memᴰ r (update_where q f rows)
      → (old : Row) × Memᴰ old rows × (r ≡ (if q old then f old else old))
  unfolding update_where
  Memᴰ-update_where [] m = elim m [ ]
  Memᴰ-update_where (x ∷ rows) (Memᴰ.head e) = (x, Memᴰ.head refl, e)
  Memᴰ-update_where (x ∷ rows) (Memᴰ.tail m) =
      let (old, n, e) = Memᴰ-update_where rows m in (old, Memᴰ.tail n, e)

pub Memᴰ-insert :
    {Row : Type 0} (r : Row) (rows : List Row) {s : Row}
    → Memᴰ s (insert r rows)
    → Memᴰ s rows ⊎ (s ≡ r)
unfolding insert
Memᴰ-insert r rows m = elim (Memᴰ.append_cases rows m) [
  | inl old ↦ inl old
  | inr new ↦ inr (Memᴰ.eq_of_singleton new)
]

module _ {ℓ} {Row : Type 0} {P Q : Row → Type ℓ} where
  -- Each row, changed or left alone, satisfies the new predicate.
  pub All-update_where :
      (q : Row → Bool) (f : Row → Row)
      → ((r : Row) → P r → q r ≡ true → Q (f r))
      → ((r : Row) → P r → q r ≡ false → Q r)
      → (rows : List Row) → All P rows
      → All Q (update_where q f rows)
  unfolding update_where
  All-update_where q f hit miss [] h = tt
  All-update_where q f hit miss (x ∷ rows) (h, hs) = elim (Bool-cases (q x)) [
    | inl e ↦ (rw e (hit x h e), All-update_where q f hit miss rows hs)
    | inr e ↦ (rw e (miss x h e), All-update_where q f hit miss rows hs)
  ]

pub All-insert {ℓ} :
    {Row : Type 0} (P : Row → Type ℓ) (r : Row) (rows : List Row)
    → All P rows
    → P r
    → All P (insert r rows)
unfolding insert
All-insert P r rows h hr = All-append P rows (r ∷ []) h (hr, tt)
