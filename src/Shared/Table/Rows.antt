-- ===== src/Shared/Table/Rows.antt =====
-- Which rows a query returns, and which are left after a deletion.
use mathlib.Core.Path.{◌≡◌, refl, sym, ap, ◌∙◌}
use mathlib.Core.Logic.{inl, inr}
use mathlib.Core.Bool.{Bool, true, false}
use mathlib.Core.List.Memᴰ
use mathlib.Core.List.{List, [], ◌∷◌, Memᴰ}
use native.Mathlib.Omega.{arith}
use hr_saas_platform.Shared.Tests.{Bool-cases, if◌then◌else◌}
use hr_saas_platform.Shared.Table.Defs.{exists_where, delete_where, update_where, insert}

module _ {Row : Type 0} (p : Row → Bool) where
  pub exists_where-Memᴰ :
      (rows : List Row) → exists_where p rows ≡ true → (r : Row) × Memᴰ r rows × (p r ≡ true)
  unfolding exists_where
  exists_where-Memᴰ [] h = cc
  exists_where-Memᴰ (x ∷ rows) h = elim (Bool-cases (p x)) [
    | inl hit ↦ (x, Memᴰ.head refl, hit)
    | inr miss ↦ let (r, m, k) = exists_where-Memᴰ rows (rw miss at h) in (r, Memᴰ.tail m, k)
  ]

  pub exists_where_of_Memᴰ :
      (rows : List Row) {r : Row} → Memᴰ r rows → p r ≡ true → exists_where p rows ≡ true
  unfolding exists_where
  exists_where_of_Memᴰ [] m h = elim m [ ]
  exists_where_of_Memᴰ (x ∷ rows) (Memᴰ.head e) h = rw (ap p (sym e) ∙ h) refl
  exists_where_of_Memᴰ (x ∷ rows) (Memᴰ.tail m) h = ground (arith, exists_where_of_Memᴰ rows m h)

  pub exists_where-false :
      (rows : List Row) {r : Row} → exists_where p rows ≡ false → Memᴰ r rows → p r ≡ false
  exists_where-false rows {r} none m = elim (Bool-cases (p r)) [
    | inl hit ↦ absurd (cc (exists_where_of_Memᴰ rows m hit))
    | inr miss ↦ miss
  ]

  pub Memᴰ-delete_where :
      (rows : List Row) {r : Row} → Memᴰ r (delete_where p rows) → Memᴰ r rows × (p r ≡ false)
  unfolding delete_where
  Memᴰ-delete_where [] m = elim m [ ]
  Memᴰ-delete_where (x ∷ rows) {r} m = elim (Bool-cases (p x)) [
    | inl hit ↦ let (m', h) = Memᴰ-delete_where rows (rw hit at m) in (Memᴰ.tail m', h)
    | inr miss ↦ elim (Memᴰ.cases_cons (rw miss at m)) [
      | inl e ↦ (Memᴰ.head e, ap p e ∙ miss)
      | inr m' ↦ (Memᴰ.tail (Memᴰ-delete_where rows m').0, (Memᴰ-delete_where rows m').1)
    ]
  ]

  pub Memᴰ-delete_where_of :
      (rows : List Row) {r : Row} → Memᴰ r rows → p r ≡ false → Memᴰ r (delete_where p rows)
  unfolding delete_where
  Memᴰ-delete_where_of [] m h = elim m [ ]
  Memᴰ-delete_where_of (x ∷ rows) (Memᴰ.head e) h = rw (ap p (sym e) ∙ h) (Memᴰ.head e)
  Memᴰ-delete_where_of (x ∷ rows) (Memᴰ.tail m) h = elim (Bool-cases (p x)) [
    | inl hit ↦ rw hit (Memᴰ-delete_where_of rows m h)
    | inr miss ↦ rw miss (Memᴰ.tail (Memᴰ-delete_where_of rows m h))
  ]

  -- Deleting rows that a test does not see leaves its answer alone.
  pub exists_where-delete_where :
      (q : Row → Bool) (rows : List Row)
      → ((r : Row) → q r ≡ true → p r ≡ false)
      → exists_where p (delete_where q rows) ≡ exists_where p rows
  unfolding exists_where delete_where
  exists_where-delete_where q [] unseen = refl
  exists_where-delete_where q (x ∷ rows) unseen =
      ground (arith, unseen x, exists_where-delete_where q rows unseen)

pub Memᴰ-insert_old :
    {Row : Type 0} (r : Row) (rows : List Row) {s : Row} → Memᴰ s rows → Memᴰ s (insert r rows)
unfolding insert
Memᴰ-insert_old r rows m = Memᴰ.append_left _ m

pub Memᴰ-insert_new : {Row : Type 0} (r : Row) (rows : List Row) → Memᴰ r (insert r rows)
unfolding insert
Memᴰ-insert_new r rows = Memᴰ.append_right rows (Memᴰ.head refl)

module _ {Row : Type 0} (q : Row → Bool) (f : Row → Row) where
  pub Memᴰ-update_where_of :
      (rows : List Row) {r : Row}
      → Memᴰ r rows
      → Memᴰ (if q r then f r else r) (update_where q f rows)
  unfolding update_where
  Memᴰ-update_where_of rows m = Memᴰ.map (λ r. if q r then f r else r) m
