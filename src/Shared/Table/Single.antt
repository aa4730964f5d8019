-- ===== src/Shared/Table/Single.antt =====
-- Updates of the rows of one key, and what they do to a count.
use Prim.Native.Nat.{◌+◌, ◌≤◌}
use mathlib.Core.Path.{◌≡◌, refl, sym, ap, ◌∙◌}
use mathlib.Core.Bool.{Bool, true, false}
use mathlib.Core.List.{List, [], ◌∷◌, Memᴰ}
use native.Mathlib.Omega.{arith}
use hr_saas_platform.Shared.Table.Defs.{update_where, count_where}
use hr_saas_platform.Shared.Table.Laws.{count_where-pos}

module _ {Row : Type 0} (q : Row → Bool) where
  -- Where a test holds of one row at most, two rows of which it holds are one.
  pub Memᴰ-unique :
      (rows : List Row) {r s : Row}
      → count_where q rows ≤ 1
      → Memᴰ r rows
      → q r ≡ true
      → Memᴰ s rows
      → q s ≡ true
      → r ≡ s
  unfolding count_where
  Memᴰ-unique [] one m h n k = elim m [ ]
  Memᴰ-unique (x ∷ rows) one (Memᴰ.head e) h (Memᴰ.head e') k = e ∙ sym e'
  Memᴰ-unique (x ∷ rows) one (Memᴰ.head e) h (Memᴰ.tail n) k =
      absurd (ground (arith, ap q e, count_where-pos q rows n k))
  Memᴰ-unique (x ∷ rows) one (Memᴰ.tail m) h (Memᴰ.head e) k =
      absurd (ground (arith, ap q e, count_where-pos q rows m h))
  Memᴰ-unique (x ∷ rows) one (Memᴰ.tail m) h (Memᴰ.tail n) k =
      Memᴰ-unique rows (ground arith) m h n k

-- A narrower test counts no more rows.
pub count_where-le :
    {Row : Type 0} (p q : Row → Bool) (rows : List Row)
    → ((r : Row) → p r ≡ true → q r ≡ true)
    → count_where p rows ≤ count_where q rows
unfolding count_where
count_where-le p q [] narrow = omega arith
count_where-le p q (x ∷ rows) narrow = ground (arith, narrow x, count_where-le p q rows narrow)

module _ {Row : Type 0} (p q : Row → Bool) (f : Row → Row) where
  -- Rows that start to satisfy a test are counted from then on.
  pub count_where-switched_on :
      (rows : List Row)
      → ((r : Row) → Memᴰ r rows → q r ≡ true → (p r ≡ false) × (p (f r) ≡ true))
      → count_where p (update_where q f rows) ≡ count_where p rows + count_where q rows
  unfolding count_where update_where
  count_where-switched_on [] on = refl
  count_where-switched_on (x ∷ rows) on =
      ground
        (arith, on x (Memᴰ.head refl), count_where-switched_on rows (λ r m. on r (Memᴰ.tail m)))

  -- An update of rows that a test does not see, before or after, leaves its count alone.
  pub count_where-others :
      (rows : List Row)
      → ((r : Row) → q r ≡ true → p r ≡ p (f r))
      → count_where p (update_where q f rows) ≡ count_where p rows
  unfolding count_where update_where
  count_where-others [] same = refl
  count_where-others (x ∷ rows) same = ground (arith, same x, count_where-others rows same)

  -- Where every row that satisfied the test is changed not to, none is left.
  pub count_where-switched_off :
      (rows : List Row)
      → ((r : Row) → q r ≡ true → p (f r) ≡ false)
      → ((r : Row) → q r ≡ false → p r ≡ false)
      → count_where p (update_where q f rows) ≡ 0
  unfolding count_where update_where
  count_where-switched_off [] off rest = refl
  count_where-switched_off (x ∷ rows) off rest =
      ground (arith, off x, rest x, count_where-switched_off rows off rest)
