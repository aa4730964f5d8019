-- ===== src/Shared/Table/Defs.antt =====
-- The statements of SQL that the repositories issue: a test on rows is the WHERE clause, and the
-- order of the list is the order of the scan.
use Prim.Native.Nat.{ℕ, suc}
use mathlib.Core.Bool.{Bool, false, ◌||◌}
use mathlib.Core.Option.{Option, none, some}
use mathlib.Core.List.{List, [], ◌∷◌, ◌++◌, map}
use hr_saas_platform.Shared.Tests.{if◌then◌else◌}

module _ {Row : Type 0} where
  -- SELECT … WHERE p LIMIT 1
  unfoldable pub find_first : (Row → Bool) → List Row → Option Row
  find_first p [] = none
  find_first p (r ∷ rows) = if p r then some r else find_first p rows

  -- Whether some row satisfies p, which is what a unique index looks for.
  unfoldable pub exists_where : (Row → Bool) → List Row → Bool
  exists_where p [] = false
  exists_where p (r ∷ rows) = p r || exists_where p rows

  -- SELECT … WHERE p
  unfoldable pub select : (Row → Bool) → List Row → List Row
  select p [] = []
  select p (r ∷ rows) = let rest = select p rows in if p r then r ∷ rest else rest

  -- UPDATE … SET f WHERE p
  unfoldable pub update_where : (Row → Bool) → (Row → Row) → List Row → List Row
  update_where p f = map (λ r. if p r then f r else r)

  -- DELETE … WHERE p
  unfoldable pub delete_where : (Row → Bool) → List Row → List Row
  delete_where p [] = []
  delete_where p (r ∷ rows) = let rest = delete_where p rows in if p r then rest else r ∷ rest

  -- SELECT count(*) … WHERE p
  unfoldable pub count_where : (Row → Bool) → List Row → ℕ
  count_where p [] = 0
  count_where p (r ∷ rows) = let rest = count_where p rows in if p r then suc rest else rest

  -- INSERT … VALUES r, which a later scan meets last.
  unfoldable pub insert : Row → List Row → List Row
  insert r rows = rows ++ r ∷ []
