-- ===== src/Shared/Uuid.antt =====
-- A UUID in the text of a request. PostgreSQL reads a UUID in any case and renders it in lower case;
-- `===` compares texts. Where the program does so, a UUID is taken as its text.
use Prim.Native.Nat.{ℕ}
use mathlib.Core.Path.{◌≡◌, sym, ap}
use mathlib.Core.Bool.{Bool, false, ◌&&◌}
use mathlib.Core.Option.{Option, none, some}
use hr_saas_platform.Shared.Tests.{◌==◌}

-- What the text denotes, and the number of its spelling: 0 is the one that PostgreSQL renders.
pub record UuidText : Type 0 where
  pub uuid : ℕ
  pub spelling : ℕ

-- The text of a UUID that comes from a row.
abbrev pub rendered : ℕ → UuidText
rendered id = record { uuid = id; spelling = 0 }

pub rendered_text : (a : UuidText) → a.spelling ≡ 0 → rendered a.uuid ≡ a
rendered_text a e = ap (λ n. record { uuid = a.uuid; spelling = n }) (sym e)

-- `a === b`
abbrev pub same_text : UuidText → UuidText → Bool
same_text a b = a.uuid == b.uuid && a.spelling == b.spelling

-- `a === b`, where `a` is a nullable column.
abbrev pub column_is : Option ℕ → UuidText → Bool
column_is none b = false
column_is (some id) b = same_text (rendered id) b
