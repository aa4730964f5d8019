-- ===== src/Shared/Lists.antt =====
-- Lists of rows: the native length, a predicate of every row, and membership.
use Prim.Native.Nat.{ℕ, suc, ◌+◌}
use mathlib.Core.Path.{◌≡◌, refl, subst, sym}
use mathlib.Core.List.{List, [], ◌∷◌, ◌++◌, Memᴰ}
use native.Mathlib.Omega.{arith}

module _ {ℓ} {A : Type ℓ} where
  abbrev pub length : List A → ℕ
  length [] = 0
  length (x ∷ xs) = suc (length xs)

  pub length-append : (xs ys : List A) → length (xs ++ ys) ≡ length xs + length ys
  length-append [] ys = omega arith
  length-append (x ∷ xs) ys = omega (arith, length-append xs ys)

  abbrev pub All {κ} : (A → Type κ) → List A → Type κ
  All P [] = Unit
  All P (x ∷ xs) = P x × All P xs

module _ {ℓ κ} {A : Type ℓ} (P : A → Type κ) where
  pub All-append : (xs ys : List A) → All P xs → All P ys → All P (xs ++ ys)
  All-append [] ys hx hy = hy
  All-append (x ∷ xs) ys (h, hx) hy = (h, All-append xs ys hx hy)

  pub All-Memᴰ : (xs : List A) {a : A} → All P xs → Memᴰ a xs → P a
  All-Memᴰ [] h m = elim m [ ]
  All-Memᴰ (x ∷ xs) (h, hx) (Memᴰ.head e) = subst P (sym e) h
  All-Memᴰ (x ∷ xs) (h, hx) (Memᴰ.tail m) = All-Memᴰ xs hx m

module _ {ℓ κ} {A : Type ℓ} {P : A → Type κ} where
  -- What holds of every member holds of the list.
  pub All-tabulate : (xs : List A) → ((a : A) → Memᴰ a xs → P a) → All P xs
  All-tabulate [] f = tt
  All-tabulate (x ∷ xs) f = (f x (Memᴰ.head refl), All-tabulate xs (λ a m. f a (Memᴰ.tail m)))

module _ {ℓ κ λ'} {A : Type ℓ} {P : A → Type κ} {Q : A → Type λ'} where
  -- A weaker predicate holds of every row too.
  pub All-mono : ((a : A) → P a → Q a) → (xs : List A) → All P xs → All Q xs
  All-mono f [] h = tt
  All-mono f (x ∷ xs) (h, hx) = (f x h, All-mono f xs hx)
