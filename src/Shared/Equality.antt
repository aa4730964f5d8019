-- ===== src/Shared/Equality.antt =====
-- `===` on the keys and strings of the program, and the list operations of JavaScript that use it.
use Prim.Native.Nat.{ℕ}
use Prim.Native.String.{String}
use mathlib.Core.Path.{◌≡◌, refl, sym, subst}
use mathlib.Core.Logic.{◌↔◌, inl, inr}
use mathlib.Core.Bool.{Bool, true, false, ◌&&◌, ◌||◌}
use mathlib.Core.List
use mathlib.Core.List.Memᴰ
use mathlib.Core.List.{List, [], ◌∷◌, ◌++◌, Memᴰ}
use native.Mathlib.Omega.{arith}
use text.Mathlib.Text.{◌==◌ as str_eq}
use text.Mathlib.TextEquality.{eq_iff}
use hr_saas_platform.Shared.Tests.{◌==◌, ==_iff, if◌then◌else◌, Bool-cases}
use hr_saas_platform.Shared.Lists.{All}

pub record Eq (A : Type 0) : Type 0 where
  pub same : A → A → Bool
  pub same_iff : (a b : A) → (same a b ≡ true) ↔ (a ≡ b)

instance unfoldable pub nat_eq : Eq ℕ
nat_eq = record { same = ◌==◌; same_iff = ==_iff }

instance unfoldable pub string_eq : Eq String
string_eq = record { same = str_eq; same_iff = eq_iff }

module _ {A : Type 0} ⦃e : Eq A⦄ where
  -- `xs.includes(a)`
  unfoldable pub includes : List A → A → Bool
  includes [] a = false
  includes (x ∷ xs) a = e.same x a || includes xs a

  -- The elements of a list that another list does not include.
  unfoldable pub missing_from : List A → List A → List A
  missing_from have [] = []
  missing_from have (x ∷ xs) =
      let rest = missing_from have xs in if includes have x then rest else x ∷ rest

  -- `xs.every(x => have.includes(x))` and `xs.some(…)`
  unfoldable pub every_in : List A → List A → Bool
  every_in have [] = true
  every_in have (x ∷ xs) = includes have x && every_in have xs

  unfoldable pub some_in : List A → List A → Bool
  some_in have [] = false
  some_in have (x ∷ xs) = includes have x || some_in have xs

  -- SELECT DISTINCT
  unfoldable pub distinct : List A → List A
  distinct [] = []
  distinct (x ∷ xs) = let rest = distinct xs in if includes rest x then rest else x ∷ rest

  pub includes-Memᴰ : (xs : List A) (a : A) → includes xs a ≡ true → Memᴰ a xs
  unfolding includes
  includes-Memᴰ [] a h = cc
  includes-Memᴰ (x ∷ xs) a h = elim (Bool-cases (e.same x a)) [
    | inl hit ↦ Memᴰ.head (sym ((e.same_iff x a).0 hit))
    | inr miss ↦ Memᴰ.tail (includes-Memᴰ xs a (rw miss at h))
  ]

  pub Memᴰ-includes : (xs : List A) (a : A) → Memᴰ a xs → includes xs a ≡ true
  unfolding includes
  Memᴰ-includes [] a m = elim m [ ]
  Memᴰ-includes (x ∷ xs) a (Memᴰ.head p) = rw ((e.same_iff x a).1 (sym p)) refl
  Memᴰ-includes (x ∷ xs) a (Memᴰ.tail m) = ground (arith, Memᴰ-includes xs a m)

  pub every_in_iff : (have xs : List A) → (every_in have xs ≡ true) ↔ All (λ x. Memᴰ x have) xs
  unfolding every_in
  every_in_iff have [] = (λ _. tt, λ _. refl)
  every_in_iff have (x ∷ xs) = elim (Bool-cases (includes have x)) [
    | inl hit ↦ (
      λ h. (includes-Memᴰ have x hit, (every_in_iff have xs).0 (rw hit at h)),
      λ (_, hs). rw hit ((every_in_iff have xs).1 hs),
    )
    | inr miss ↦ (λ h. absurd (cc (rw miss at h)), λ (m, _). absurd (cc (Memᴰ-includes have x m)))
  ]

  pub some_in_Memᴰ : (have xs : List A) → some_in have xs ≡ true → (x : A) × Memᴰ x xs × Memᴰ x have
  unfolding some_in
  some_in_Memᴰ have [] h = cc
  some_in_Memᴰ have (x ∷ xs) h = elim (Bool-cases (includes have x)) [
    | inl hit ↦ (x, Memᴰ.head refl, includes-Memᴰ have x hit)
    | inr miss ↦ let (y, m, n) = some_in_Memᴰ have xs (rw miss at h) in (y, Memᴰ.tail m, n)
  ]

  pub some_in_of_Memᴰ :
      (have xs : List A) {x : A} → Memᴰ x xs → Memᴰ x have → some_in have xs ≡ true
  unfolding some_in
  some_in_of_Memᴰ have [] m n = elim m [ ]
  some_in_of_Memᴰ have (y ∷ xs) {x} (Memᴰ.head p) n =
      rw (Memᴰ-includes have y (Memᴰ.cast (sym p) n)) refl
  some_in_of_Memᴰ have (y ∷ xs) (Memᴰ.tail m) n = ground (arith, some_in_of_Memᴰ have xs m n)

  pub missing_from-nil : (have xs : List A) → missing_from have xs ≡ [] → All (λ x. Memᴰ x have) xs
  unfolding missing_from
  missing_from-nil have [] h = tt
  missing_from-nil have (x ∷ xs) h = elim (Bool-cases (includes have x)) [
    | inl hit ↦ (includes-Memᴰ have x hit, missing_from-nil have xs (rw hit at h))
    | inr miss ↦ absurd (cc (rw miss at h))
  ]

  pub missing_from-All : (have xs : List A) → All (λ x. Memᴰ x have) xs → missing_from have xs ≡ []
  unfolding missing_from
  missing_from-All have [] h = refl
  missing_from-All have (x ∷ xs) (m, hs) =
      ground (arith, Memᴰ-includes have x m, missing_from-All have xs hs)

  pub Memᴰ-distinct : (xs : List A) {a : A} → Memᴰ a (distinct xs) → Memᴰ a xs
  unfolding distinct
  Memᴰ-distinct [] m = m
  Memᴰ-distinct (x ∷ xs) m = elim (Bool-cases (includes (distinct xs) x)) [
    | inl hit ↦ Memᴰ.tail (Memᴰ-distinct xs (rw hit at m))
    | inr miss ↦ elim (Memᴰ.cases_cons (rw miss at m)) [
      | inl p ↦ Memᴰ.head p
      | inr n ↦ Memᴰ.tail (Memᴰ-distinct xs n)
    ]
  ]

  pub Memᴰ-distinct_of : (xs : List A) {a : A} → Memᴰ a xs → Memᴰ a (distinct xs)
  unfolding distinct
  Memᴰ-distinct_of [] m = m
  Memᴰ-distinct_of (x ∷ xs) m = elim (Bool-cases (includes (distinct xs) x)) [
    | inl hit ↦ rw hit (elim (Memᴰ.cases_cons m) [
      | inl p ↦ Memᴰ.cast p (includes-Memᴰ (distinct xs) x hit)
      | inr n ↦ Memᴰ-distinct_of xs n
    ])
    | inr miss ↦ rw miss (elim (Memᴰ.cases_cons m) [
      | inl p ↦ Memᴰ.head p
      | inr n ↦ Memᴰ.tail (Memᴰ-distinct_of xs n)
    ])
  ]

module _ {A B : Type 0} (f : A → List B) where
  pub Memᴰ-flat_map :
      (xs : List A) {b : B} → Memᴰ b (List.flat_map f xs) → (a : A) × Memᴰ a xs × Memᴰ b (f a)
  unfolding List.flat_map
  Memᴰ-flat_map [] m = elim m [ ]
  Memᴰ-flat_map (x ∷ xs) m = elim (Memᴰ.append_cases (f x) m) [
    | inl here ↦ (x, Memᴰ.head refl, here)
    | inr there ↦ let (a, n, k) = Memᴰ-flat_map xs there in (a, Memᴰ.tail n, k)
  ]

  pub Memᴰ-flat_map_of :
      (xs : List A) {a : A} {b : B} → Memᴰ a xs → Memᴰ b (f a) → Memᴰ b (List.flat_map f xs)
  unfolding List.flat_map
  Memᴰ-flat_map_of [] m n = elim m [ ]
  Memᴰ-flat_map_of (x ∷ xs) {b} (Memᴰ.head p) n = Memᴰ.append_left _ (subst (λ a. Memᴰ b (f a)) p n)
  Memᴰ-flat_map_of (x ∷ xs) (Memᴰ.tail m) n = Memᴰ.append_right (f x) (Memᴰ-flat_map_of xs m n)
