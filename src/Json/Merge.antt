-- ===== src/Json/Merge.antt =====
-- What a merged object holds: at a key, and along a path of keys.
use mathlib.Core.Option.{some-injective}
use text.Mathlib.Text.{◌==◌ as str_eq}
use text.Mathlib.TextEquality.{eq_iff}
use hr_saas_platform.Shared.{
  String, Bool, true, false, ◌≡◌, refl, sym, ap, subst, ◌∙◌, Option, none, some, List, [], ◌∷◌,
  if◌then◌else◌, inl, inr, Bool-cases,
}
use hr_saas_platform.Json.{
  Json, null, undefined, boolean, number, string, array, object, Fields, end, field, get, set,
  merged, merge_onto, deep_merge,
}

-- No key is written twice, at this level.
abbrev pub DistinctKeys : Fields → Type 0
DistinctKeys end = Unit
DistinctKeys (field k v fs) = (get k fs ≡ none) × DistinctKeys fs

-- No object of the JSON writes a key twice.
unfoldable mutual
  pub Distinct : Json → Type 0
  Distinct null = Unit
  Distinct undefined = Unit
  Distinct (boolean b) = Unit
  Distinct (number s) = Unit
  Distinct (string s) = Unit
  Distinct (array vs) = Unit
  Distinct (object fs) = DistinctKeys fs × DistinctFields fs

  pub DistinctFields : Fields → Type 0
  DistinctFields end = Unit
  DistinctFields (field k v fs) = Distinct v × DistinctFields fs

pub str_eq_sym : (i k : String) → str_eq k i ≡ false → str_eq i k ≡ false
str_eq_sym i k differ = elim (Bool-cases (str_eq i k)) [
  | inl same ↦ absurd (cc (differ, (eq_iff k i).1 (sym ((eq_iff i k).0 same))))
  | inr other ↦ other
]

pub get-set :
    (j k : String) (v : Json) (fs : Fields)
    → get j (set k v fs) ≡ (if str_eq j k then some v else get j fs)
unfolding get set
get-set j k v end = refl
get-set j k v (field i w fs) = elim (Bool-cases (str_eq k i)) [
  | inl same ↦
      rw (same, (eq_iff k i).0 same)
        (elim (Bool-cases (str_eq j i)) [ inl hit ↦ rw hit refl | inr miss ↦ rw miss refl ])
  | inr other ↦
      rw (other, get-set j k v fs)
        (elim (Bool-cases (str_eq j i)) [
          | inl hit ↦ rw (hit, (eq_iff j i).0 hit, str_eq_sym i k other) refl
          | inr miss ↦ rw miss refl
        ])
]

-- What a key holds after the merge, for what the target, the result so far and the source have.
abbrev landed : Option Json → Option Json → Option Json → Option Json
landed target result none = result
landed target result (some new) = some (merged target new)

get-merge_onto :
    (k : String) (target result source : Fields)
    → DistinctKeys source
    → get k (merge_onto target result source) ≡ landed (get k target) (get k result) (get k source)
unfolding merge_onto get
get-merge_onto k target result end h = refl
get-merge_onto k target result (field j v fs) (new, h) =
    get-merge_onto k target (set j (merged (get j target) v) result) fs h
    ∙ rw (get-set k j (merged (get j target) v) result) (elim (Bool-cases (str_eq k j)) [
      | inl same ↦
          let e = (eq_iff k j).0 same in
          rw (same, ap (λ i. get i fs) e ∙ new, ap (λ i. get i target) e) refl
      | inr other ↦ rw other refl
    ])

-- A key of a merge holds the target's value where the source has none, and else the source's, merged
-- into the target's if both are objects. The source writes no key twice.
pub get-deep_merge :
    (k : String) (target source : Fields)
    → DistinctKeys source
    → get k (deep_merge target source) ≡ landed (get k target) (get k target) (get k source)
unfolding deep_merge
get-deep_merge k target source h = get-merge_onto k target target source h

-- The value at the end of a path of keys.
unfoldable pub at_path : List String → Option Json → Option Json
at_path [] j = j
at_path (k ∷ ks) (some (object fs)) = at_path ks (get k fs)
at_path (k ∷ ks) j = none

-- A value that is not an object, which a merge takes over as it is.
unfoldable pub is_leaf : Json → Bool
is_leaf (object fs) = false
is_leaf j = true

Distinct-get :
    (k : String) (fs : Fields) {v : Json} → DistinctFields fs → get k fs ≡ some v → Distinct v
unfolding get DistinctFields
Distinct-get k end d e = cc
Distinct-get k (field j w fs) {v} (d, ds) e = elim (Bool-cases (str_eq k j)) [
  | inl same ↦ subst Distinct (some-injective w v (rw same at e)) d
  | inr other ↦ Distinct-get k fs ds (rw other at e)
]

merged_leaf : (t : Option Json) (v : Json) → is_leaf v ≡ true → merged t v ≡ v
unfolding merged is_leaf
merged_leaf t null h = refl
merged_leaf t undefined h = refl
merged_leaf t (boolean b) h = refl
merged_leaf t (number s) h = refl
merged_leaf t (string s) h = refl
merged_leaf t (array vs) h = refl
merged_leaf t (object fs) h = cc

at_path-none : (ks : List String) → at_path ks none ≡ none
unfolding at_path
at_path-none [] = refl
at_path-none (k ∷ ks) = refl

at_path-landed :
    (ks : List String) (t r : Option Json) (v : Json) (found : Option Json)
    → ((w : Json)
        → found ≡ some w
        → at_path ks (some w) ≡ some v
        → at_path ks (some (merged t w)) ≡ some v)
    → at_path ks found ≡ some v
    → at_path ks (landed t r found) ≡ some v
at_path-landed ks t r v none below e = absurd (cc (at_path-none ks, e))
at_path-landed ks t r v (some w) below e = below w refl e

pub at_path-merged :
    (ks : List String) (t : Option Json) (source v : Json)
    → Distinct source
    → is_leaf v ≡ true
    → at_path ks (some source) ≡ some v
    → at_path ks (some (merged t source)) ≡ some v
unfolding at_path Distinct merged
at_path-merged [] t source v d leaf e =
    let same = some-injective source v e in
    ap some (merged_leaf t source (ap is_leaf same ∙ leaf) ∙ same)
at_path-merged (k ∷ ks) t null v d leaf e = cc
at_path-merged (k ∷ ks) t undefined v d leaf e = cc
at_path-merged (k ∷ ks) t (boolean b) v d leaf e = cc
at_path-merged (k ∷ ks) t (number s) v d leaf e = cc
at_path-merged (k ∷ ks) t (string s) v d leaf e = cc
at_path-merged (k ∷ ks) t (array vs) v d leaf e = cc
at_path-merged (k ∷ ks) none (object fs) v d leaf e = e
at_path-merged (k ∷ ks) (some null) (object fs) v d leaf e = e
at_path-merged (k ∷ ks) (some undefined) (object fs) v d leaf e = e
at_path-merged (k ∷ ks) (some (boolean b)) (object fs) v d leaf e = e
at_path-merged (k ∷ ks) (some (number s)) (object fs) v d leaf e = e
at_path-merged (k ∷ ks) (some (string s)) (object fs) v d leaf e = e
at_path-merged (k ∷ ks) (some (array vs)) (object fs) v d leaf e = e
at_path-merged (k ∷ ks) (some (object target)) (object fs) v (keys, ds) leaf e =
    rw (get-merge_onto k target target fs keys) (
      at_path-landed ks (get k target) (get k target) v (get k fs)
        (λ w is. at_path-merged ks (get k target) w v (Distinct-get k fs ds is) leaf) e)

-- A leaf of the source is at the same path of the merge, whatever the target holds. No object of the
-- source writes a key twice.
pub at_path-deep_merge :
    (ks : List String) (target source : Fields) (v : Json)
    → Distinct (object source)
    → is_leaf v ≡ true
    → at_path ks (some (object source)) ≡ some v
    → at_path ks (some (object (deep_merge target source))) ≡ some v
unfolding deep_merge merged
at_path-deep_merge ks target source v d leaf e =
    at_path-merged ks (some (object target)) (object source) v d leaf e
