-- ===== src/Json/Serialized.antt =====
-- What is left of a merged object in the database: fields that are undefined are gone.
use text.Mathlib.Text.{◌==◌ as str_eq}
use text.Mathlib.TextEquality.{eq_iff}
use mathlib.Core.Option.{some-injective}
use hr_saas_platform.Shared.{String, false, ◌≡◌, refl, ap, ◌∙◌, none, some, inl, inr, Bool-cases}
use hr_saas_platform.Json.{
  Json, undefined, Fields, end, field, get, set, merged, merge_onto, deep_merge, is_undefined,
  serialized,
}
use hr_saas_platform.Json.Merge.{DistinctKeys, get-set, str_eq_sym, get-deep_merge}

-- A field that is defined stays.
pub get-serialized :
    (k : String) (fs : Fields) (v : Json)
    → get k fs ≡ some v
    → is_undefined v ≡ false
    → get k (serialized fs) ≡ some v
unfolding get serialized
get-serialized k end v e defined = cc
get-serialized k (field j w fs) v e defined = elim (Bool-cases (str_eq k j)) [
  | inl same ↦
      let is = some-injective w v (rw same at e) in
      rw (ap is_undefined is ∙ defined, same) (ap some is)
  | inr other ↦ elim (Bool-cases (is_undefined w)) [
    | inl gone ↦ rw gone (get-serialized k fs v (rw other at e) defined)
    | inr kept ↦ rw (kept, other) (get-serialized k fs v (rw other at e) defined)
  ]
]

get-serialized-none : (k : String) (fs : Fields) → get k fs ≡ none → get k (serialized fs) ≡ none
unfolding get serialized
get-serialized-none k end e = refl
get-serialized-none k (field j w fs) e = elim (Bool-cases (str_eq k j)) [
  | inl same ↦ absurd (cc (rw same at e))
  | inr other ↦ elim (Bool-cases (is_undefined w)) [
    | inl gone ↦ rw gone (get-serialized-none k fs (rw other at e))
    | inr kept ↦ rw (kept, other) (get-serialized-none k fs (rw other at e))
  ]
]

-- A field that is undefined is gone.
get-serialized-undefined :
    (k : String) (fs : Fields)
    → DistinctKeys fs
    → get k fs ≡ some undefined
    → get k (serialized fs) ≡ none
unfolding get serialized
get-serialized-undefined k end h e = cc
get-serialized-undefined k (field j w fs) (new, h) e = elim (Bool-cases (str_eq k j)) [
  | inl same ↦
      rw (ap is_undefined (some-injective w undefined (rw same at e)))
        (get-serialized-none k fs (ap (λ i. get i fs) ((eq_iff k j).0 same) ∙ new))
  | inr other ↦ elim (Bool-cases (is_undefined w)) [
    | inl gone ↦ rw gone (get-serialized-undefined k fs h (rw other at e))
    | inr kept ↦ rw (kept, other) (get-serialized-undefined k fs h (rw other at e))
  ]
]

set-DistinctKeys :
    (k : String) (v : Json) (fs : Fields) → DistinctKeys fs → DistinctKeys (set k v fs)
unfolding set get
set-DistinctKeys k v end h = (refl, tt)
set-DistinctKeys k v (field j w fs) (new, h) = elim (Bool-cases (str_eq k j)) [
  | inl same ↦ rw same (new, h)
  | inr other ↦
      rw other (get-set j k v fs ∙ rw (str_eq_sym j k other) new, set-DistinctKeys k v fs h)
]

merge_onto-DistinctKeys :
    (target result source : Fields)
    → DistinctKeys result
    → DistinctKeys (merge_onto target result source)
unfolding merge_onto
merge_onto-DistinctKeys target result end h = h
merge_onto-DistinctKeys target result (field k v fs) h =
    merge_onto-DistinctKeys target (set k (merged (get k target) v) result) fs
      (set-DistinctKeys k (merged (get k target) v) result h)

-- A field that the source of a merge has as undefined is gone, whatever the target has.
pub get-serialized-deep_merge :
    (k : String) (target source : Fields)
    → DistinctKeys target
    → DistinctKeys source
    → get k source ≡ some undefined
    → get k (serialized (deep_merge target source)) ≡ none
unfolding deep_merge merged
get-serialized-deep_merge k target source h d e =
    get-serialized-undefined k (merge_onto target target source)
      (merge_onto-DistinctKeys target target source h)
      (get-deep_merge k target source d ∙ rw e refl)
