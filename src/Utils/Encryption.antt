-- ===== src/Utils/Encryption.antt =====
-- EncryptionService (src/common/utils/encryption.util.ts). AES-256-GCM and base64 are node's, and
-- parameters here: `cipher` gives the ciphertext and its tag of a text under a key and an IV, and
-- `decipher` the text, or nothing where node throws. A byte is a natural number; a string is null, or
-- a text.
use text.Mathlib.Text.{◌==◌ as str_eq}
use text.Mathlib.TextEquality.{eq_iff}
use mathlib.Core.List.{append_assoc}
use hr_saas_platform.Shared.{
  ℕ, zero, suc, ◌+◌, length, length-append, String, ◌==◌, if◌then◌else◌, false, ◌≡◌, refl, sym, ap,
  ◌∙◌, arith, Option, none, some, List, [], ◌∷◌, ◌++◌, inl, inr, Bool-cases,
}

abbrev pub iv_length : ℕ
iv_length = 12

abbrev pub auth_tag_length : ℕ
auth_tag_length = 16

abbrev pub current_key_version : ℕ
current_key_version = 1

-- What a call returns, or the error it throws.
pub data Returned : Type 0 where
  returned : Option String → Returned
  key_version_not_found : Option ℕ → Returned
  not_authentic : Returned

-- `buffer.subarray(from, to)` and `buffer.subarray(from)`.
unfoldable pub take : ℕ → List ℕ → List ℕ
take zero bytes = []
take (suc n) [] = []
take (suc n) (b ∷ bytes) = b ∷ take n bytes

unfoldable pub drop : ℕ → List ℕ → List ℕ
drop zero bytes = bytes
drop (suc n) [] = []
drop (suc n) (b ∷ bytes) = drop n bytes

abbrev pub first_byte : List ℕ → Option ℕ
first_byte [] = none
first_byte (b ∷ bytes) = some b

module _ {Key : Type 0} where
  -- `this.keys.get(version)`
  unfoldable pub get_key : ℕ → List (ℕ × Key) → Option Key
  get_key version [] = none
  get_key version ((v, key) ∷ keys) =
      let rest = get_key version keys in if v == version then some key else rest

  abbrev pub key_of : Option ℕ → List (ℕ × Key) → Option Key
  key_of none keys = none
  key_of (some version) keys = get_key version keys

  module _ (cipher : Key → List ℕ → String → List ℕ × List ℕ) (to_base64 : List ℕ → String) where
    -- [version][iv][authTag][ciphertext]
    abbrev pub pack : List ℕ → List ℕ × List ℕ → List ℕ
    pack iv (encrypted, auth_tag) = (current_key_version ∷ []) ++ iv ++ auth_tag ++ encrypted

    abbrev encrypt_with : Option Key → List ℕ → String → Returned
    encrypt_with none iv text = key_version_not_found (some current_key_version)
    encrypt_with (some key) iv text = returned (some (to_base64 (pack iv (cipher key iv text))))

    -- `encrypt`, with the random IV.
    unfoldable pub encrypt : List (ℕ × Key) → List ℕ → Option String → Returned
    unfolding get_key
    encrypt keys iv none = returned none
    encrypt keys iv (some text) =
        if str_eq text ""
        then returned (some "")
        else encrypt_with (get_key current_key_version keys) iv text

  module _ (decipher : Key → List ℕ → List ℕ → List ℕ → Option String)
      (from_base64 : String → List ℕ) where
    abbrev outcome : Option String → Returned
    outcome none = not_authentic
    outcome (some text) = returned (some text)

    abbrev decrypt_with : Option ℕ → Option Key → List ℕ → Returned
    decrypt_with version none packed = key_version_not_found version
    decrypt_with version (some key) packed = outcome (
        decipher key (take iv_length (drop 1 packed))
          (take auth_tag_length (drop (1 + iv_length) packed))
          (drop (1 + iv_length + auth_tag_length) packed))

    unfoldable pub decrypt : List (ℕ × Key) → Option String → Returned
    unfolding get_key take drop
    decrypt keys none = returned none
    decrypt keys (some encrypted) =
        if str_eq encrypted ""
        then returned (some "")
        else (let packed = from_base64 encrypted in
            decrypt_with (first_byte packed) (key_of (first_byte packed) keys) packed)

drop-append : (n : ℕ) (xs ys : List ℕ) → length xs ≡ n → drop n (xs ++ ys) ≡ ys
unfolding drop
drop-append zero [] ys h = refl
drop-append zero (x ∷ xs) ys h = cc
drop-append (suc n) [] ys h = cc
drop-append (suc n) (x ∷ xs) ys h = drop-append n xs ys (omega arith)

take-append : (n : ℕ) (xs ys : List ℕ) → length xs ≡ n → take n (xs ++ ys) ≡ xs
unfolding take
take-append zero [] ys h = refl
take-append zero (x ∷ xs) ys h = cc
take-append (suc n) [] ys h = cc
take-append (suc n) (x ∷ xs) ys h = ap (λ l. x ∷ l) (take-append n xs ys (omega arith))

-- What follows the IV and the tag is the ciphertext.
drop-header :
    (iv tag encrypted : List ℕ)
    → length iv ≡ 12
    → length tag ≡ 16
    → drop 28 (iv ++ tag ++ encrypted) ≡ encrypted
drop-header iv tag encrypted iv_ok tag_ok =
    drop-append 28 (iv ++ tag) encrypted (omega (arith, length-append iv tag))

-- Base64 keeps a buffer.
module _ {Key : Type 0} (cipher : Key → List ℕ → String → List ℕ × List ℕ)
    (decipher : Key → List ℕ → List ℕ → List ℕ → Option String) (to_base64 : List ℕ → String)
    (from_base64 : String → List ℕ)
    (base64_inverse : (bytes : List ℕ) → from_base64 (to_base64 bytes) ≡ bytes)
    (base64_empty : from_base64 "" ≡ []) where
  packed_text : (b : ℕ) (bytes : List ℕ) → str_eq (to_base64 (b ∷ bytes)) "" ≡ false
  packed_text b bytes = elim (Bool-cases (str_eq (to_base64 (b ∷ bytes)) "")) [
    | inl blank ↦ absurd (
        cc
          (sym (base64_inverse (b ∷ bytes)) ∙ ap from_base64 ((eq_iff _ _).0 blank) ∙ base64_empty))
    | inr full ↦ full
  ]

  -- Where base64 keeps buffers, the IV has twelve bytes, and node gives a tag of sixteen and decrypts
  -- under the same key, IV and tag what it has encrypted, `encrypt` returns a text that `decrypt` turns
  -- into the one it was given, also once other key versions are added or taken away.
  pub decrypt-encrypt :
      (keys later : List (ℕ × Key)) (key : Key) (iv : List ℕ) (text : String)
      → get_key 1 keys ≡ some key
      → get_key 1 later ≡ some key
      → length iv ≡ 12
      → length (cipher key iv text).1 ≡ 16
      → decipher key iv (cipher key iv text).1 (cipher key iv text).0 ≡ some text
      → (stored : String) × (encrypt cipher to_base64 keys iv (some text) ≡ returned (some stored))
        × (decrypt decipher from_base64 later (some stored) ≡ returned (some text))
  unfolding encrypt decrypt
  decrypt-encrypt keys later key iv text has_key same_key iv_ok tag_ok authentic =
      let encrypted = (cipher key iv text).0 in
      let tag = (cipher key iv text).1 in
      elim (Bool-cases (str_eq text "")) [
        | inl blank ↦ rw blank ("", refl, ap (λ t. returned (some t)) (sym ((eq_iff _ _).0 blank)))
        | inr full ↦
            rw (full, has_key)
              (
                to_base64 (1 ∷ iv ++ tag ++ encrypted),
                refl,
                rw
                    (
                      packed_text 1 (iv ++ tag ++ encrypted),
                      base64_inverse (1 ∷ iv ++ tag ++ encrypted),
                      same_key,
                      ap (take 12) (append_assoc iv tag encrypted),
                      ap (drop 12) (append_assoc iv tag encrypted),
                      take-append 12 iv (tag ++ encrypted) iv_ok,
                      drop-append 12 iv (tag ++ encrypted) iv_ok,
                      take-append 16 tag encrypted tag_ok,
                      drop-header iv tag encrypted iv_ok tag_ok,
                      authentic,
                    )
                    refl,
              )
      ]
