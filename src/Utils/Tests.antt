-- ===== src/Utils/Tests.antt =====
-- The presets of working days, and a salary under a key of two.
use hr_saas_platform.Shared.{ℕ, ◌≡◌, refl, true, false, some, String, [], ◌∷◌}
use hr_saas_platform.Utils.WorkingDays.{is_enabled, Week, bitmask_of}
use hr_saas_platform.Utils.Letters.{
  written, read, read-written, read-empty, cipher, decipher, twelve,
}
use hr_saas_platform.Utils.Encryption.{returned, get_key, encrypt, decrypt, decrypt-encrypt}

-- Saturday to Wednesday: 103, where the comment of the source has 124.
abbrev sat_to_wed : Week
sat_to_wed = record {
  mon = true;
  tue = true;
  wed = true;
  thu = false;
  fri = false;
  sat = true;
  sun = true;
}

sat_to_wed-bitmask_of : bitmask_of sat_to_wed ≡ 103
sat_to_wed-bitmask_of = refl

-- 124 leaves Saturday to Wednesday without Monday and Tuesday, and has Thursday and Friday.
preset_124 : (is_enabled 124 1 ≡ false) × (is_enabled 124 5 ≡ true)
unfolding is_enabled
preset_124 = (refl, refl)

get_key_first : get_key {Key = ℕ} 1 ((1, 7) ∷ []) ≡ some 7
unfolding get_key
get_key_first = refl

-- A second version has been added.
get_key_rotated : get_key {Key = ℕ} 1 ((2, 9) ∷ (1, 7) ∷ []) ≡ some 7
unfolding get_key
get_key_rotated = refl

decrypt-encrypt_example :
    (stored : String) × (encrypt cipher written ((1, 7) ∷ []) twelve (some "75000.00")
      ≡ returned (some stored))
    × (decrypt decipher read ((2, 9) ∷ (1, 7) ∷ []) (some stored) ≡ returned (some "75000.00"))
decrypt-encrypt_example =
    decrypt-encrypt cipher decipher written read read-written read-empty ((1, 7) ∷ [])
      ((2, 9) ∷ (1, 7) ∷ []) 7 twelve "75000.00" get_key_first get_key_rotated refl refl refl
