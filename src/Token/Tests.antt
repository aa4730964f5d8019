-- ===== src/Token/Tests.antt =====
-- A stored refresh token, with the identity for the hash.
use hr_saas_platform.Shared.{ℕ, ◌+◌, String, Bool, true, false, ◌≡◌, refl, none, some, [], ◌∷◌}
use hr_saas_platform.Shared.Table.{find_first}
use hr_saas_platform.Database.{Database, RefreshToken, empty}
use hr_saas_platform.Service.{ok, Context}
use hr_saas_platform.Token.Repository.{find_by_token_hash}
use hr_saas_platform.Token.{rotated, rotate_refresh_token}
use hr_saas_platform.Token.Rotation.{AllRevoked, rotate_refresh_token-once}

abbrev token : ℕ → String → Bool → RefreshToken
token id hash used = record {
  id = id;
  user_id = 1;
  tenant_id = 1;
  token_hash = hash;
  family_id = 9;
  is_revoked = used;
  revoked_at = none;
  revoked_reason = none;
  expires_at = 1000;
}

abbrev db : Database
db = record empty { refresh_tokens = token 1 "spent" true ∷ token 2 "good" false ∷ [] }

abbrev ctx : Context
ctx = record { tenant_id = none; now = 5; uuid = λ n. n + 100 }

abbrev same : String → String
same s = s

rotate_refresh_token-once_example :
    let first = rotate_refresh_token same 5 "good" db in
    let second = rotate_refresh_token same 6 "good" first.1 in
    (first.0 ≡ ok (some (rotated (token 2 "good" false))))
    × (second.0 ≡ ok none)
    × AllRevoked 9 second.1.refresh_tokens
unfolding find_by_token_hash find_first
rotate_refresh_token-once_example =
    rotate_refresh_token-once same 5 6 "good" db {t = token 2 "good" false} refl refl refl
