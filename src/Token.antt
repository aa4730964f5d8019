-- ===== src/Token.antt =====
-- Refresh tokens: TokenService (src/modules/auth/services/token.service.ts) and
-- RefreshTokenRepository. `sha256` is HashUtil's hash of a raw token; the signed access token, which
-- JwtService makes, and the client's address are left out.
pub mod Repository
pub mod Rotation
mod Tests
use hr_saas_platform.Shared.{
  ℕ, ◌+◌, ◌*◌, ltb, String, if◌then◌else◌, Bool, true, false, Option, none, some, List,
}
use hr_saas_platform.Exceptions.{bad_request}
use hr_saas_platform.Database.{RefreshToken}
use hr_saas_platform.Service.{Action, pure, gets, ◌>>=◌, ◌>>◌, Context}
use hr_saas_platform.Token.Repository.{
  create, find_by_token_hash, revoke_token, revoke_family, revoke_all_for_user,
  revoke_all_for_user_in_tenant, delete_expired,
}

-- What `rotateRefreshToken` returns.
pub record Rotated : Type 0 where
  pub user_id : ℕ
  pub tenant_id : ℕ
  pub family_id : ℕ

-- `familyId || randomUUID()`
abbrev pub family_or_new : Context → Option ℕ → ℕ
family_or_new ctx none = ctx.uuid 2
family_or_new ctx (some family) = family

-- The refresh half of `generateTokenPair`: `raw` is the random token, `ttl` its life in milliseconds.
unfoldable pub generate_refresh_token :
    (String → String) → ℕ → Context → String → ℕ → ℕ → Option ℕ → Action String
unfolding ◌>>=◌ create
generate_refresh_token sha256 ttl ctx raw user tenant family = do
  create (record {
    id = ctx.uuid 0;
    user_id = user;
    tenant_id = tenant;
    token_hash = sha256 raw;
    family_id = family_or_new ctx family;
    is_revoked = false;
    revoked_at = none;
    revoked_reason = none;
    expires_at = ctx.now + ttl;
  })
  pure raw

abbrev pub rotated : RefreshToken → Rotated
rotated t = record { user_id = t.user_id; tenant_id = t.tenant_id; family_id = t.family_id }

-- The stored token decides: unknown, reused, expired, or good.
unfoldable pub rotate_stored : ℕ → Option RefreshToken → Action (Option Rotated)
unfolding revoke_family revoke_token ◌>>=◌
rotate_stored now none = pure none
rotate_stored now (some t) =
    if t.is_revoked
    then (do revoke_family now t.family_id "token_reuse_detected"; pure none)
    else if ltb t.expires_at now
    then (do revoke_token now t.id "expired"; pure none)
    else (do revoke_token now t.id "rotated"; pure (some (rotated t)))

unfoldable pub rotate_refresh_token : (String → String) → ℕ → String → Action (Option Rotated)
unfolding rotate_stored ◌>>=◌
rotate_refresh_token sha256 now raw = do
  stored ← gets (λ db. find_by_token_hash (sha256 raw) db.refresh_tokens)
  rotate_stored now stored

pub revoke_all_tokens : ℕ → ℕ → ℕ → Action (Unit {0})
revoke_all_tokens now user tenant = revoke_all_for_user_in_tenant now user tenant "logout"

unfoldable pub revoke_all_user_tokens : ℕ → ℕ → Action (Unit {0})
unfolding revoke_all_for_user
revoke_all_user_tokens now user = revoke_all_for_user now user "account_action"

pub cleanup_expired_tokens : ℕ → Action ℕ
cleanup_expired_tokens now = delete_expired now
