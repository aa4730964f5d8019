-- ===== src/Auth/Replay.antt =====
-- A refresh token that is presented twice: `refreshTokens` ends the session of both holders.
use hr_saas_platform.Shared.{ℕ, ltb, String, Bool, true, false, ◌≡◌, refl, none, some}
use hr_saas_platform.Exceptions.{unauthorized}
use hr_saas_platform.Database.{Database, RefreshToken, User, Tenant, Employee}
use hr_saas_platform.Service.{ok, err, ◌>>=◌, Context}
use hr_saas_platform.Token.{generate_refresh_token, rotate_refresh_token, rotate_stored}
use hr_saas_platform.Token.Repository.{
  find_by_token_hash, create, revoked, revoke_token, revoke_family,
}
use hr_saas_platform.Token.Rotation.{Stored, old_Stored, given-revoked}
use hr_saas_platform.Auth.Users.{find_by_id}
use hr_saas_platform.Auth.{
  is_active_tenant, find_tenant, find_by_user_id, is_barred, validate_tenant, refresh_with,
  refresh_rotated, refresh_tokens,
}

-- Who may refresh the token: an active user with an employee who is not barred, in an active tenant.
pub record IsHeld (t : RefreshToken) (db : Database) : Type 0 where
  pub user : User
  pub known : find_by_id t.user_id db.users ≡ some user
  pub active : user.is_active ≡ true
  pub tenant : Tenant
  pub of_tenant : find_tenant t.tenant_id db.tenants ≡ some tenant
  pub running : is_active_tenant tenant.status ≡ true
  pub employee : Employee
  pub employed : find_by_user_id t.user_id t.tenant_id db.employees ≡ some employee
  pub unbarred : is_barred employee.status ≡ false

-- Let a token be stored that is neither revoked nor expired, of a user who may refresh it, and let
-- the hash of the token to be given for it be new. The first to present it gets the new token. When
-- the old one is presented again, at any time, it is refused, and from then on the new token is
-- refused too, whoever holds it.
pub refresh_tokens-replay :
    (verify : String → String → Bool) (sha256 : String → String) (ttl : ℕ)
    (ctx later latest : Context) (raw fresh_raw second_raw third_raw : String) (db : Database)
    {t : RefreshToken}
    → Stored sha256 raw db t
    → t.is_revoked ≡ false
    → ltb t.expires_at ctx.now ≡ false
    → IsHeld t db
    → find_by_token_hash (sha256 fresh_raw) db.refresh_tokens ≡ none
    → let first = refresh_tokens verify sha256 ttl ctx raw fresh_raw db in
      let second = refresh_tokens verify sha256 ttl later raw second_raw first.1 in
      let third = refresh_tokens verify sha256 ttl latest fresh_raw third_raw second.1 in
      (first.0 ≡ ok fresh_raw)
      × (second.0 ≡ err (unauthorized "invalid_refresh_token"))
      × (third.0 ≡ err (unauthorized "invalid_refresh_token"))
unfolding refresh_tokens refresh_rotated refresh_with validate_tenant generate_refresh_token create
    rotate_refresh_token rotate_stored revoke_token revoke_family ◌>>=◌ revoked
refresh_tokens-replay verify sha256 ttl ctx later latest raw fresh_raw second_raw third_raw db {t}
      stored usable fresh held new =
    rw
      (
        stored,
        usable,
        fresh,
        held.known,
        held.active,
        held.of_tenant,
        held.running,
        held.employed,
        held.unbarred,
        old_Stored sha256 ttl ctx later.now raw fresh_raw db stored new,
        given-revoked sha256 ttl ctx later.now raw fresh_raw db stored new,
      )
      (refl, refl, refl)
