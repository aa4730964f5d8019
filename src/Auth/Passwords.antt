-- ===== src/Auth/Passwords.antt =====
-- A changed password ends the sessions of its user.
use mathlib.Core.Option
use hr_saas_platform.Shared.{
  ℕ, String, ◌==◌, Bool, true, false, not, ◌&&◌, ◌≡◌, refl, ap, ◌∙◌, Option, none, some, List, Memᴰ,
  arith, inl, inr, Bool-cases,
}
use hr_saas_platform.Shared.Table.{
  update_where, find_first-update_where, find_first-Memᴰ, Memᴰ-update_where,
}
use hr_saas_platform.Database.{Database, User, RefreshToken}
use hr_saas_platform.Service.{ok, ◌>>=◌, Context, emit_async}
use hr_saas_platform.Token.{revoke_all_user_tokens}
use hr_saas_platform.Token.Repository.{revoked, revoke_all_for_user, revoke_where}
use hr_saas_platform.Auth.Users.{has_id, find_by_id, with_password, update_password, set_where}
use hr_saas_platform.Auth.{change_password}

found_with_password :
    (now id : ℕ) (hash : String) (users : List User) {u : User}
    → find_by_id id users ≡ some u
    → find_by_id id (update_where (has_id id) (with_password now hash) users)
      ≡ some (with_password now hash u)
unfolding find_by_id
found_with_password now id hash users {u} found =
    let (_, mine) = find_first-Memᴰ (has_id id) users {r = u} found in
    find_first-update_where (has_id id) (has_id id) (with_password now hash) users (λ r. refl)
    ∙ (ap (Option.map _) found ∙ rw mine refl)

-- Whoever held a refresh token of the user holds a revoked one.
none_left :
    (now user : ℕ) (reason : String) (tokens : List RefreshToken) (t : RefreshToken)
    → Memᴰ t (update_where (λ t. t.user_id == user && not t.is_revoked) (revoked now reason) tokens)
    → t.user_id ≡ user
    → t.is_revoked ≡ true
unfolding revoked
none_left now user reason tokens t m mine =
    let (old, n, e) =
      Memᴰ-update_where (λ t. t.user_id == user && not t.is_revoked) (revoked now reason) tokens
        m in
    elim (Bool-cases (old.user_id == user && not old.is_revoked)) [
      | inl hit ↦ ap (λ (r : RefreshToken). r.is_revoked) e ∙ rw hit refl
      | inr miss ↦
          ground (
            arith,
            ap (λ (r : RefreshToken). r.user_id) e,
            ap (λ (r : RefreshToken). r.is_revoked) e,
          )
    ]

-- The row that is found is the old one with the hash, no failed attempts and no lock.
pub record IsRestored (now : ℕ) (hash : String) (old : User) (row : Option User) : Type 0 where
  pub user : User
  pub found : row ≡ some user
  pub has_hash : user.password_hash ≡ hash
  pub no_attempts : user.failed_login_attempts ≡ 0
  pub unlocked : user.locked_until ≡ none
  pub changed : user.password_changed_at ≡ some now
  pub same_email : user.email ≡ old.email
  pub same_activity : user.is_active ≡ old.is_active

-- A user who gives the right current password and a different new one has the new hash, no failed
-- attempts and no lock afterwards, and every refresh token of the user is revoked.
pub change_password-revoked :
    (verify : String → String → Bool) (sha256 : String → String) (ttl : ℕ) (hash : String → String)
    (ctx : Context) (id tenant : ℕ) (current new : String) (db : Database) {u : User}
    → find_by_id id db.users ≡ some u
    → verify current u.password_hash ≡ true
    → verify new u.password_hash ≡ false
    → let out = change_password verify sha256 ttl hash ctx id tenant current new db in
      (out.0 ≡ ok tt)
      × IsRestored ctx.now (hash new) u (find_by_id id out.1.users)
      × ((t : RefreshToken) → Memᴰ t out.1.refresh_tokens → t.user_id ≡ id → t.is_revoked ≡ true)
unfolding change_password update_password set_where revoke_all_user_tokens revoke_all_for_user
    revoke_where emit_async ◌>>=◌
change_password-revoked verify sha256 ttl hash ctx id tenant current new db {u} found right fresh =
    rw (found, right, fresh)
      (
        refl,
        record {
          user = with_password ctx.now (hash new) u;
          found = found_with_password ctx.now id (hash new) db.users found;
          has_hash = refl;
          no_attempts = refl;
          unlocked = refl;
          changed = refl;
          same_email = refl;
          same_activity = refl;
        },
        none_left ctx.now id "account_action" db.refresh_tokens,
      )
