-- ===== src/Token/Repository.antt =====
-- RefreshTokenRepository (src/modules/auth/repositories/refresh-token.repository.ts).
use text.Mathlib.Text.{◌==◌ as str_eq}
use hr_saas_platform.Shared.{ℕ, String, leb, ◌==◌, Bool, true, not, ◌&&◌, Option, some, List}
use hr_saas_platform.Shared.Table.{find_first, update_where, delete_where, count_where, insert}
use hr_saas_platform.Database.{RefreshToken}
use hr_saas_platform.Service.{ok, Action}

abbrev pub has_hash : String → RefreshToken → Bool
has_hash hash t = str_eq t.token_hash hash

unfoldable pub create : RefreshToken → Action RefreshToken
create row db = (ok row, record db { refresh_tokens = insert row db.refresh_tokens })

unfoldable pub find_by_token_hash : String → List RefreshToken → Option RefreshToken
find_by_token_hash hash = find_first (has_hash hash)

-- SET is_revoked, revoked_at, revoked_reason
unfoldable pub revoked : ℕ → String → RefreshToken → RefreshToken
revoked now reason t = record t {
  is_revoked = true;
  revoked_at = some now;
  revoked_reason = some reason;
}

unfoldable pub revoke_where : (RefreshToken → Bool) → ℕ → String → Action (Unit {0})
revoke_where test now reason db =
    (ok tt, record db { refresh_tokens = update_where test (revoked now reason) db.refresh_tokens })

unfoldable pub revoke_token : ℕ → ℕ → String → Action (Unit {0})
unfolding revoke_where
revoke_token now id reason = revoke_where (λ t. t.id == id) now reason

unfoldable pub revoke_family : ℕ → ℕ → String → Action (Unit {0})
unfolding revoke_where
revoke_family now family reason = revoke_where (λ t. t.family_id == family) now reason

unfoldable pub revoke_all_for_user : ℕ → ℕ → String → Action (Unit {0})
unfolding revoke_where
revoke_all_for_user now user reason =
    revoke_where (λ t. t.user_id == user && not t.is_revoked) now reason

unfoldable pub revoke_all_for_user_in_tenant : ℕ → ℕ → ℕ → String → Action (Unit {0})
unfolding revoke_where
revoke_all_for_user_in_tenant now user tenant reason =
    revoke_where (λ t. t.user_id == user && (t.tenant_id == tenant && not t.is_revoked)) now reason

unfoldable pub delete_expired : ℕ → Action ℕ
delete_expired now db = (
  ok (count_where (λ t. leb t.expires_at now) db.refresh_tokens),
  record db { refresh_tokens = delete_where (λ t. leb t.expires_at now) db.refresh_tokens },
)
