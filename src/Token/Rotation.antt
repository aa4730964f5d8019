-- ===== src/Token/Rotation.antt =====
-- A refresh token works once: its second use revokes the whole family.
use mathlib.Core.Option
use text.Mathlib.TextPositions.{eq_refl}
use hr_saas_platform.Shared.{
  ℕ, ◌+◌, ltb, String, ◌==◌, ==_refl, if◌then◌else◌, Bool, true, false, ◌≡◌, refl, ap, ◌∙◌, none,
  some, List, Memᴰ, arith, inl, inr, Bool-cases,
}
use hr_saas_platform.Shared.Table.{
  update_where, insert, find_first-insert, find_first-update_where, Memᴰ-update_where,
}
use hr_saas_platform.Database.{Database, RefreshToken}
use hr_saas_platform.Service.{ok, ◌>>=◌, Context}
use hr_saas_platform.Token.Repository.{
  has_hash, find_by_token_hash, revoked, revoke_token, revoke_family,
}
use hr_saas_platform.Token.{rotated, rotate_stored, rotate_refresh_token}

abbrev pub AllRevoked : ℕ → List RefreshToken → Type 0
AllRevoked family tokens =
    (t : RefreshToken) → Memᴰ t tokens → t.family_id ≡ family → t.is_revoked ≡ true

revoked_family :
    (now family : ℕ) (reason : String) (tokens : List RefreshToken)
    → AllRevoked family (update_where (λ t. t.family_id == family) (revoked now reason) tokens)
unfolding revoked
revoked_family now family reason tokens t m same =
    let (old, n, e) =
      Memᴰ-update_where (λ t. t.family_id == family) (revoked now reason) tokens m in
    elim (Bool-cases (old.family_id == family)) [
      | inl hit ↦ ap (λ (r : RefreshToken). r.is_revoked) e ∙ rw hit refl
      | inr miss ↦ absurd (ground (arith, ap (λ (r : RefreshToken). r.family_id) e))
    ]

-- A lookup by hash after tokens were revoked.
find_by_token_hash-revoked :
    (hash : String) (test : RefreshToken → Bool) (now : ℕ) (reason : String)
    (tokens : List RefreshToken)
    → find_by_token_hash hash (update_where test (revoked now reason) tokens)
      ≡ Option.map
          (λ r. if test r then revoked now reason r else r)
          (find_by_token_hash hash tokens)
unfolding find_by_token_hash revoked
find_by_token_hash-revoked hash test now reason tokens =
    find_first-update_where (has_hash hash) test (revoked now reason) tokens (λ t. refl)

module _ (sha256 : String → String) where
  abbrev pub Stored : String → Database → RefreshToken → Type 0
  Stored raw db t = find_by_token_hash (sha256 raw) db.refresh_tokens ≡ some t

  -- A token that is neither revoked nor expired is exchanged for its session and revoked.
  rotate_good :
      (now : ℕ) (raw : String) (db : Database) {t : RefreshToken}
      → Stored raw db t
      → t.is_revoked ≡ false
      → ltb t.expires_at now ≡ false
      → rotate_refresh_token sha256 now raw db ≡ (
        ok (some (rotated t)),
        record db {
          refresh_tokens =
              update_where (λ r. r.id == t.id) (revoked now "rotated") db.refresh_tokens;
        },
      )
  unfolding rotate_refresh_token rotate_stored revoke_token ◌>>=◌
  rotate_good now raw db stored usable fresh = rw (stored, usable, fresh) refl

  -- The token that was exchanged is found revoked.
  rotated_Stored :
      (now : ℕ) (raw : String) (db : Database) {t : RefreshToken}
      → Stored raw db t
      → find_by_token_hash
          (sha256 raw)
          (update_where (λ r. r.id == t.id) (revoked now "rotated") db.refresh_tokens)
        ≡ some (revoked now "rotated" t)
  rotated_Stored now raw db {t} stored =
      find_by_token_hash-revoked (sha256 raw) (λ r. r.id == t.id) now "rotated" db.refresh_tokens
      ∙ rw (stored, ==_refl t.id) refl

-- A token that is stored as revoked, for whatever reason, gives no session, and afterwards every
-- token of its family is revoked.
pub rotate_refresh_token-reuse :
    (sha256 : String → String) (now : ℕ) (raw : String) (db : Database) {t : RefreshToken}
    → Stored sha256 raw db t
    → t.is_revoked ≡ true
    → ((rotate_refresh_token sha256 now raw db).0 ≡ ok none)
      × AllRevoked t.family_id (rotate_refresh_token sha256 now raw db).1.refresh_tokens
unfolding rotate_refresh_token rotate_stored revoke_family ◌>>=◌
rotate_refresh_token-reuse sha256 now raw db {t} stored reused =
    rw (stored, reused)
      (refl, revoked_family now t.family_id "token_reuse_detected" db.refresh_tokens)

-- A stored token that is neither revoked nor expired is exchanged once: the first call returns its
-- session, and a second call with it, at any time, returns none and leaves its family revoked.
pub rotate_refresh_token-once :
    (sha256 : String → String) (now later : ℕ) (raw : String) (db : Database) {t : RefreshToken}
    → Stored sha256 raw db t
    → t.is_revoked ≡ false
    → ltb t.expires_at now ≡ false
    → let first = rotate_refresh_token sha256 now raw db in
      let second = rotate_refresh_token sha256 later raw first.1 in
      (first.0 ≡ ok (some (rotated t)))
      × (second.0 ≡ ok none)
      × AllRevoked t.family_id second.1.refresh_tokens
unfolding revoked
rotate_refresh_token-once sha256 now later raw db {t} stored usable fresh =
    rw (rotate_good sha256 now raw db stored usable fresh) (
      let (none_back, all) =
        rotate_refresh_token-reuse sha256 later raw _ {t = revoked now "rotated" t}
          (rotated_Stored sha256 now raw db stored) refl in
      (refl, none_back, all))

-- The table after an exchange, and after a replay of the exchanged token.
module _ (sha256 : String → String) (ttl : ℕ) (ctx : Context) (later : ℕ) (raw fresh_raw : String)
    (db : Database) {t : RefreshToken} (stored : Stored sha256 raw db t)
    (new : find_by_token_hash (sha256 fresh_raw) db.refresh_tokens ≡ none) where
  abbrev pub exchanged : List RefreshToken
  exchanged = update_where (λ r. r.id == t.id) (revoked ctx.now "rotated") db.refresh_tokens

  abbrev pub given : RefreshToken
  given = record {
    id = ctx.uuid 0;
    user_id = t.user_id;
    tenant_id = t.tenant_id;
    token_hash = sha256 fresh_raw;
    family_id = t.family_id;
    is_revoked = false;
    revoked_at = none;
    revoked_reason = none;
    expires_at = ctx.now + ttl;
  }

  pub old_Stored :
      find_by_token_hash (sha256 raw) (insert given exchanged) ≡ some (revoked ctx.now "rotated" t)
  unfolding find_by_token_hash
  old_Stored =
      find_first-insert (has_hash (sha256 raw)) given exchanged
      ∙ rw (rotated_Stored sha256 ctx.now raw db stored) refl

  given_Stored : find_by_token_hash (sha256 fresh_raw) (insert given exchanged) ≡ some given
  unfolding find_by_token_hash
  given_Stored =
      find_first-insert (has_hash (sha256 fresh_raw)) given exchanged
      ∙ rw
          (
            find_by_token_hash-revoked (sha256 fresh_raw) (λ r. r.id == t.id) ctx.now "rotated"
                db.refresh_tokens,
            new,
            eq_refl (sha256 fresh_raw),
          )
          refl

  pub given-revoked :
      find_by_token_hash (sha256 fresh_raw) (
        update_where
          (λ r. r.family_id == t.family_id)
          (revoked later "token_reuse_detected")
          (insert given exchanged))
      ≡ some (revoked later "token_reuse_detected" given)
  given-revoked =
      find_by_token_hash-revoked (sha256 fresh_raw) (λ r. r.family_id == t.family_id) later
        "token_reuse_detected" (insert given exchanged)
      ∙ rw (given_Stored, ==_refl t.family_id) refl
