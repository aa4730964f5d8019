-- ===== src/Auth/Lockout.antt =====
-- Five wrong passwords lock an account for half an hour, whatever password comes then.
use mathlib.Core.Option
use hr_saas_platform.Shared.{
  All, ℕ, suc, ◌+◌, ◌≤◌, ◌<◌, String, leb, length, ==_refl, if◌then◌else◌, Bool, true, false, ◌≡◌,
  refl, ap, ◌∙◌, none, some, List, [], ◌∷◌, arith, inl, inr, Bool-cases,
}
use hr_saas_platform.Shared.Table.{
  update_where, count_where, find_first-Memᴰ, find_first_of_Memᴰ, find_first-update_where,
  count_where-update_where, Memᴰ-unique,
}
use hr_saas_platform.Exceptions.{account_locked}
use hr_saas_platform.Database.{Database, User}
use hr_saas_platform.Service.{err, Action, ◌>>=◌, Context, emit_async}
use hr_saas_platform.Auth.Users.{
  has_id, has_email, find_by_id, find_by_email, one_more, increment_failed_attempts, locked_to,
  lock_account, set_where,
}
use hr_saas_platform.Auth.{
  LoginDto, Session, max_failed_login_attempts, lockout_ms, refuse, handle_failed_login,
  emit_login_failed, is_locked, with_user, login,
}

abbrev pub IsKeyed : List User → Type 0
IsKeyed users = (x : ℕ) → count_where (has_id x) users ≤ 1

IsKeyed-update_where :
    (id : ℕ) (f : User → User) (users : List User)
    → ((r : User) → (f r).id ≡ r.id)
    → IsKeyed users
    → IsKeyed (update_where (has_id id) f users)
IsKeyed-update_where id f users keeps keyed x =
    rw (count_where-update_where (has_id x) (has_id id) f users (λ r. cc (keeps r))) (keyed x)

module _ (normalize : String → String) (email : String) where
  abbrev pub Found : Database → User → Type 0
  Found db u = find_by_email normalize email db.users ≡ some u

  -- After a change of the row of the user that is found, it is found changed.
  changed_found :
      (f : User → User) (users : List User) {u : User}
      → ((r : User) → (f r).email ≡ r.email)
      → find_by_email normalize email users ≡ some u
      → find_by_email normalize email (update_where (has_id u.id) f users) ≡ some (f u)
  unfolding find_by_email
  changed_found f users {u} keeps found =
      find_first-update_where (has_email (normalize email)) (has_id u.id) f users
        (λ r. cc (keeps r))
      ∙ (ap (Option.map _) found ∙ rw (==_refl u.id) refl)

  -- The row of the user's id is the user's.
  found_by_id :
      (users : List User) {u : User}
      → IsKeyed users
      → find_by_email normalize email users ≡ some u
      → find_by_id u.id users ≡ some u
  unfolding find_by_email find_by_id
  found_by_id users {u} keyed found =
      let (m, _) = find_first-Memᴰ (has_email (normalize email)) users {r = u} found in
      let (v, hit) = find_first_of_Memᴰ (has_id u.id) users m (==_refl u.id) in
      let (n, same) = find_first-Memᴰ (has_id u.id) users {r = v} hit in
      hit ∙ ap some (Memᴰ-unique (has_id u.id) users (keyed u.id) n same m (==_refl u.id))

module _ (verify : String → String → Bool) (sha256 : String → String) (ttl : ℕ)
    (normalize : String → String) (email raw : String) (tenant : ℕ) where
  abbrev pub dto : String → LoginDto
  dto password = record { email = email; password = password; tenant_id = tenant }

  abbrev pub try : Context → String → Action Session
  try ctx password = login verify sha256 ttl normalize ctx (dto password) raw

  abbrev punished : Context → User → User
  punished ctx u =
      if leb max_failed_login_attempts (suc u.failed_login_attempts)
      then locked_to (ctx.now + lockout_ms) (one_more u)
      else one_more u

  one_more_found :
      (users : List User) {u : User}
      → IsKeyed users
      → find_by_email normalize email users ≡ some u
      → find_by_id u.id (update_where (has_id u.id) one_more users) ≡ some (one_more u)
  one_more_found users {u} keyed found =
      found_by_id normalize email (update_where (has_id u.id) one_more users) {u = one_more u}
        (IsKeyed-update_where u.id one_more users (λ r. refl) keyed)
        (changed_found normalize email one_more users (λ r. refl) found)

  abbrev counted_rows : Context → User → List User → List User
  counted_rows ctx u users =
      let counted = update_where (has_id u.id) one_more users in
      if leb max_failed_login_attempts (suc u.failed_login_attempts)
      then update_where (has_id u.id) (locked_to (ctx.now + lockout_ms)) counted
      else counted

  -- The users after a wrong password of an account that is not locked.
  wrong_password_users :
      (ctx : Context) (password : String) (db : Database) {u : User}
      → IsKeyed db.users
      → Found normalize email db u
      → u.is_active ≡ true
      → is_locked ctx.now u ≡ false
      → verify password u.password_hash ≡ false
      → (try ctx password db).1.users ≡ counted_rows ctx u db.users
  unfolding login with_user handle_failed_login emit_login_failed emit_async
      increment_failed_attempts lock_account set_where ◌>>=◌
  wrong_password_users ctx password db {u} keyed found active unlocked wrong =
      let counted = one_more_found db.users keyed found in
      elim (Bool-cases (leb 5 (suc u.failed_login_attempts))) [
        | inl fifth ↦ rw (found, active, unlocked, wrong, counted, fifth) refl
        | inr before ↦ rw (found, active, unlocked, wrong, counted, before) refl
      ]

  -- It is counted, and the fifth locks.
  wrong_password :
      (ctx : Context) (password : String) (db : Database) {u : User}
      → IsKeyed db.users
      → Found normalize email db u
      → u.is_active ≡ true
      → is_locked ctx.now u ≡ false
      → verify password u.password_hash ≡ false
      → Found normalize email (try ctx password db).1 (punished ctx u)
        × IsKeyed (try ctx password db).1.users
  wrong_password ctx password db {u} keyed found active unlocked wrong =
      let users = update_where (has_id u.id) one_more db.users in
      let lock = locked_to (ctx.now + lockout_ms) in
      let found' = changed_found normalize email one_more db.users (λ r. refl) found in
      let keyed' = IsKeyed-update_where u.id one_more db.users (λ r. refl) keyed in
      rw (wrong_password_users ctx password db keyed found active unlocked wrong)
        (elim (Bool-cases (leb 5 (suc u.failed_login_attempts))) [
          | inl fifth ↦ rw fifth (
            changed_found normalize email lock users {u = one_more u} (λ r. refl) found',
            IsKeyed-update_where u.id lock users (λ r. refl) keyed',
          )
          | inr before ↦ rw before (found', keyed')
        ])

  -- Tries with passwords, each in its own request.
  pub tries : List (Context × String) → Database → Database
  tries [] db = db
  tries ((ctx, password) ∷ rest) db = tries rest (try ctx password db).1

  abbrev pub AllWrong : String → List (Context × String) → Type 0
  AllWrong hash [] = Unit
  AllWrong hash ((ctx, password) ∷ rest) = (verify password hash ≡ false) × AllWrong hash rest

  -- The time until which the last try locks.
  abbrev pub lock_end : List (Context × String) → ℕ
  lock_end [] = 0
  lock_end ((ctx, password) ∷ []) = ctx.now + lockout_ms
  lock_end (_ ∷ next ∷ rest) = lock_end (next ∷ rest)

  tries-locked :
      (attempts : List (Context × String)) (db : Database) {u : User}
      → IsKeyed db.users
      → Found normalize email db u
      → u.is_active ≡ true
      → u.locked_until ≡ none
      → 0 < length attempts
      → length attempts + u.failed_login_attempts ≡ 5
      → AllWrong u.password_hash attempts
      → (v : User) × Found normalize email (tries attempts db) v
        × (v.is_active ≡ true)
        × (v.locked_until ≡ some (lock_end attempts))
  unfolding tries
  tries-locked [] db keyed found active unlocked more count wrong = absurd (omega (arith, more))
  tries-locked ((ctx, password) ∷ []) db {u} keyed found active unlocked more count (wrong, _) =
      let (found', _) =
        wrong_password ctx password db keyed found active (rw unlocked refl) wrong in
      let fifth : leb 5 (suc u.failed_login_attempts) ≡ true = ground (arith, count) in
      (locked_to (ctx.now + lockout_ms) (one_more u), rw fifth at found', active, refl)
  tries-locked ((ctx, password) ∷ next ∷ rest) db {u} keyed found active unlocked more count
        (wrong, wrongs) =
      let (found', keyed') =
        wrong_password ctx password db keyed found active (rw unlocked refl) wrong in
      let before : leb 5 (suc u.failed_login_attempts) ≡ false = ground (arith, count) in
      tries-locked (next ∷ rest) (try ctx password db).1 {u = one_more u} keyed'
        (rw before at found') active unlocked (omega arith) (omega (arith, count)) wrongs

module _ (verify : String → String → Bool) (sha256 : String → String) (ttl : ℕ)
    (normalize : String → String) (email raw : String) (tenant : ℕ) where
  -- Logins one after the other, each refused as locked until the end.
  abbrev pub AllRefused : ℕ → List (Context × String) → Database → Type 0
  AllRefused end [] db = Unit
  AllRefused end ((ctx, password) ∷ rest) db =
      ((try verify sha256 ttl normalize email raw tenant ctx password db).0
        ≡ err (account_locked end))
      × AllRefused end rest (try verify sha256 ttl normalize email raw tenant ctx password db).1

  -- A login of a locked account is refused, and leaves the accounts as they are.
  locked_try :
      (ctx : Context) (password : String) (db : Database) {v : User} {end : ℕ}
      → Found normalize email db v
      → v.is_active ≡ true
      → v.locked_until ≡ some end
      → ctx.now < end
      → ((try verify sha256 ttl normalize email raw tenant ctx password db).0
          ≡ err (account_locked end))
        × ((try verify sha256 ttl normalize email raw tenant ctx password db).1.users ≡ db.users)
  unfolding login with_user refuse emit_login_failed emit_async ◌>>=◌
  locked_try ctx password db {v} {end} found active locked soon =
      let still : is_locked ctx.now v ≡ true = rw (is_locked, locked) (ground arith) in
      rw (found, active, still, locked) (refl, refl)

  locked_tries :
      (laters : List (Context × String)) (db : Database) {v : User} {end : ℕ}
      → Found normalize email db v
      → v.is_active ≡ true
      → v.locked_until ≡ some end
      → All (λ l. l.0.now < end) laters
      → AllRefused end laters db
  locked_tries [] db found active locked soon = tt
  locked_tries ((ctx, password) ∷ rest) db {v} found active locked (soon, sooner) =
      let (refused, same) = locked_try ctx password db {v = v} found active locked soon in
      (
        refused,
        locked_tries rest _ {v = v} (ap (find_by_email normalize email) same ∙ found) active locked
            sooner,
      )

-- When the wrong passwords of an active account that is not locked have made its counter five, every
-- login of the account within half an hour of the last of them is refused as locked, whatever its
-- password, however many such logins came before it.
pub tries-account_locked :
    (verify : String → String → Bool) (sha256 : String → String) (ttl : ℕ)
    (normalize : String → String) (email raw : String) (tenant : ℕ)
    (attempts : List (Context × String)) (db : Database) {u : User}
    (laters : List (Context × String))
    → IsKeyed db.users
    → Found normalize email db u
    → u.is_active ≡ true
    → u.locked_until ≡ none
    → 0 < length attempts
    → length attempts + u.failed_login_attempts ≡ 5
    → AllWrong verify sha256 ttl normalize email raw tenant u.password_hash attempts
    → All (λ l. l.0.now < lock_end verify sha256 ttl normalize email raw tenant attempts) laters
    → AllRefused verify sha256 ttl normalize email raw tenant
        (lock_end verify sha256 ttl normalize email raw tenant attempts)
        laters
        (tries verify sha256 ttl normalize email raw tenant attempts db)
tries-account_locked verify sha256 ttl normalize email raw tenant attempts db {u} laters keyed found
      active unlocked more count wrong soon =
    let (v, found', active', locked) =
      tries-locked verify sha256 ttl normalize email raw tenant attempts db keyed found active
        unlocked more count wrong in
    locked_tries verify sha256 ttl normalize email raw tenant laters _ {v = v} found' active' locked
      soon
