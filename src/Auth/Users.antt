-- ===== src/Auth/Users.antt =====
-- UserRepository (src/modules/auth/repositories/user.repository.ts). `normalize` is the lower case of
-- the trimmed email.
use text.Mathlib.Text.{◌==◌ as str_eq}
use hr_saas_platform.Shared.{ℕ, suc, String, ◌==◌, Bool, Option, none, some, List}
use hr_saas_platform.Shared.Table.{find_first, update_where}
use hr_saas_platform.Database.{User}
use hr_saas_platform.Service.{ok, Action}

abbrev pub has_id : ℕ → User → Bool
has_id id u = u.id == id

abbrev pub has_email : String → User → Bool
has_email email u = str_eq u.email email

unfoldable pub find_by_id : ℕ → List User → Option User
find_by_id id = find_first (has_id id)

unfoldable pub find_by_email : (String → String) → String → List User → Option User
find_by_email normalize email = find_first (has_email (normalize email))

unfoldable pub set_where : ℕ → (User → User) → Action (Unit {0})
set_where id f db = (ok tt, record db { users = update_where (has_id id) f db.users })

abbrev pub with_password : ℕ → String → User → User
with_password now hash u = record u {
  password_hash = hash;
  password_changed_at = some now;
  failed_login_attempts = 0;
  locked_until = none;
}

unfoldable pub update_password : ℕ → ℕ → String → Action (Unit {0})
unfolding set_where
update_password now id hash = set_where id (with_password now hash)

abbrev pub one_more : User → User
one_more u = record u { failed_login_attempts = suc u.failed_login_attempts }

-- `rows[0]?.failed_login_attempts || 0`
abbrev pub attempts_of : Option User → ℕ
attempts_of none = 0
attempts_of (some u) = u.failed_login_attempts

unfoldable pub increment_failed_attempts : ℕ → Action ℕ
unfolding find_by_id
increment_failed_attempts id db =
    let rows = update_where (has_id id) one_more db.users in
    (ok (attempts_of (find_by_id id rows)), record db { users = rows })

abbrev pub locked_to : ℕ → User → User
locked_to until u = record u { locked_until = some until }

unfoldable pub lock_account : ℕ → ℕ → Action (Unit {0})
unfolding set_where
lock_account id until = set_where id (locked_to until)

abbrev pub logged_in : ℕ → User → User
logged_in now u = record u {
  failed_login_attempts = 0;
  locked_until = none;
  last_login_at = some now;
}

unfoldable pub reset_failed_attempts : ℕ → ℕ → Action (Unit {0})
unfolding set_where
reset_failed_attempts now id = set_where id (logged_in now)
