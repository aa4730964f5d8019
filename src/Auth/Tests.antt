-- ===== src/Auth/Tests.antt =====
-- One user with an employee in an active tenant. The hash of a password is the password.
use text.Mathlib.Text.{◌==◌ as str_eq}
use hr_saas_platform.Shared.{ℕ, ◌+◌, String, true, false, ◌≡◌, refl, none, [], ◌∷◌, Memᴰ, arith}
use hr_saas_platform.Shared.Table.{find_first, count_where}
use hr_saas_platform.Exceptions.{unauthorized}
use hr_saas_platform.Json.{end}
use hr_saas_platform.Database.{Database, User, RefreshToken, TenantStatus, EmployeeStatus, empty}
use hr_saas_platform.Service.{ok, err, Context, ◌>>=◌, emit_async}
use hr_saas_platform.Token.{generate_refresh_token}
use hr_saas_platform.Auth.Users.{find_by_email, find_by_id, reset_failed_attempts, set_where}
use hr_saas_platform.Auth.{
  LoginDto, Session, login, refresh_tokens, change_password, with_user, with_employee, open_session,
  validate_tenant, find_tenant, find_by_user_id,
}
use hr_saas_platform.Auth.Login.{IsAdmitted, login-IsAdmitted}
use hr_saas_platform.Token.Repository.{find_by_token_hash}
use hr_saas_platform.Auth.Replay.{IsHeld, refresh_tokens-replay}
use hr_saas_platform.Auth.Passwords.{IsRestored, change_password-revoked}
use hr_saas_platform.Auth.Lockout.{AllRefused, tries, tries-account_locked}

abbrev user : User
user = record {
  id = 1;
  email = "ann@example.com";
  password_hash = "secret";
  is_active = true;
  failed_login_attempts = 3;
  locked_until = none;
  last_login_at = none;
  password_changed_at = none;
}

abbrev db : Database
db = record empty {
  users = user ∷ [];
  tenants =
      record {
        id = 1;
        name = "Acme";
        slug = "acme";
        plan_type = "free";
        status = TenantStatus.active;
        default_timezone = "UTC";
        default_locale = "en";
        fiscal_year_start_month = 1;
        max_employees = none;
        settings = end;
      }
      ∷ [];
  employees =
      record {
        id = 5;
        tenant_id = 1;
        user_id = 1;
        employee_number = "E";
        first_name = "A";
        last_name = "B";
        department_id = none;
        position = none;
        employment_type = "full_time";
        base_salary_encrypted = "";
        salary_currency = "USD";
        hire_date = "2024-01-01";
        termination_date = none;
        timezone = none;
        locale = none;
        status = EmployeeStatus.active;
        bank_account_encrypted = none;
        tax_id_encrypted = none;
        updated_at = 0;
      }
      ∷ [];
}

abbrev ctx : ℕ → Context
ctx now = record { tenant_id = none; now = now; uuid = λ n. n + 100 }

abbrev same : String → String
same s = s

abbrev right : LoginDto
right = record { email = "ann@example.com"; password = "secret"; tenant_id = 1 }

abbrev session : Session
session = record {
  refresh_token = "fresh";
  user_id = 1;
  employee_id = 5;
  tenant_id = 1;
  timezone = "UTC";
}

login_runs : (login str_eq same 700 same (ctx 9) right "fresh" db).0 ≡ ok session
unfolding login with_user with_employee open_session validate_tenant generate_refresh_token
    reset_failed_attempts find_by_email find_tenant find_by_user_id find_first ◌>>=◌ emit_async
    set_where
login_runs = refl

login-IsAdmitted_example : IsAdmitted str_eq same 9 right db
login-IsAdmitted_example =
    login-IsAdmitted str_eq same 700 same (ctx 9) right "fresh" db {s = session} login_runs

-- The fourth and the fifth wrong password, and then the right one, twice.
tries-account_locked_example :
    AllRefused str_eq same 700 same "ann@example.com" "fresh" 1 1800020
      ((ctx 900, "secret") ∷ (ctx 901, "secret") ∷ [])
      (tries str_eq same 700 same "ann@example.com" "fresh" 1
        ((ctx 10, "guess") ∷ (ctx 20, "again") ∷ [])
        db)
unfolding find_by_email find_first count_where
tries-account_locked_example =
    tries-account_locked str_eq same 700 same "ann@example.com" "fresh" 1
      ((ctx 10, "guess") ∷ (ctx 20, "again") ∷ []) db {u = user}
      ((ctx 900, "secret") ∷ (ctx 901, "secret") ∷ []) (λ x. ground arith) refl refl refl
      (omega arith) refl (refl, (refl, tt)) (omega arith, (omega arith, tt))

change_password-revoked_example :
    let out = change_password str_eq same 700 same (ctx 9) 1 1 "secret" "sesame" db in
    (out.0 ≡ ok tt)
    × IsRestored 9 "sesame" user (find_by_id 1 out.1.users)
    × ((t : RefreshToken) → Memᴰ t out.1.refresh_tokens → t.user_id ≡ 1 → t.is_revoked ≡ true)
unfolding find_by_id find_first
change_password-revoked_example =
    change_password-revoked str_eq same 700 same (ctx 9) 1 1 "secret" "sesame" db {u = user} refl
      refl refl

abbrev stored : RefreshToken
stored = record {
  id = 2;
  user_id = 1;
  tenant_id = 1;
  token_hash = "good";
  family_id = 9;
  is_revoked = false;
  revoked_at = none;
  revoked_reason = none;
  expires_at = 1000;
}

abbrev signed_in : Database
signed_in = record db { refresh_tokens = stored ∷ [] }

stored-IsHeld : IsHeld stored signed_in
unfolding find_by_id find_tenant find_by_user_id find_first
stored-IsHeld = record {
  user = user;
  known = refl;
  active = refl;
  tenant = _;
  of_tenant = refl;
  running = refl;
  employee = _;
  employed = refl;
  unbarred = refl;
}

refresh_tokens-replay_example :
    let first = refresh_tokens str_eq same 700 (ctx 5) "good" "fresh" signed_in in
    let second = refresh_tokens str_eq same 700 (ctx 6) "good" "other" first.1 in
    let third = refresh_tokens str_eq same 700 (ctx 7) "fresh" "last" second.1 in
    (first.0 ≡ ok "fresh")
    × (second.0 ≡ err (unauthorized "invalid_refresh_token"))
    × (third.0 ≡ err (unauthorized "invalid_refresh_token"))
unfolding find_by_token_hash find_first
refresh_tokens-replay_example =
    refresh_tokens-replay str_eq same 700 (ctx 5) (ctx 6) (ctx 7) "good" "fresh" "other" "last"
      signed_in {t = stored} refl refl refl stored-IsHeld refl
