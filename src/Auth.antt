-- ===== src/Auth.antt =====
-- AuthService (src/modules/auth/services/auth.service.ts): login, refresh, logout and the change of a
-- password. `verify` and `hash` are HashUtil's password hash, `sha256` its token hash, `raw` the random
-- refresh token and `ttl` its life. The access token with its roles and permissions, which are only
-- read, and the client's address are left out.
pub mod Users
pub mod Login
pub mod Lockout
pub mod Passwords
pub mod Replay
mod Tests
use hr_saas_platform.Shared.{
  ℕ, ◌+◌, ltb, leb, String, ◌==◌, if◌then◌else◌, Bool, true, false, not, ◌&&◌, ◌||◌, Option, none,
  some, List,
}
use hr_saas_platform.Shared.Table.{find_first}
use hr_saas_platform.Exceptions.{
  Exception, invalid_credentials, account_locked, unauthorized, forbidden, bad_request,
}
use hr_saas_platform.Events.{user_login, user_login_failed, password_changed, Actor, system, by}
use hr_saas_platform.Database.{User, Tenant, TenantStatus, Employee, EmployeeStatus}
use hr_saas_platform.Service.{
  Action, pure, throw, gets, found_or, throw_if, ◌>>=◌, ◌>>◌, Context, new_event, emit_async,
}
use hr_saas_platform.Employee.{is_status}
use hr_saas_platform.Token.{
  Rotated, generate_refresh_token, rotate_refresh_token, revoke_all_tokens, revoke_all_user_tokens,
}
use hr_saas_platform.Auth.Users.{
  find_by_id, find_by_email, update_password, increment_failed_attempts, lock_account,
  reset_failed_attempts,
}

abbrev pub max_failed_login_attempts : ℕ
max_failed_login_attempts = 5

-- LOCKOUT_DURATION_MINUTES * 60 * 1000
abbrev pub lockout_ms : ℕ
lockout_ms = 1800000

-- LoginDto
pub record LoginDto : Type 0 where
  pub email : String
  pub password : String
  pub tenant_id : ℕ

-- What a login returns, without the access token.
pub record Session : Type 0 where
  pub refresh_token : String
  pub user_id : ℕ
  pub employee_id : ℕ
  pub tenant_id : ℕ
  pub timezone : String

pub emit_login_failed : Context → String → Option ℕ → String → Action (Unit {0})
emit_login_failed ctx email user reason =
    emit_async ctx (new_event ctx none system (user_login_failed email user reason))

-- The event of a failed login, and the exception.
pub refuse : {A : Type 0} → Context → String → Option ℕ → String → Exception → Action A
refuse ctx email user reason e = do emit_login_failed ctx email user reason; throw e

pub handle_failed_login : Context → ℕ → String → Action (Unit {0})
handle_failed_login ctx user email = do
  attempts ← increment_failed_attempts user
  if leb max_failed_login_attempts attempts
      then lock_account user (ctx.now + lockout_ms)
      else pure tt
  emit_login_failed ctx email (some user) "invalid_password"

abbrev pub is_active_tenant : TenantStatus → Bool
is_active_tenant TenantStatus.active = true
is_active_tenant _ = false

unfoldable pub find_tenant : ℕ → List Tenant → Option Tenant
find_tenant id = find_first (λ t. t.id == id)

pub validate_tenant : ℕ → Action Tenant
validate_tenant id = do
  found ← gets (λ db. find_tenant id db.tenants)
  tenant ← found_or found (unauthorized "tenant_not_found")
  throw_if (not (is_active_tenant tenant.status)) (forbidden "tenant_not_active")
  pure tenant

-- `employeeFacade.resolveEmployeeContext`
unfoldable pub find_by_user_id : ℕ → ℕ → List Employee → Option Employee
find_by_user_id user tenant = find_first (λ e. e.user_id == user && e.tenant_id == tenant)

abbrev pub is_barred : EmployeeStatus → Bool
is_barred s = is_status s EmployeeStatus.suspended || is_status s EmployeeStatus.terminated

-- `lockedUntil && lockedUntil > new Date()`
abbrev pub is_locked : ℕ → User → Bool
is_locked now u = elim u.locked_until [ none ↦ false | some until ↦ ltb now until ]

-- `employee_${status}`, which is read for these two states only.
abbrev barred_reason : EmployeeStatus → String
barred_reason EmployeeStatus.terminated = "employee_terminated"
barred_reason _ = "employee_suspended"

abbrev locked_end : Option ℕ → ℕ
locked_end none = 0
locked_end (some until) = until

abbrev timezone_or : Option String → String → String
timezone_or none default = default
timezone_or (some tz) default = tz

module _ (verify : String → String → Bool) (sha256 : String → String) (ttl : ℕ) where
  -- Steps 10 to 12: the tokens, the counters and the event.
  pub open_session : Context → LoginDto → String → User → Tenant → Employee → Action Session
  open_session ctx dto raw user tenant employee = do
    token ← generate_refresh_token sha256 ttl ctx raw user.id dto.tenant_id none
    reset_failed_attempts ctx.now user.id
    emit_async ctx
        (new_event ctx (some dto.tenant_id) (by user.id) (user_login user.id employee.id))
    pure (record {
      refresh_token = token;
      user_id = user.id;
      employee_id = employee.id;
      tenant_id = dto.tenant_id;
      timezone = timezone_or employee.timezone tenant.default_timezone;
    })

  -- Steps 6 and 7.
  pub with_employee : Context → LoginDto → String → User → Tenant → Option Employee → Action Session
  with_employee ctx dto raw user tenant none =
      refuse ctx dto.email (some user.id) "no_employee_in_tenant" (unauthorized "no_employee")
  with_employee ctx dto raw user tenant (some employee) =
      if is_barred employee.status
      then refuse ctx dto.email (some user.id) (barred_reason employee.status)
          (forbidden "employee_barred")
      else open_session ctx dto raw user tenant employee

  -- Steps 2 to 5.
  pub with_user : Context → LoginDto → String → Option User → Action Session
  with_user ctx dto raw none = refuse ctx dto.email none "user_not_found" invalid_credentials
  with_user ctx dto raw (some user) =
      if not user.is_active
      then refuse ctx dto.email (some user.id) "account_inactive" (forbidden "account_inactive")
      else if is_locked ctx.now user
      then refuse ctx dto.email (some user.id) "account_locked"
          (account_locked (locked_end user.locked_until))
      else if not (verify dto.password user.password_hash)
      then (do handle_failed_login ctx user.id dto.email; throw invalid_credentials)
      else do
        tenant ← validate_tenant dto.tenant_id
        employee ← gets (λ db. find_by_user_id user.id dto.tenant_id db.employees)
        with_employee ctx dto raw user tenant employee

  pub login : (String → String) → Context → LoginDto → String → Action Session
  login normalize ctx dto raw = do
    found ← gets (λ db. find_by_email normalize dto.email db.users)
    with_user ctx dto raw found

  -- The tail of `refreshTokens`, once the employee is known.
  pub refresh_with : Context → String → Rotated → Option Employee → Action String
  refresh_with ctx raw rotated none = throw (unauthorized "no_employee")
  refresh_with ctx raw rotated (some employee) =
      if is_barred employee.status
      then throw (forbidden "employee_barred")
      else generate_refresh_token sha256 ttl ctx raw rotated.user_id rotated.tenant_id
          (some rotated.family_id)

  abbrev is_active_user : Option User → Bool
  is_active_user none = false
  is_active_user (some user) = user.is_active

  pub refresh_rotated : Context → String → Option Rotated → Action String
  refresh_rotated ctx raw none = throw (unauthorized "invalid_refresh_token")
  refresh_rotated ctx raw (some rotated) = do
    user ← gets (λ db. find_by_id rotated.user_id db.users)
    if not (is_active_user user)
        then (do
          revoke_all_user_tokens ctx.now rotated.user_id
          throw (unauthorized "account_not_active"))
        else do
          validate_tenant rotated.tenant_id
          employee ← gets (λ db. find_by_user_id rotated.user_id rotated.tenant_id db.employees)
          refresh_with ctx raw rotated employee

  -- `refreshTokens`: the token that is presented, and the random one that replaces it.
  pub refresh_tokens : Context → String → String → Action String
  refresh_tokens ctx presented raw = do
    rotated ← rotate_refresh_token sha256 ctx.now presented
    refresh_rotated ctx raw rotated

  pub change_password : (String → String) → Context → ℕ → ℕ → String → String → Action (Unit {0})
  change_password hash ctx user_id tenant current new = do
    found ← gets (λ db. find_by_id user_id db.users)
    user ← found_or found (unauthorized "user_not_found")
    throw_if (not (verify current user.password_hash)) (bad_request "current_password_incorrect")
    throw_if (verify new user.password_hash) (bad_request "same_password")
    update_password ctx.now user_id (hash new)
    revoke_all_user_tokens ctx.now user_id
    emit_async ctx
        (new_event ctx (some tenant) (by user_id) (password_changed user_id user_id "self_change"))

pub logout : ℕ → ℕ → ℕ → Action (Unit {0})
logout now user tenant = revoke_all_tokens now user tenant
