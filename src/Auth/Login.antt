-- ===== src/Auth/Login.antt =====
-- What a login that succeeds has checked.
use hr_saas_platform.Shared.{
  ℕ, String, Bool, true, false, ◌≡◌, refl, Option, none, some, inl, inr, Bool-cases, Option-cases,
}
use hr_saas_platform.Exceptions.{Exception, invalid_credentials}
use hr_saas_platform.Database.{Database, User, Tenant, Employee}
use hr_saas_platform.Service.{Result, ok, err, hang, Action, throw, continue, ◌>>=◌, ◌>>◌, Context}
use hr_saas_platform.Auth.Users.{find_by_email}
use hr_saas_platform.Auth.{
  LoginDto, Session, refuse, handle_failed_login, emit_login_failed, is_active_tenant, find_tenant,
  validate_tenant, find_by_user_id, is_barred, is_locked, open_session, with_employee, with_user,
  login,
}

-- The user, the tenant and the employee that a session needs.
pub record IsAdmitted (verify : String → String → Bool) (normalize : String → String) (now : ℕ)
    (dto : LoginDto) (db : Database) : Type 0 where
  pub user : User
  pub tenant : Tenant
  pub employee : Employee
  pub user_found : find_by_email normalize dto.email db.users ≡ some user
  pub active : user.is_active ≡ true
  pub unlocked : is_locked now user ≡ false
  pub verified : verify dto.password user.password_hash ≡ true
  pub tenant_found : find_tenant dto.tenant_id db.tenants ≡ some tenant
  pub tenant_active : is_active_tenant tenant.status ≡ true
  pub employee_found : find_by_user_id user.id dto.tenant_id db.employees ≡ some employee
  pub admitted : is_barred employee.status ≡ false

-- What ends in a throw returns no value.
then_throw :
    {A B : Type 0} (m : Action A) (e : Exception) (db : Database) {b : B}
    → ((m >> throw {A = B} e) db).0 ≡ ok b
    → ⊥
unfolding ◌>>=◌
then_throw {A} {B} m e db {b} h = go (m db).0 (m db).1 h
  where
    go : (r : Result A) (db' : Database) → (continue r (λ _. throw {A = B} e) db').0 ≡ ok b → ⊥
    go (ok a) db' h = cc h
    go (err e') db' h = cc h
    go hang db' h = cc h

refused :
    {A : Type 0} (ctx : Context) (email : String) (user : Option ℕ) (reason : String)
    (e : Exception) (db : Database) {b : A}
    → (refuse ctx email user reason e db).0 ≡ ok b
    → ⊥
unfolding refuse
refused {A} ctx email user reason e db {b} h =
    then_throw {B = A} (emit_login_failed ctx email user reason) e db {b = b} h

module _ (verify : String → String → Bool) (sha256 : String → String) (ttl : ℕ) (ctx : Context)
    (dto : LoginDto) (raw : String) (db : Database) where
  abbrev Admits : User → Tenant → Option Employee → Type 0
  Admits user tenant found =
      (employee : Employee) × (found ≡ some employee) × (is_barred employee.status ≡ false)

  with_employee_lem :
      {s : Session} (user : User) (tenant : Tenant) (found : Option Employee)
      → (with_employee verify sha256 ttl ctx dto raw user tenant found db).0 ≡ ok s
      → Admits user tenant found
  unfolding with_employee
  with_employee_lem {s} user tenant none h = absurd (refused _ _ _ _ _ db {b = s} h)
  with_employee_lem {s} user tenant (some employee) h =
      elim (Bool-cases (is_barred employee.status)) [
        | inl barred ↦ absurd (refused _ _ _ _ _ db {b = s} (rw barred at h))
        | inr free ↦ (employee, refl, free)
      ]

-- A login that returns a session has found an active user that is not locked out and whose password
-- is verified, an active tenant, and the user's employee there, neither suspended nor terminated.
pub login-IsAdmitted :
    (verify : String → String → Bool) (sha256 : String → String) (ttl : ℕ)
    (normalize : String → String) (ctx : Context) (dto : LoginDto) (raw : String) (db : Database)
    {s : Session}
    → (login verify sha256 ttl normalize ctx dto raw db).0 ≡ ok s
    → IsAdmitted verify normalize ctx.now dto db
unfolding login with_user with_employee refuse validate_tenant ◌>>=◌ open_session
login-IsAdmitted verify sha256 ttl normalize ctx dto raw db {s} h =
    elim (Option-cases (find_by_email normalize dto.email db.users)) [
      | inl missing ↦ absurd (refused _ _ _ _ _ db {b = s} (rw missing at h))
      | inr (user, found) ↦ elim (Bool-cases user.is_active) [
        | inr idle ↦ absurd (refused _ _ _ _ _ db {b = s} (rw (found, idle) at h))
        | inl active ↦ elim (Bool-cases (is_locked ctx.now user)) [
          | inl locked ↦ absurd (refused _ _ _ _ _ db {b = s} (rw (found, active, locked) at h))
          | inr unlocked ↦ elim (Bool-cases (verify dto.password user.password_hash)) [
            | inr wrong ↦ absurd (
                then_throw {B = Session} (handle_failed_login ctx user.id dto.email)
                  invalid_credentials db {b = s} (rw (found, active, unlocked, wrong) at h))
            | inl verified ↦ elim (Option-cases (find_tenant dto.tenant_id db.tenants)) [
              | inl gone ↦ absurd (cc (rw (found, active, unlocked, verified, gone) at h))
              | inr (tenant, here) ↦ elim (Bool-cases (is_active_tenant tenant.status)) [
                | inr closed ↦
                    absurd (cc (rw (found, active, unlocked, verified, here, closed) at h))
                | inl open' ↦
                    let (employee, employed, free) =
                      with_employee_lem verify sha256 ttl ctx dto raw db {s = s} user tenant
                        (find_by_user_id user.id dto.tenant_id db.employees)
                        (rw (found, active, unlocked, verified, here, open') at h) in
                    record {
                      user = user;
                      tenant = tenant;
                      employee = employee;
                      user_found = found;
                      active = active;
                      unlocked = unlocked;
                      verified = verified;
                      tenant_found = here;
                      tenant_active = open';
                      employee_found = employed;
                      admitted = free;
                    }
              ]
            ]
          ]
        ]
      ]
    ]
