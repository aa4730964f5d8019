-- ===== src/Employee/Salary.antt =====
-- The salary of an employee: `updateSalary` and `getEmployeeSalary` of EmployeeService
-- (src/modules/employee/services/employee.service.ts), with EncryptionService. An amount is in cents,
-- which `to_fixed` renders as Number.toFixed(2) does, and `today` is DateUtil's rendering of a time.
use hr_saas_platform.Shared.{ℕ, length, String, false, ◌≡◌, refl, ◌∙◌, Option, none, some, List, []}
use hr_saas_platform.Shared.Table.{update_where, insert, find_first-update_where, find_first-Memᴰ}
use hr_saas_platform.Exceptions.{employee_already_terminated, internal_server_error}
use hr_saas_platform.Events.{employee_salary_updated, by}
use hr_saas_platform.Database.{Database, Employee, EmployeeStatus, SalaryHistory}
use hr_saas_platform.Service.{
  ok, Action, pure, throw, throw_if, modify, ◌>>=◌, ◌>>◌, Context, current_tenant_id, new_event,
  emit_async,
}
use hr_saas_platform.Utils.Encryption.{
  Returned, returned, key_version_not_found, not_authentic, get_key, encrypt, decrypt,
  decrypt-encrypt,
}
use hr_saas_platform.Employee.{is_status, has_id, find_by_id, find_or_fail}

-- UpdateSalaryDto
pub record UpdateSalaryDto : Type 0 where
  pub base_salary : ℕ
  pub salary_currency : Option String
  pub change_reason : String
  pub effective_date : Option String
  pub notes : Option String

-- SalaryResponseDto
pub record SalaryResponseDto : Type 0 where
  pub employee_id : ℕ
  pub base_salary : String
  pub salary_currency : String
  pub effective_date : String

-- `value ?? other`
abbrev pub or_default : Option String → String → String
or_default none other = other
or_default (some value) other = value

-- The text of an encryption or a decryption, whose errors the exception filter answers with 500.
abbrev pub text_of : Returned → Action String
text_of (returned (some text)) = pure text
text_of (returned none) = throw internal_server_error
text_of (key_version_not_found version) = throw internal_server_error
text_of not_authentic = throw internal_server_error

abbrev pub set_salary : ℕ → String → String → Employee → Employee
set_salary now encrypted currency e = record e {
  base_salary_encrypted = encrypted;
  salary_currency = currency;
  updated_at = now;
}

-- `employeeRepo.update` of the salary and its currency.
unfoldable pub write_salary : ℕ → ℕ → ℕ → String → String → Action (Unit {0})
write_salary now id tenant encrypted currency = modify (λ db. record db {
  employees = update_where (has_id id tenant) (set_salary now encrypted currency) db.employees;
})

-- `salaryHistoryRepo.create`
unfoldable pub create_history : SalaryHistory → Action (Unit {0})
unfolding insert
create_history row = modify (λ db. record db { salary_history = insert row db.salary_history })

module _ {Key : Type 0} (keys : List (ℕ × Key)) where
  module _ (cipher : Key → List ℕ → String → List ℕ × List ℕ) (to_base64 : List ℕ → String)
      (to_fixed today : ℕ → String) where
    -- The second argument is the random IV.
    unfoldable pub update_salary :
        Context → List ℕ → ℕ → UpdateSalaryDto → ℕ → Action SalaryResponseDto
    unfolding encrypt write_salary create_history ◌>>=◌ current_tenant_id emit_async
    update_salary ctx iv id dto updated_by = do
      tenant ← current_tenant_id ctx
      employee ← find_or_fail id tenant
      throw_if (is_status employee.status EmployeeStatus.terminated)
          (employee_already_terminated id)
      let effective_date = or_default dto.effective_date (today ctx.now)
      let new_salary = to_fixed dto.base_salary
      let currency = or_default dto.salary_currency employee.salary_currency
      encrypted ← text_of (encrypt cipher to_base64 keys iv (some new_salary))
      write_salary ctx.now id tenant encrypted currency
      create_history (record {
        id = ctx.uuid 0;
        tenant_id = tenant;
        employee_id = id;
        base_salary_encrypted = encrypted;
        salary_currency = currency;
        effective_date = effective_date;
        change_reason = dto.change_reason;
        notes = dto.notes;
        changed_by = updated_by;
      })
      emit_async ctx (
          new_event ctx (some tenant) (by updated_by)
            (employee_salary_updated id dto.change_reason effective_date))
      pure (record {
        employee_id = id;
        base_salary = new_salary;
        salary_currency = currency;
        effective_date = effective_date;
      })

  module _ (decipher : Key → List ℕ → List ℕ → List ℕ → Option String)
      (from_base64 : String → List ℕ) where
    unfoldable pub get_employee_salary : Context → ℕ → Action SalaryResponseDto
    unfolding decrypt ◌>>=◌ current_tenant_id
    get_employee_salary ctx id = do
      tenant ← current_tenant_id ctx
      employee ← find_or_fail id tenant
      decrypted ← text_of (decrypt decipher from_base64 keys (some employee.base_salary_encrypted))
      pure (record {
        employee_id = employee.id;
        base_salary = decrypted;
        salary_currency = employee.salary_currency;
        effective_date = employee.hire_date;
      })

-- The employee that a read finds after the salary is written.
find_by_id-write_salary :
    (now id tenant : ℕ) (encrypted currency : String) (employees : List Employee) {e : Employee}
    → find_by_id id tenant employees ≡ some e
    → find_by_id id tenant
        (update_where (has_id id tenant) (set_salary now encrypted currency) employees)
      ≡ some (set_salary now encrypted currency e)
unfolding find_by_id
find_by_id-write_salary now id tenant encrypted currency employees {e} found =
    let set = set_salary now encrypted currency in
    let (m, hit) = find_first-Memᴰ (has_id id tenant) employees found in
    find_first-update_where (has_id id tenant) (has_id id tenant) set employees (λ r. refl)
    ∙ rw (found, hit) refl

-- The currency that was sent, or else the one from before.
abbrev pub IsCurrency : Option String → String → String → Type 0
IsCurrency (some sent) before after = after ≡ sent
IsCurrency none before after = after ≡ before

or_default-IsCurrency :
    (sent : Option String) (before : String) → IsCurrency sent before (or_default sent before)
or_default-IsCurrency (some sent) before = refl
or_default-IsCurrency none before = refl

-- Node's functions, and the renderings of amounts and dates.
module _ {Key : Type 0} (cipher : Key → List ℕ → String → List ℕ × List ℕ)
    (decipher : Key → List ℕ → List ℕ → List ℕ → Option String) (to_base64 : List ℕ → String)
    (from_base64 : String → List ℕ)
    (base64_inverse : (bytes : List ℕ) → from_base64 (to_base64 bytes) ≡ bytes)
    (base64_empty : from_base64 "" ≡ []) (to_fixed today : ℕ → String) where
  -- Where base64 keeps buffers, the IV has twelve bytes, and node decrypts what it has encrypted of the
  -- new amount, with a tag of sixteen bytes: `updateSalary` of an employee of the tenant who is not
  -- terminated returns the new amount with the currency that was sent, or else the one from before, and
  -- then `getEmployeeSalary` returns the same amount and currency, but the date of hiring for the
  -- effective date.
  pub get_employee_salary-update_salary :
      (keys : List (ℕ × Key)) (key : Key) (iv : List ℕ) (ctx : Context) (tenant id updated_by : ℕ)
      (dto : UpdateSalaryDto) (e : Employee) (db : Database)
      → ctx.tenant_id ≡ some tenant
      → find_by_id id tenant db.employees ≡ some e
      → is_status e.status EmployeeStatus.terminated ≡ false
      → get_key 1 keys ≡ some key
      → length iv ≡ 12
      → length (cipher key iv (to_fixed dto.base_salary)).1 ≡ 16
      → decipher key iv
          (cipher key iv (to_fixed dto.base_salary)).1
          (cipher key iv (to_fixed dto.base_salary)).0
        ≡ some (to_fixed dto.base_salary)
      → (after : Database) × (response : SalaryResponseDto) × (update_salary keys cipher to_base64
            to_fixed today ctx iv id dto updated_by db
          ≡ (ok response, after))
        × (response.base_salary ≡ to_fixed dto.base_salary)
        × IsCurrency dto.salary_currency e.salary_currency response.salary_currency
        × (get_employee_salary keys decipher from_base64 ctx id after
            ≡ (ok (record response { employee_id = e.id; effective_date = e.hire_date }), after))
  unfolding update_salary get_employee_salary write_salary create_history find_or_fail ◌>>=◌
      current_tenant_id emit_async
  get_employee_salary-update_salary keys key iv ctx tenant id updated_by dto e db here found working
        has_key iv_ok tag_ok authentic =
      let text = to_fixed dto.base_salary in
      let (stored, encrypts, decrypts) =
        decrypt-encrypt cipher decipher to_base64 from_base64 base64_inverse base64_empty keys keys
          key iv text has_key has_key iv_ok tag_ok authentic in
      rw (here, found, working, encrypts)
        (
          _,
          _,
          refl,
          refl,
          or_default-IsCurrency dto.salary_currency e.salary_currency,
          rw
              (
                find_by_id-write_salary ctx.now id tenant stored
                    (or_default dto.salary_currency e.salary_currency) db.employees found,
                decrypts,
              )
              refl,
        )
