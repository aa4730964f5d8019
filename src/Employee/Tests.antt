-- ===== src/Employee/Tests.antt =====
-- An employee who manages a department and has a device, and one who was terminated.
use hr_saas_platform.Shared.{ℕ, ◌+◌, String, true, ◌≡◌, refl, ◌↔◌, none, some, [], ◌∷◌}
use hr_saas_platform.Shared.Table.{find_first}
use hr_saas_platform.Database.{Database, Employee, EmployeeStatus, empty}
use hr_saas_platform.Database.EmployeeStatus.{active, suspended, terminated}
use hr_saas_platform.Service.{Context, ok}
use hr_saas_platform.Employee.{
  find_by_id, is_valid_transition, ChangeEmployeeStatusDto, change_status,
}
use hr_saas_platform.Utils.Encryption.{get_key}
use hr_saas_platform.Utils.Letters.{
  written, read, read-written, read-empty, cipher, decipher, twelve,
}
use hr_saas_platform.Employee.Salary.{
  UpdateSalaryDto, SalaryResponseDto, update_salary, get_employee_salary,
  get_employee_salary-update_salary,
}
use hr_saas_platform.Employee.Status.{Lifecycle, is_valid_transition-Lifecycle}
use hr_saas_platform.Employee.Effects.{IsChanged, change_status-IsChanged}
use hr_saas_platform.Employee.Final.{start, step, Changes-terminated}

abbrev employee : ℕ → EmployeeStatus → Employee
employee id status = record {
  id = id;
  tenant_id = 1;
  user_id = id;
  employee_number = "E";
  first_name = "A";
  last_name = "B";
  department_id = some 10;
  position = none;
  employment_type = "full_time";
  base_salary_encrypted = "";
  salary_currency = "USD";
  hire_date = "2024-01-01";
  termination_date = none;
  timezone = none;
  locale = none;
  status = status;
  bank_account_encrypted = none;
  tax_id_encrypted = none;
  updated_at = 0;
}

abbrev db : Database
db = record empty {
  departments =
      record {
        id = 10;
        tenant_id = 1;
        name = "Engineering";
        parent_id = none;
        manager_employee_id = some 5;
        is_active = true;
        created_at = 0;
        updated_at = 0;
      }
      ∷ [];
  employees = employee 4 terminated ∷ employee 5 active ∷ [];
  employee_devices =
      record {
        id = 30;
        tenant_id = 1;
        employee_id = 5;
        device_id = "a";
        device_name = none;
        device_os = none;
        fcm_token = none;
        is_active = true;
        registered_at = 0;
        last_used_at = none;
      }
      ∷ [];
}

abbrev ctx : Context
ctx = record { tenant_id = some 1; now = 5; uuid = λ n. n + 100 }

abbrev today : ℕ → String
today now = "2026-01-01"

abbrev to : EmployeeStatus → ChangeEmployeeStatusDto
to status = record { status = status; reason = none; termination_date = none }

change_status-IsChanged_example :
    IsChanged 5 1 terminated (change_status today ctx 5 (to terminated) 7 db)
unfolding find_by_id find_first is_valid_transition
change_status-IsChanged_example =
    change_status-IsChanged today ctx 1 5 (to terminated) 7 db {e = employee 5 active} refl refl
      refl

is_valid_transition-Lifecycle_example :
    (is_valid_transition suspended active ≡ true) ↔ Lifecycle suspended active
is_valid_transition-Lifecycle_example = is_valid_transition-Lifecycle suspended active

Changes-terminated_example :
    find_by_id 4 1 (change_status today ctx 4 (to active) 7 db).1.employees
    ≡ some (employee 4 terminated)
unfolding find_by_id find_first
Changes-terminated_example =
    Changes-terminated today 4 1 (employee 4 terminated) {before = db} refl refl
      (step {db = db} ctx 4 (to active) 7 start)

abbrev to_fixed : ℕ → String
to_fixed cents = "75000.00"

abbrev raise : UpdateSalaryDto
raise = record {
  base_salary = 7500000;
  salary_currency = some "EUR";
  change_reason = "promotion";
  effective_date = some "2027-01-01";
  notes = none;
}

five_there : find_by_id 5 1 db.employees ≡ some (employee 5 active)
unfolding find_by_id find_first
five_there = refl

first_key : get_key {Key = ℕ} 1 ((1, 7) ∷ []) ≡ some 7
unfolding get_key
first_key = refl

get_employee_salary-update_salary_example :
    (after : Database) × (response : SalaryResponseDto) × (update_salary
        ((1, 7) ∷ [])
        cipher
        written
        to_fixed
        today
        ctx
        twelve
        5
        raise
        2
        db
      ≡ (ok response, after))
    × (response.base_salary ≡ "75000.00")
    × (response.salary_currency ≡ "EUR")
    × (get_employee_salary ((1, 7) ∷ []) decipher read ctx 5 after
        ≡ (ok (record response { employee_id = 5; effective_date = "2024-01-01" }), after))
get_employee_salary-update_salary_example =
    get_employee_salary-update_salary cipher decipher written read read-written read-empty to_fixed
      today ((1, 7) ∷ []) 7 twelve ctx 1 5 2 raise (employee 5 active) db refl five_there refl
      first_key refl refl refl
