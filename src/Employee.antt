-- ===== src/Employee.antt =====
-- Employees: the status, with the transitions of
-- src/modules/employee/constants/employee-status.constants.ts and `changeStatus` of EmployeeService
-- with what it does to departments and devices. `today` is DateUtil's rendering of a time as a date.
pub mod Status
pub mod Effects
pub mod Final
pub mod Facade
pub mod Salary
mod Tests
use mathlib.Core.Option
use text.Mathlib.Text.{◌==◌ as str_eq}
use hr_saas_platform.Shared.{
  ℕ, String, ◌==◌, if◌then◌else◌, Bool, true, false, not, ◌&&◌, ◌||◌, Option, none, some, List, [],
  ◌∷◌,
}
use hr_saas_platform.Shared.Table.{find_first, update_where}
use hr_saas_platform.Exceptions.{resource_not_found, employee_invalid_status_transition}
use hr_saas_platform.Events.{employee_status_changed, by}
use hr_saas_platform.Database.{Employee, EmployeeStatus}
use hr_saas_platform.Database.EmployeeStatus.{active, on_probation, on_leave, suspended, terminated}
use hr_saas_platform.Service.{
  ok, Action, pure, gets, found_or, throw_if, ◌>>=◌, ◌>>◌, Context, current_tenant_id, new_event,
  emit_async,
}
use hr_saas_platform.Department.Repository.{clear_manager}
use hr_saas_platform.Device.{deactivate_all_for_employee}

-- VALID_EMPLOYEE_STATUS_TRANSITIONS
unfoldable pub valid_transitions : EmployeeStatus → List EmployeeStatus
valid_transitions active = on_probation ∷ on_leave ∷ suspended ∷ terminated ∷ []
valid_transitions on_probation = active ∷ terminated ∷ []
valid_transitions on_leave = active ∷ terminated ∷ []
valid_transitions suspended = active ∷ terminated ∷ []
valid_transitions terminated = []

-- The string of a status.
abbrev pub status_name : EmployeeStatus → String
status_name active = "active"
status_name on_probation = "on_probation"
status_name on_leave = "on_leave"
status_name suspended = "suspended"
status_name terminated = "terminated"

abbrev pub is_status : EmployeeStatus → EmployeeStatus → Bool
is_status active active = true
is_status on_probation on_probation = true
is_status on_leave on_leave = true
is_status suspended suspended = true
is_status terminated terminated = true
is_status _ _ = false

-- `statuses.includes(next)`
abbrev pub includes : EmployeeStatus → List EmployeeStatus → Bool
includes next [] = false
includes next (s ∷ statuses) = is_status s next || includes next statuses

unfoldable pub is_valid_transition : EmployeeStatus → EmployeeStatus → Bool
unfolding valid_transitions
is_valid_transition current next = includes next (valid_transitions current)

-- WHERE id = … AND tenant_id = …
abbrev pub has_id : ℕ → ℕ → Employee → Bool
has_id id tenant e = e.id == id && e.tenant_id == tenant

unfoldable pub find_by_id : ℕ → ℕ → List Employee → Option Employee
find_by_id id tenant = find_first (has_id id tenant)

-- The columns that `changeStatus` sets: the status, and a termination date if there is one.
unfoldable pub set_status : ℕ → EmployeeStatus → Option String → Employee → Employee
set_status now status none e = record e { status = status; updated_at = now }
set_status now status (some date) e = record e {
  status = status;
  termination_date = some date;
  updated_at = now;
}

unfoldable pub update : ℕ → ℕ → ℕ → EmployeeStatus → Option String → Action (Option Employee)
unfolding find_by_id set_status
update now id tenant status date db = (
  ok (Option.map (set_status now status date) (find_by_id id tenant db.employees)),
  record db {
    employees = update_where (has_id id tenant) (set_status now status date) db.employees;
  },
)

-- ChangeEmployeeStatusDto
pub record ChangeEmployeeStatusDto : Type 0 where
  pub status : EmployeeStatus
  pub reason : Option String
  pub termination_date : Option String

abbrev date_or : Option String → String → String
date_or none today = today
date_or (some date) today = date

-- The date of the event, which is null unless the employee is terminated.
unfoldable pub termination_date : String → ChangeEmployeeStatusDto → Option String
termination_date today dto =
    if is_status dto.status terminated then some (date_or dto.termination_date today) else none

-- `if (date)`: the empty string is not set.
abbrev non_empty : Option String → Option String
non_empty none = none
non_empty (some date) = if str_eq date "" then none else some date

-- `findOrFail`
pub find_or_fail : ℕ → ℕ → Action Employee
find_or_fail id tenant = do
  found ← gets (λ db. find_by_id id tenant db.employees)
  found_or found (resource_not_found "Employee" id)

abbrev clear_if : Bool → ℕ → ℕ → ℕ → Action (Unit {0})
clear_if true now id tenant = clear_manager now id tenant
clear_if false now id tenant = pure tt

abbrev revoke_if : Bool → Context → ℕ → Action (Unit {0})
revoke_if true ctx id = deactivate_all_for_employee ctx id
revoke_if false ctx id = pure tt

pub change_status : (ℕ → String) → Context → ℕ → ChangeEmployeeStatusDto → ℕ → Action Employee
change_status today ctx id dto updated_by = do
  tenant ← current_tenant_id ctx
  employee ← find_or_fail id tenant
  throw_if (not (is_valid_transition employee.status dto.status))
      (employee_invalid_status_transition id)
  let date = termination_date (today ctx.now) dto
  row ← update ctx.now id tenant dto.status (non_empty date)
  updated ← found_or row (resource_not_found "Employee" id)
  clear_if (is_status dto.status terminated || is_status dto.status suspended) ctx.now id tenant
  revoke_if (is_status dto.status terminated) ctx id
  emit_async ctx (
      new_event ctx (some tenant) (by updated_by) (
        employee_status_changed id (status_name employee.status) (status_name dto.status) dto.reason
          date))
  pure updated
