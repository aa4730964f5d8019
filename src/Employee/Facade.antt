-- ===== src/Employee/Facade.antt =====
-- What EmployeeFacade (src/modules/employee/facades/employee.facade.ts) answers to the controller of
-- departments, with the query of EmployeeRepository behind it.
use hr_saas_platform.Shared.{ℕ, ◌==◌, ◌=?=◌, Bool, false, not, ◌&&◌, Option, none, some, List}
use hr_saas_platform.Shared.Table.{count_where}
use hr_saas_platform.Database.{Employee, EmployeeStatus}
use hr_saas_platform.Employee.{is_status, find_by_id}

-- Neither terminated nor suspended.
abbrev pub is_working : Option Employee → Bool
is_working none = false
is_working (some e) =
    not (is_status e.status EmployeeStatus.terminated)
    && not (is_status e.status EmployeeStatus.suspended)

unfoldable pub is_employee_active : ℕ → ℕ → List Employee → Bool
unfolding find_by_id
is_employee_active id tenant employees = is_working (find_by_id id tenant employees)

-- Non-terminated employees of a department.
unfoldable pub count_active_in_department : ℕ → ℕ → List Employee → ℕ
count_active_in_department department tenant = count_where (λ e.
    e.tenant_id == tenant
    && (e.department_id =?= some department && not (is_status e.status EmployeeStatus.terminated)))
