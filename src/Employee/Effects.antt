-- ===== src/Employee/Effects.antt =====
-- A change of status, and what it does to the employee's departments and devices.
use mathlib.Core.Option
use hr_saas_platform.Shared.{
  ℕ, String, true, false, ◌||◌, ◌≡◌, refl, ap, ◌∙◌, Option, none, some, List, arith,
}
use hr_saas_platform.Shared.Table.{
  update_where, count_where, find_first-Memᴰ, find_first-update_where, count_where-switched_off,
}
use hr_saas_platform.Database.{Database, Employee, EmployeeStatus, Department, EmployeeDevice}
use hr_saas_platform.Database.EmployeeStatus.{active, on_probation, on_leave, suspended, terminated}
use hr_saas_platform.Service.{Result, ok, ◌>>=◌, Context, current_tenant_id, emit_async}
use hr_saas_platform.Department.Repository.{is_managed_by, clear_manager, apply_patch, no_change}
use hr_saas_platform.Device.{deactivate_all_for_employee}
use hr_saas_platform.Device.Repository.{is_active_of, count_active_by_employee, deactivate_all}
use hr_saas_platform.Device.Repository as Devices
use hr_saas_platform.Employee.{
  is_status, is_valid_transition, has_id, find_by_id, set_status, update, ChangeEmployeeStatusDto,
  find_or_fail, change_status,
}

pub set_status-status :
    (now : ℕ) (status : EmployeeStatus) (date : Option String) (e : Employee)
    → ((set_status now status date e).status ≡ status)
      × ((set_status now status date e).id ≡ e.id)
      × ((set_status now status date e).tenant_id ≡ e.tenant_id)
unfolding set_status
set_status-status now status none e = (refl, refl, refl)
set_status-status now status (some date) e = (refl, refl, refl)

module _ (now id tenant : ℕ) (status : EmployeeStatus) (date : Option String) (rows : List Employee)
    {e : Employee} (found : find_by_id id tenant rows ≡ some e) where
  -- The row that the update returns is the one that is found after it.
  updated_found :
      find_by_id id tenant (update_where (has_id id tenant) (set_status now status date) rows)
      ≡ some (set_status now status date e)
  unfolding find_by_id
  updated_found =
      let (m, hit) = find_first-Memᴰ (has_id id tenant) rows {r = e} found in
      find_first-update_where (has_id id tenant) (has_id id tenant) (set_status now status date)
        rows (λ r. let (_, same, here) = set_status-status now status date r in cc (same, here))
      ∙ (ap (Option.map _) found ∙ rw hit refl)

no_department :
    (now id tenant : ℕ) (rows : List Department)
    → count_where (is_managed_by id tenant) (
        update_where
          (is_managed_by id tenant)
          (apply_patch now (record no_change { manager_employee_id = some none }))
          rows)
      ≡ 0
unfolding apply_patch
no_department now id tenant rows =
    count_where-switched_off (is_managed_by id tenant) (is_managed_by id tenant) _ rows
      (λ r hit. ground arith) (λ r miss. miss)

no_device :
    (id tenant : ℕ) (rows : List EmployeeDevice)
    → count_active_by_employee id tenant (
        update_where
          (is_active_of id tenant)
          (Devices.apply_patch (record Devices.no_change { is_active = some false }))
          rows)
      ≡ 0
unfolding count_active_by_employee Devices.apply_patch
no_device id tenant rows =
    count_where-switched_off (is_active_of id tenant) (is_active_of id tenant) _ rows
      (λ r hit. ground arith) (λ r miss. miss)

-- The row that a change to a status has left, and what the status rules out.
abbrev pub IsChanged : ℕ → ℕ → EmployeeStatus → Result Employee × Database → Type 0
IsChanged id tenant status out =
    (row : Employee) × (out.0 ≡ ok row)
    × (row.status ≡ status)
    × (find_by_id id tenant out.1.employees ≡ some row)
    × ((is_status status terminated || is_status status suspended) ≡ true
        → count_where (is_managed_by id tenant) out.1.departments ≡ 0)
    × (is_status status terminated ≡ true
        → count_active_by_employee id tenant out.1.employee_devices ≡ 0)

-- A valid change of an employee of the tenant succeeds: the employee is found with the new status,
-- a suspended or terminated employee manages no department, and a terminated one has no active
-- device.
pub change_status-IsChanged :
    (today : ℕ → String) (ctx : Context) (tenant id : ℕ) (dto : ChangeEmployeeStatusDto) (actor : ℕ)
    (db : Database) {e : Employee}
    → ctx.tenant_id ≡ some tenant
    → find_by_id id tenant db.employees ≡ some e
    → is_valid_transition e.status dto.status ≡ true
    → IsChanged id tenant dto.status (change_status today ctx id dto actor db)
unfolding change_status find_or_fail update ◌>>=◌ current_tenant_id emit_async clear_manager
    deactivate_all_for_employee deactivate_all
change_status-IsChanged today ctx tenant id dto actor db {e} here found valid = go dto.status refl
  where
    go :
        (s : EmployeeStatus)
        → dto.status ≡ s
        → IsChanged id tenant dto.status (change_status today ctx id dto actor db)
    go terminated same =
        rw (here, found, valid, found, same)
          (
            _,
            refl,
            (set_status-status ctx.now _ _ e).0,
            updated_found ctx.now id tenant _ _ db.employees found,
            λ _. no_department ctx.now id tenant db.departments,
            λ _. no_device id tenant db.employee_devices,
          )
    go suspended same =
        rw (here, found, valid, found, same)
          (
            _,
            refl,
            (set_status-status ctx.now _ _ e).0,
            updated_found ctx.now id tenant _ _ db.employees found,
            λ _. no_department ctx.now id tenant db.departments,
            λ no. absurd (cc no),
          )
    go active same =
        rw (here, found, valid, found, same)
          (
            _,
            refl,
            (set_status-status ctx.now _ _ e).0,
            updated_found ctx.now id tenant _ _ db.employees found,
            λ no. absurd (cc no),
            λ no. absurd (cc no),
          )
    go on_probation same =
        rw (here, found, valid, found, same)
          (
            _,
            refl,
            (set_status-status ctx.now _ _ e).0,
            updated_found ctx.now id tenant _ _ db.employees found,
            λ no. absurd (cc no),
            λ no. absurd (cc no),
          )
    go on_leave same =
        rw (here, found, valid, found, same)
          (
            _,
            refl,
            (set_status-status ctx.now _ _ e).0,
            updated_found ctx.now id tenant _ _ db.employees found,
            λ no. absurd (cc no),
            λ no. absurd (cc no),
          )
