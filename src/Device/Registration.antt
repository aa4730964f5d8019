-- ===== src/Device/Registration.antt =====
-- What a registration does to the number of an employee's active devices.
use hr_saas_platform.Shared.{
  ℕ, suc, leb, ◌==◌, ==_refl, ◌≤◌, ◌<◌, true, false, ◌≡◌, refl, ap, ◌∙◌, none, some, List, arith,
  inl, inr, ◌⊎◌, Bool-cases,
}
use hr_saas_platform.Shared.Table.{
  exists_where, count_where, insert, find_first-Memᴰ, find_first_of_Memᴰ, count_where-insert,
  count_where-switched_on, Memᴰ-unique, count_where-pos, count_where-le,
}
use hr_saas_platform.Exceptions.{
  Exception, device_limit_reached, device_belongs_to_other_employee, unique_violation,
}
use hr_saas_platform.Database.{Database, EmployeeDevice}
use hr_saas_platform.Service.{Result, ok, err, ◌>>=◌, Context, current_tenant_id}
use hr_saas_platform.Device.Repository.{
  is_own, has_id, is_active_of, find_by_id, find_by_device_id, count_active_by_employee,
  find_by_device_id_and_employee, create, apply_patch, update,
}
use hr_saas_platform.Device.{
  RegisterDeviceDto, max_devices_per_employee, is_active_device, update_own, register_again,
  register_new, register_device,
}

-- A refusal that writes nothing.
abbrev pub IsRefused : {A : Type 0} → Database → Result A × Database → Type 0
IsRefused db out = (e : Exception) × (out ≡ (err e, db))

-- The row is the device of the request.
pub record IsDeviceOf (employee tenant now : ℕ) (dto : RegisterDeviceDto) (row : EmployeeDevice)
    : Type 0 where
  pub of_tenant : row.tenant_id ≡ tenant
  pub of_employee : row.employee_id ≡ employee
  pub device : row.device_id ≡ dto.device_id
  pub name : row.device_name ≡ dto.device_name
  pub os : row.device_os ≡ dto.device_os
  pub token : row.fcm_token ≡ dto.fcm_token
  pub active : row.is_active ≡ true
  pub registered : row.registered_at ≡ now

-- The device is written as the last row, active, within the limit.
abbrev pub IsRegistered :
    ℕ → ℕ → ℕ → RegisterDeviceDto → Database → Result EmployeeDevice × Database → Type 0
IsRegistered employee tenant now dto db out =
    (row : EmployeeDevice) × (out
      ≡ (ok row, record db { employee_devices = insert row db.employee_devices }))
    × IsDeviceOf employee tenant now dto row
    × (count_active_by_employee employee tenant db.employee_devices < max_devices_per_employee)
    × (count_active_by_employee employee tenant out.1.employee_devices
        ≡ suc (count_active_by_employee employee tenant db.employee_devices))

-- A device that the employee never registered is refused, with nothing written, or it is written as
-- an active row with what the request says of the device: then the employee had fewer than five active
-- devices, and has one more.
pub register_device-new :
    (ctx : Context) (tenant employee : ℕ) (dto : RegisterDeviceDto) (db : Database)
    → ctx.tenant_id ≡ some tenant
    → find_by_device_id_and_employee dto.device_id employee tenant db.employee_devices ≡ none
    → IsRefused db (register_device ctx employee dto db)
      ⊎ IsRegistered employee tenant ctx.now dto db (register_device ctx employee dto db)
unfolding register_device register_new create ◌>>=◌ current_tenant_id count_active_by_employee
register_device-new ctx tenant employee dto db here new =
    elim (Bool-cases
      (is_active_device (find_by_device_id dto.device_id tenant db.employee_devices))) [
        | inl theirs ↦
            inl (device_belongs_to_other_employee dto.device_id, rw (here, new, theirs) refl)
        | inr free ↦
            elim (Bool-cases
              (leb 5 (count_where (is_active_of employee tenant) db.employee_devices))) [
                | inl full ↦ inl (
                  device_limit_reached
                      (count_where (is_active_of employee tenant) db.employee_devices) 5,
                  rw (here, new, free, full) refl,
                )
                | inr room ↦
                    elim (Bool-cases
                      (exists_where (is_own dto.device_id employee tenant) db.employee_devices)) [
                        | inl taken ↦ inl (unique_violation, rw (here, new, free, room, taken) refl)
                        | inr untaken ↦ inr (
                            rw (here, new, free, room, untaken)
                              (
                                _,
                                refl,
                                record {
                                  of_tenant = refl;
                                  of_employee = refl;
                                  device = refl;
                                  name = refl;
                                  os = refl;
                                  token = refl;
                                  active = refl;
                                  registered = refl;
                                },
                                ground arith,
                                count_where-insert (is_active_of employee tenant) _
                                      db.employee_devices
                                    ∙ ground arith,
                              ))
                      ]
              ]
      ]

-- The primary key: one row of an id.
abbrev pub IsKeyed : ℕ → List EmployeeDevice → Type 0
IsKeyed id rows = count_where (λ d. d.id == id) rows ≤ 1

-- A device that the employee had, and that was deactivated, is active again after its registration,
-- however many active devices the employee has by then: the limit is not asked here, and neither is
-- whether another employee has the device.
pub register_device-again :
    (ctx : Context) (tenant employee : ℕ) (dto : RegisterDeviceDto) (db : Database)
    {own : EmployeeDevice}
    → ctx.tenant_id ≡ some tenant
    → find_by_device_id_and_employee dto.device_id employee tenant db.employee_devices ≡ some own
    → own.is_active ≡ false
    → IsKeyed own.id db.employee_devices
    → let out = register_device ctx employee dto db in
      ((row : EmployeeDevice) × (out.0 ≡ ok row) × (row.is_active ≡ true))
      × (count_active_by_employee employee tenant out.1.employee_devices
          ≡ suc (count_active_by_employee employee tenant db.employee_devices))
unfolding apply_patch register_device register_again update_own update ◌>>=◌ current_tenant_id
    count_active_by_employee find_by_id find_by_device_id_and_employee
register_device-again ctx tenant employee dto db {own} here found idle keyed =
    let rows = db.employee_devices in
    let (m, mine) = find_first-Memᴰ (is_own dto.device_id employee tenant) rows {r = own} found in
    let (row, again) = find_first_of_Memᴰ (has_id own.id employee tenant) rows m (ground arith) in
    rw (here, found, idle, again)
      (
        (_, refl, refl),
        count_where-switched_on (is_active_of employee tenant) (has_id own.id employee tenant) _
              rows
              (λ r n hit.
                let same =
                  Memᴰ-unique (λ d. d.id == own.id) rows keyed n (ground arith) m
                    (==_refl own.id) in
                ground (arith, ap (λ (d : EmployeeDevice). d.is_active) same))
            ∙ ground (
              arith,
              count_where-pos (has_id own.id employee tenant) rows m,
              count_where-le (has_id own.id employee tenant) (λ d. d.id == own.id) rows
                  (λ r hit. ground arith),
            ),
      )
