-- ===== src/Device/Tests.antt =====
-- An employee with five active devices and one that was deactivated.
use hr_saas_platform.Shared.{
  ℕ, suc, ◌+◌, String, Bool, true, false, ◌≡◌, ◌⊎◌, refl, none, some, [], ◌∷◌, arith,
}
use hr_saas_platform.Shared.Table.{find_first, count_where}
use hr_saas_platform.Database.{Database, EmployeeDevice, empty}
use hr_saas_platform.Service.{ok, Context}
use hr_saas_platform.Device.Repository.{find_by_device_id_and_employee, count_active_by_employee}
use hr_saas_platform.Device.{RegisterDeviceDto, register_device}
use hr_saas_platform.Device.Registration.{
  IsRefused, IsRegistered, register_device-new, register_device-again,
}

abbrev device : ℕ → String → Bool → EmployeeDevice
device id fingerprint active = record {
  id = id;
  tenant_id = 1;
  employee_id = 5;
  device_id = fingerprint;
  device_name = none;
  device_os = none;
  fcm_token = none;
  is_active = active;
  registered_at = 0;
  last_used_at = none;
}

abbrev db : Database
db = record empty {
  employee_devices =
      device 30 "old" false
      ∷ device 31 "a" true
      ∷ device 32 "b" true
      ∷ device 33 "c" true
      ∷ device 34 "d" true
      ∷ device 35 "e" true
      ∷ [];
}

abbrev ctx : Context
ctx = record { tenant_id = some 1; now = 5; uuid = λ n. n + 100 }

abbrev dto : String → RegisterDeviceDto
dto fingerprint = record {
  device_id = fingerprint;
  device_name = none;
  device_os = none;
  fcm_token = none;
}

register_device-new_example :
    IsRefused db (register_device ctx 5 (dto "f") db)
    ⊎ IsRegistered 5 1 5 (dto "f") db (register_device ctx 5 (dto "f") db)
unfolding find_by_device_id_and_employee find_first
register_device-new_example = register_device-new ctx 1 5 (dto "f") db refl refl

-- The sixth active device.
register_device-again_example :
    let out = register_device ctx 5 (dto "old") db in
    ((row : EmployeeDevice) × (out.0 ≡ ok row) × (row.is_active ≡ true))
    × (count_active_by_employee 5 1 out.1.employee_devices
        ≡ suc (count_active_by_employee 5 1 db.employee_devices))
unfolding find_by_device_id_and_employee find_first count_where
register_device-again_example =
    register_device-again ctx 1 5 (dto "old") db {own = device 30 "old" false} refl refl refl
      (ground arith)

five_before : count_active_by_employee 5 1 db.employee_devices ≡ 5
unfolding count_active_by_employee count_where
five_before = refl
