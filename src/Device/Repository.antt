-- ===== src/Device/Repository.antt =====
-- DeviceRepository (src/modules/employee/repositories/device.repository.ts).
use mathlib.Core.Option
use text.Mathlib.Text.{◌==◌ as str_eq}
use hr_saas_platform.Shared.{
  ℕ, String, ◌==◌, if◌then◌else◌, Bool, false, ◌&&◌, Option, none, some, List,
}
use hr_saas_platform.Shared.Table.{
  find_first, exists_where, select, update_where, count_where, insert,
}
use hr_saas_platform.Exceptions.{unique_violation}
use hr_saas_platform.Database.{EmployeeDevice}
use hr_saas_platform.Service.{ok, err, Action}

-- WHERE employee_id = … AND tenant_id = …
abbrev pub is_of : ℕ → ℕ → EmployeeDevice → Bool
is_of employee tenant d = d.employee_id == employee && d.tenant_id == tenant

-- WHERE id = … AND employee_id = … AND tenant_id = …
abbrev pub has_id : ℕ → ℕ → ℕ → EmployeeDevice → Bool
has_id id employee tenant d = d.id == id && is_of employee tenant d

unfoldable pub find_by_id : ℕ → ℕ → ℕ → List EmployeeDevice → Option EmployeeDevice
find_by_id id employee tenant = find_first (has_id id employee tenant)

unfoldable pub find_by_device_id : String → ℕ → List EmployeeDevice → Option EmployeeDevice
find_by_device_id device tenant =
    find_first (λ d. str_eq d.device_id device && d.tenant_id == tenant)

abbrev pub is_active_of : ℕ → ℕ → EmployeeDevice → Bool
is_active_of employee tenant d = is_of employee tenant d && d.is_active

-- The order by `registered_at` is left out.
unfoldable pub find_by_employee : ℕ → ℕ → List EmployeeDevice → List EmployeeDevice
find_by_employee employee tenant = select (is_active_of employee tenant)

unfoldable pub count_active_by_employee : ℕ → ℕ → List EmployeeDevice → ℕ
count_active_by_employee employee tenant = count_where (is_active_of employee tenant)

abbrev pub is_own : String → ℕ → ℕ → EmployeeDevice → Bool
is_own device employee tenant d = str_eq d.device_id device && is_of employee tenant d

unfoldable pub find_by_device_id_and_employee :
    String → ℕ → ℕ → List EmployeeDevice → Option EmployeeDevice
find_by_device_id_and_employee device employee tenant = find_first (is_own device employee tenant)

-- The unique index on (tenant_id, employee_id, device_id) is in the way of a second row.
unfoldable pub create : EmployeeDevice → Action EmployeeDevice
create row db =
    if exists_where (is_own row.device_id row.employee_id row.tenant_id) db.employee_devices
    then (err unique_violation, db)
    else (ok row, record db { employee_devices = insert row db.employee_devices })

-- Partial<Pick<NewEmployeeDevice, 'fcmToken' | 'deviceName' | 'isActive' | 'lastUsedAt'>>
pub record Patch : Type 0 where
  pub fcm_token : Option (Option String)
  pub device_name : Option (Option String)
  pub is_active : Option Bool
  pub last_used_at : Option (Option ℕ)

abbrev pub no_change : Patch
no_change = record { fcm_token = none; device_name = none; is_active = none; last_used_at = none }

abbrev pub set_or : {A : Type 0} → Option A → A → A
set_or none old = old
set_or (some new) old = new

unfoldable pub apply_patch : Patch → EmployeeDevice → EmployeeDevice
apply_patch p d = record d {
  fcm_token = set_or p.fcm_token d.fcm_token;
  device_name = set_or p.device_name d.device_name;
  is_active = set_or p.is_active d.is_active;
  last_used_at = set_or p.last_used_at d.last_used_at;
}

unfoldable pub update : ℕ → ℕ → ℕ → Patch → Action (Option EmployeeDevice)
unfolding find_by_id
update id employee tenant patch db = (
  ok (Option.map (apply_patch patch) (find_by_id id employee tenant db.employee_devices)),
  record db {
    employee_devices =
        update_where (has_id id employee tenant) (apply_patch patch) db.employee_devices;
  },
)

-- `touchLastUsed`: the active rows of a fingerprint, of any employee.
unfoldable pub touch_last_used : ℕ → String → ℕ → Action (Unit {0})
touch_last_used now device tenant db = (
  ok tt,
  record db {
    employee_devices =
        update_where (λ d. (str_eq d.device_id device && d.tenant_id == tenant) && d.is_active)
          (apply_patch (record no_change { last_used_at = some (some now) })) db.employee_devices;
  },
)

-- `deactivateAllForEmployee`, with the number of rows that it changes.
unfoldable pub deactivate_all : ℕ → ℕ → Action ℕ
unfolding count_active_by_employee
deactivate_all employee tenant db = (
  ok (count_active_by_employee employee tenant db.employee_devices),
  record db {
    employee_devices =
        update_where (is_active_of employee tenant)
          (apply_patch (record no_change { is_active = some false })) db.employee_devices;
  },
)
