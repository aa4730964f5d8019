-- ===== src/Device.antt =====
-- The devices of employees: DeviceService and DeviceRepository (src/modules/employee/services and
-- src/modules/employee/repositories). A response DTO is the row that it is copied from; log lines
-- are left out.
pub mod Repository
pub mod Registration
pub mod Limit
mod Tests
use text.Mathlib.Text.{◌==◌ as str_eq}
use hr_saas_platform.Shared.{
  ℕ, leb, String, if◌then◌else◌, Bool, true, false, not, ◌&&◌, Option, none, some, List,
}
use hr_saas_platform.Exceptions.{
  resource_not_found, internal_server_error, device_limit_reached, device_belongs_to_other_employee,
}
use hr_saas_platform.Database.{EmployeeDevice}
use hr_saas_platform.Service.{
  Action, pure, gets, found_or, throw_if, ◌>>=◌, ◌>>◌, Context, current_tenant_id,
}
use hr_saas_platform.Device.Repository.{
  find_by_id, find_by_device_id, find_by_employee, count_active_by_employee,
  find_by_device_id_and_employee, create, Patch, no_change, update, deactivate_all,
}

abbrev pub max_devices_per_employee : ℕ
max_devices_per_employee = 5

-- RegisterDeviceDto
pub record RegisterDeviceDto : Type 0 where
  pub device_id : String
  pub device_name : Option String
  pub device_os : Option String
  pub fcm_token : Option String

-- `a ?? b`
abbrev pub otherwise : Option String → Option String → Option String
otherwise none b = b
otherwise (some a) b = some a

-- `token && token !== old`: the empty string counts as no token.
abbrev pub is_new_token : Option String → Option String → Bool
is_new_token none old = false
is_new_token (some token) none = not (str_eq token "")
is_new_token (some token) (some old) = not (str_eq token "") && not (str_eq token old)

-- `update` and the assertion that a row is returned.
pub update_own : ℕ → ℕ → ℕ → Patch → Action EmployeeDevice
update_own id employee tenant patch = do
  updated ← update id employee tenant patch
  found_or updated internal_server_error

-- The device is registered to this employee already.
pub register_again : ℕ → ℕ → RegisterDeviceDto → EmployeeDevice → Action EmployeeDevice
register_again employee tenant dto own =
    if own.is_active
    then (if is_new_token dto.fcm_token own.fcm_token
        then update_own own.id employee tenant (record no_change { fcm_token = some dto.fcm_token })
        else pure own)
    else update_own own.id employee tenant (record no_change {
      is_active = some true;
      fcm_token = some (otherwise dto.fcm_token own.fcm_token);
      device_name = some (otherwise dto.device_name own.device_name);
    })

abbrev pub is_active_device : Option EmployeeDevice → Bool
is_active_device none = false
is_active_device (some d) = d.is_active

-- The device is new to this employee.
pub register_new : Context → ℕ → ℕ → RegisterDeviceDto → Action EmployeeDevice
register_new ctx employee tenant dto = do
  other ← gets (λ db. find_by_device_id dto.device_id tenant db.employee_devices)
  throw_if (is_active_device other) (device_belongs_to_other_employee dto.device_id)
  active_count ← gets (λ db. count_active_by_employee employee tenant db.employee_devices)
  throw_if (leb max_devices_per_employee active_count)
      (device_limit_reached active_count max_devices_per_employee)
  create (record {
    id = ctx.uuid 0;
    tenant_id = tenant;
    employee_id = employee;
    device_id = dto.device_id;
    device_name = dto.device_name;
    device_os = dto.device_os;
    fcm_token = dto.fcm_token;
    is_active = true;
    registered_at = ctx.now;
    last_used_at = none;
  })

abbrev pub register_found :
    Context → ℕ → ℕ → RegisterDeviceDto → Option EmployeeDevice → Action EmployeeDevice
register_found ctx employee tenant dto none = register_new ctx employee tenant dto
register_found ctx employee tenant dto (some own) = register_again employee tenant dto own

pub register_device : Context → ℕ → RegisterDeviceDto → Action EmployeeDevice
register_device ctx employee dto = do
  tenant ← current_tenant_id ctx
  own ←
      gets (λ db. find_by_device_id_and_employee dto.device_id employee tenant db.employee_devices)
  register_found ctx employee tenant dto own

pub list_devices : Context → ℕ → Action (List EmployeeDevice)
list_devices ctx employee = do
  tenant ← current_tenant_id ctx
  gets (λ db. find_by_employee employee tenant db.employee_devices)

pub update_fcm_token : Context → ℕ → ℕ → String → Action EmployeeDevice
update_fcm_token ctx id employee token = do
  tenant ← current_tenant_id ctx
  found ← gets (λ db. find_by_id id employee tenant db.employee_devices)
  found_or found (resource_not_found "Device" id)
  update_own id employee tenant (record no_change { fcm_token = some (some token) })

pub deactivate_device : Context → ℕ → ℕ → Action (Unit {0})
deactivate_device ctx id employee = do
  tenant ← current_tenant_id ctx
  found ← gets (λ db. find_by_id id employee tenant db.employee_devices)
  device ← found_or found (resource_not_found "Device" id)
  if not device.is_active
      then pure tt
      else do update id employee tenant (record no_change { is_active = some false }); pure tt

unfoldable pub deactivate_all_for_employee : Context → ℕ → Action (Unit {0})
unfolding ◌>>=◌ current_tenant_id deactivate_all
deactivate_all_for_employee ctx employee = do
  tenant ← current_tenant_id ctx
  deactivate_all employee tenant
  pure tt
