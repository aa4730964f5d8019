-- ===== src/Tenants/Operations.antt =====
-- TenantService and TenantSettingsService (src/modules/tenant/services). Log lines are left out, and
-- a response is the row that it is copied from. `is_valid_timezone` asks the runtime's Intl.
use mathlib.Core.List
use text.Mathlib.Text.{◌==◌ as str_eq}
use hr_saas_platform.Shared.{
  ℕ, zero, suc, String, Bool, true, false, not, ◌&&◌, if◌then◌else◌, Option, none, some, List,
}
use hr_saas_platform.Exceptions.{conflict, bad_request, not_found}
use hr_saas_platform.Events.{Actor, Payload, tenant_created, tenant_suspended, tenant_activated}
use hr_saas_platform.Json.{
  Json, null, undefined, object, boolean, number, string, Fields, end, field, get, spread,
}
use hr_saas_platform.Database.{Tenant, TenantStatus}
use hr_saas_platform.Service.{
  Action, pure, gets, found_or, throw_if, ◌>>=◌, ◌>>◌, Context, new_event, emit_async,
}
use hr_saas_platform.Tenants.Status.{is_valid_status_transition}
use hr_saas_platform.Tenants.Plans.{get_plan_limits}
use hr_saas_platform.Tenants.Repository.{
  find_by_id, find_by_slug, is_slug_taken, create, Patch, no_change, update, update_status,
}
use hr_saas_platform.Tenants.Repository

-- DEFAULT_TENANT_SETTINGS (src/modules/tenant/interfaces/tenant-settings.interface.ts)
abbrev pub default_tenant_settings : Fields
default_tenant_settings = field "features" (object end) (
    field "branding" (object end) (
      field "notifications"
        (object (field "emailEnabled" (boolean true) (field "pushEnabled" (boolean true) end)))
        (field "attendance"
          (object (
            field "autoCheckoutEnabled" (boolean true) (
              field "autoCheckoutTimeHour" (number "23") (
                field "gracePeriodMinutes" (number "15") (
                  field "requireGps" (boolean true) (
                    field "requireGeofence" (boolean false)
                      (field "allowManualEntry" (boolean true) end)))))))
          (field "payroll"
            (object (
              field "payrollDayOfMonth" (number "25")
                (field "currency" (string "USD") (field "payslipEmailEnabled" (boolean true) end))))
            (field "metadata" (object end) end)))))

-- CreateTenantDto
pub record CreateTenantDto : Type 0 where
  pub name : String
  pub slug : String
  pub plan_type : Option String
  pub default_timezone : Option String
  pub default_locale : Option String
  pub fiscal_year_start_month : Option ℕ
  pub max_employees : Option ℕ
  pub settings : Option Fields
  pub admin_email : String
  pub admin_first_name : String
  pub admin_last_name : String

-- `s || d`, for a string and for a number
abbrev pub or_string : Option String → String → String
or_string none d = d
or_string (some s) d = if str_eq s "" then d else s

abbrev pub or_number : Option ℕ → ℕ → ℕ
or_number none d = d
or_number (some zero) d = d
or_number (some (suc n)) d = suc n

-- `if (s)` and `if (n)`
abbrev pub is_given : Option String → Bool
is_given none = false
is_given (some s) = not (str_eq s "")

abbrev pub is_positive : Option ℕ → Bool
is_positive none = false
is_positive (some zero) = false
is_positive (some (suc n)) = true

abbrev pub initial_settings : Option Fields → Fields
initial_settings none = default_tenant_settings
initial_settings (some given) = spread default_tenant_settings given

abbrev pub new_tenant : Context → CreateTenantDto → Tenant
new_tenant ctx dto = record {
  id = ctx.uuid 0;
  name = dto.name;
  slug = dto.slug;
  plan_type = or_string dto.plan_type "free";
  status = TenantStatus.active;
  default_timezone = or_string dto.default_timezone "UTC";
  default_locale = or_string dto.default_locale "en";
  fiscal_year_start_month = or_number dto.fiscal_year_start_month 1;
  max_employees = some (
      or_number dto.max_employees (get_plan_limits (or_string dto.plan_type "free")).max_employees);
  settings = initial_settings dto.settings;
}

abbrev pub created_event : CreateTenantDto → Tenant → Payload
created_event dto t =
    tenant_created t.name t.slug t.plan_type dto.admin_email dto.admin_first_name
      dto.admin_last_name

-- UpdateTenantDto
pub record UpdateTenantDto : Type 0 where
  pub name : Option String
  pub plan_type : Option String
  pub default_timezone : Option String
  pub default_locale : Option String
  pub fiscal_year_start_month : Option ℕ
  pub max_employees : Option ℕ

-- A change of the plan sets the number of employees, unless it is given.
abbrev pub employees_of : UpdateTenantDto → Option ℕ
employees_of dto =
    if is_given dto.plan_type && not (is_positive dto.max_employees)
    then some (get_plan_limits (or_string dto.plan_type "")).max_employees
    else dto.max_employees

abbrev pub patch_of : UpdateTenantDto → Patch
patch_of dto = record {
  name = dto.name;
  plan_type = dto.plan_type;
  status = none;
  default_timezone = dto.default_timezone;
  default_locale = dto.default_locale;
  fiscal_year_start_month = dto.fiscal_year_start_month;
  max_employees = employees_of dto;
  settings = none;
}

module _ (is_valid_timezone : String → Bool) where
  -- A timezone is given that the runtime does not know.
  abbrev pub is_bad_timezone : Option String → Bool
  is_bad_timezone none = false
  is_bad_timezone (some zone) = not (str_eq zone "") && not (is_valid_timezone zone)

  unfoldable pub create_tenant : Context → CreateTenantDto → Actor → Action Tenant
  create_tenant ctx dto created_by = do
    slug_taken ← gets (λ db. is_slug_taken dto.slug none db.tenants)
    throw_if slug_taken (conflict dto.slug)
    throw_if (is_bad_timezone dto.default_timezone) (bad_request "timezone")
    tenant ← create (new_tenant ctx dto)
    emit_async ctx (new_event ctx (some tenant.id) created_by (created_event dto tenant))
    pure tenant

  unfoldable pub update_tenant : ℕ → UpdateTenantDto → Action Tenant
  update_tenant id dto = do
    existing ← gets (λ db. find_by_id id db.tenants)
    found_or existing not_found
    throw_if (is_bad_timezone dto.default_timezone) (bad_request "timezone")
    updated ← update id (patch_of dto)
    found_or updated not_found

unfoldable pub get_tenant_by_id : ℕ → Action Tenant
get_tenant_by_id id = do tenant ← gets (λ db. find_by_id id db.tenants); found_or tenant not_found

unfoldable pub get_tenant_by_slug : String → Action Tenant
get_tenant_by_slug slug = do
  tenant ← gets (λ db. find_by_slug slug db.tenants)
  found_or tenant not_found

-- The event that a change of status emits, if any.
abbrev pub announced : TenantStatus → TenantStatus → Option String → Option Payload
announced current TenantStatus.suspended reason = some (tenant_suspended reason)
announced TenantStatus.suspended TenantStatus.active reason = some tenant_activated
announced current new reason = none

abbrev pub announce : Context → ℕ → Actor → Option Payload → Action (Unit {0})
announce ctx id actor none = pure tt
announce ctx id actor (some payload) = emit_async ctx (new_event ctx (some id) actor payload)

unfoldable pub update_tenant_status :
    Context → ℕ → TenantStatus → Option String → Actor → Action Tenant
update_tenant_status ctx id new reason changed_by = do
  found ← gets (λ db. find_by_id id db.tenants)
  tenant ← found_or found not_found
  throw_if (not (is_valid_status_transition tenant.status new)) (bad_request "status")
  result ← update_status id new
  updated ← found_or result not_found
  announce ctx id changed_by (announced tenant.status new reason)
  pure updated

-- `a ?? b`, where JSON has null for undefined
abbrev pub nullish : Option Json → Json → Json
nullish none b = b
nullish (some null) b = b
nullish (some undefined) b = b
nullish (some a) b = a

-- `o?.[key]`
abbrev pub member : Option Json → String → Option Json
member (some (object fs)) key = get key fs
member o key = none

unfoldable pub resolved_feature : Fields → String → Bool → Json
unfolding get
resolved_feature settings key plan_default =
    nullish (member (get "features" settings) key) (boolean plan_default)

-- `getSettings`: the settings, and the features with the tenant's own choices over the plan's.
unfoldable pub get_settings : ℕ → Action (Fields × List (String × Json))
get_settings id = do
  found ← gets (λ db. find_by_id id db.tenants)
  tenant ← found_or found not_found
  pure (
    tenant.settings,
    List.map
        (λ ((key, plan_default) : String × Bool).
          (key, resolved_feature tenant.settings key plan_default))
        (get_plan_limits tenant.plan_type).features,
  )

-- UpdateTenantSettingsDto; `none` is a section that was not sent. One that was sent is an object, or
-- null.
pub record UpdateTenantSettingsDto : Type 0 where
  pub features : Option Json
  pub branding : Option Json
  pub notifications : Option Json
  pub attendance : Option Json
  pub payroll : Option Json
  pub metadata : Option Json

abbrev pub or_undefined : Option Json → Json
or_undefined none = undefined
or_undefined (some v) = v

-- The own keys of the DTO. For the target ES2023 the class defines all its fields, and the validation
-- pipe hands the service an instance of it.
abbrev pub own_fields : UpdateTenantSettingsDto → Fields
own_fields dto = field "features" (or_undefined dto.features) (
    field "branding" (or_undefined dto.branding) (
      field "notifications" (or_undefined dto.notifications) (
        field "attendance" (or_undefined dto.attendance) (
          field "payroll" (or_undefined dto.payroll)
            (field "metadata" (or_undefined dto.metadata) end)))))

unfoldable pub update_settings : ℕ → UpdateTenantSettingsDto → Action Tenant
update_settings id dto = do
  result ← Repository.update_settings id (own_fields dto)
  found_or result not_found
