-- ===== src/Tenants/Plans.antt =====
-- The limits of the plans (src/modules/tenant/constants/plan-limits.constants.ts).
use text.Mathlib.Text.{◌==◌ as str_eq}
use hr_saas_platform.Shared.{ℕ, String, Bool, true, false, List, [], ◌∷◌, if◌then◌else◌}

-- The features are listed by their names, which `Object.entries` reads.
pub record PlanLimits : Type 0 where
  pub max_employees : ℕ
  pub max_geofence_zones : ℕ
  pub max_departments : ℕ
  pub max_custom_roles : ℕ
  pub max_custom_leave_types : ℕ
  pub features : List (String × Bool)

abbrev pub free : PlanLimits
free = record {
  max_employees = 10;
  max_geofence_zones = 1;
  max_departments = 3;
  max_custom_roles = 0;
  max_custom_leave_types = 0;
  features =
      ("gpsTracking", true)
      ∷ ("geofencing", false)
      ∷ ("overtime", false)
      ∷ ("leaveManagement", true)
      ∷ ("payroll", false)
      ∷ ("customPolicies", false)
      ∷ ("apiAccess", false)
      ∷ ("webhooks", false)
      ∷ ("auditExport", false)
      ∷ ("multiCurrency", false)
      ∷ [];
}

abbrev pub pro : PlanLimits
pro = record {
  max_employees = 200;
  max_geofence_zones = 10;
  max_departments = 20;
  max_custom_roles = 5;
  max_custom_leave_types = 5;
  features =
      ("gpsTracking", true)
      ∷ ("geofencing", true)
      ∷ ("overtime", true)
      ∷ ("leaveManagement", true)
      ∷ ("payroll", true)
      ∷ ("customPolicies", true)
      ∷ ("apiAccess", true)
      ∷ ("webhooks", false)
      ∷ ("auditExport", true)
      ∷ ("multiCurrency", false)
      ∷ [];
}

abbrev pub enterprise : PlanLimits
enterprise = record {
  max_employees = 50000;
  max_geofence_zones = 100;
  max_departments = 500;
  max_custom_roles = 50;
  max_custom_leave_types = 20;
  features =
      ("gpsTracking", true)
      ∷ ("geofencing", true)
      ∷ ("overtime", true)
      ∷ ("leaveManagement", true)
      ∷ ("payroll", true)
      ∷ ("customPolicies", true)
      ∷ ("apiAccess", true)
      ∷ ("webhooks", true)
      ∷ ("auditExport", true)
      ∷ ("multiCurrency", true)
      ∷ [];
}

-- An unknown plan has the limits of the free one.
unfoldable pub get_plan_limits : String → PlanLimits
get_plan_limits plan =
    if str_eq plan "free"
    then free
    else if str_eq plan "pro"
    then pro
    else if str_eq plan "enterprise"
    then enterprise
    else free
