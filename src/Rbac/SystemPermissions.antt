-- ===== src/Rbac/SystemPermissions.antt =====
-- The registry of permissions (src/modules/rbac/constants/system-permissions.ts).
use mathlib.Core.List
use text.Mathlib.Text.{◌==◌ as str_eq}
use hr_saas_platform.Shared.{String, List, [], ◌∷◌}
use hr_saas_platform.Shared.Table.{select}

pub record PermissionDefinition : Type 0 where
  pub code : String
  pub description : String
  pub module_name : String
  pub category : String

abbrev permission : String → String → String → String → PermissionDefinition
permission code description module_name category = record {
  code = code;
  description = description;
  module_name = module_name;
  category = category;
}

abbrev pub system_permissions : List PermissionDefinition
system_permissions =
    permission "attendance:checkin" "Check in via GPS or manual entry" "attendance" "Attendance"
    ∷ permission "attendance:checkout" "Check out via GPS or manual entry" "attendance" "Attendance"
    ∷ permission "attendance:view_own" "View own attendance records" "attendance" "Attendance"
    ∷ permission "attendance:view_team" "View team member attendance records" "attendance"
        "Attendance"
    ∷ permission "attendance:view_all" "View all employee attendance records" "attendance"
        "Attendance"
    ∷ permission "attendance:edit" "Manually correct attendance records" "attendance" "Attendance"
    ∷ permission "attendance:approve" "Approve corrected attendance entries" "attendance"
        "Attendance"
    ∷ permission "attendance:manage_geofences" "Create, update, and delete geofence zones"
        "attendance" "Attendance"
    ∷ permission "leave:request" "Submit leave requests" "leave" "Leave"
    ∷ permission "leave:cancel_own" "Cancel own pending leave requests" "leave" "Leave"
    ∷ permission "leave:view_own" "View own leave requests and balance" "leave" "Leave"
    ∷ permission "leave:view_team" "View team leave requests and calendar" "leave" "Leave"
    ∷ permission "leave:view_all" "View all leave requests and balances" "leave" "Leave"
    ∷ permission "leave:approve" "Approve or reject leave requests" "leave" "Leave"
    ∷ permission "leave:adjust_balance" "Manually adjust leave balances" "leave" "Leave"
    ∷ permission "leave:manage_types" "Create and configure leave types" "leave" "Leave"
    ∷ permission "payroll:view_own" "View own payslips and payroll history" "payroll" "Payroll"
    ∷ permission "payroll:view_all" "View all employee payroll data" "payroll" "Payroll"
    ∷ permission "payroll:process" "Initiate and calculate payroll runs" "payroll" "Payroll"
    ∷ permission "payroll:approve" "Approve calculated payroll runs" "payroll" "Payroll"
    ∷ permission "payroll:finalize" "Finalize and lock payroll runs" "payroll" "Payroll"
    ∷ permission "payroll:adjust" "Create payroll adjustment entries" "payroll" "Payroll"
    ∷ permission "payroll:settle" "Process settlement payroll for terminations" "payroll" "Payroll"
    ∷ permission "employee:view_own" "View own employee profile" "employee" "Employee"
    ∷ permission "employee:view_team" "View team member profiles" "employee" "Employee"
    ∷ permission "employee:view_all" "View all employee profiles" "employee" "Employee"
    ∷ permission "employee:create" "Create new employees" "employee" "Employee"
    ∷ permission "employee:update" "Update employee profiles" "employee" "Employee"
    ∷ permission "employee:terminate" "Terminate employees" "employee" "Employee"
    ∷ permission "employee:manage_salary" "View and update salary structures" "employee" "Employee"
    ∷ permission "rbac:view_roles" "View roles and their permissions" "rbac" "Administration"
    ∷ permission "rbac:manage_roles" "Create, update, and delete custom roles" "rbac"
        "Administration"
    ∷ permission "rbac:assign_roles" "Assign and revoke roles for employees" "rbac" "Administration"
    ∷ permission "config:view" "View tenant configuration and policies" "config" "Configuration"
    ∷ permission "config:manage" "Update tenant policies, shifts, and holidays" "config"
        "Configuration"
    ∷ permission "department:view" "View departments" "department" "Organization"
    ∷ permission "department:manage" "Create, update, and delete departments" "department"
        "Organization"
    ∷ permission "notification:view_own" "View own notifications" "notification" "Notification"
    ∷ permission "notification:manage_preferences" "Manage own notification preferences"
        "notification" "Notification"
    ∷ permission "audit:view" "View audit logs" "audit" "Compliance"
    ∷ permission "audit:export" "Export audit logs" "audit" "Compliance"
    ∷ permission "tenant:view_settings" "View tenant settings" "tenant" "Administration"
    ∷ permission "tenant:manage_settings" "Update tenant settings" "tenant" "Administration"
    ∷ permission "reports:attendance" "Generate attendance reports" "reports" "Reports"
    ∷ permission "reports:payroll" "Generate payroll reports" "reports" "Reports"
    ∷ permission "reports:leave" "Generate leave reports" "reports" "Reports"
    ∷ []

abbrev pub get_all_permission_codes : List String
get_all_permission_codes = List.map (λ (p : PermissionDefinition). p.code) system_permissions

pub get_permissions_by_module : String → List String
get_permissions_by_module name =
    List.map (λ (p : PermissionDefinition). p.code)
      (select (λ p. str_eq p.module_name name) system_permissions)
