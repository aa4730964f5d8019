-- ===== src/Database.antt =====
-- The database: one table for each schema of src/database/schema that the modelled services use.
mod Rows
pub use Rows.*
use hr_saas_platform.Shared.{List, []}

pub record Database : Type 0 where
  pub departments : List Department
  pub employees : List Employee
  pub employee_devices : List EmployeeDevice
  pub users : List User
  pub refresh_tokens : List RefreshToken
  pub tenants : List Tenant
  pub event_outbox : List EventOutboxRecord
  pub roles : List Role
  pub permissions : List Permission
  pub role_permissions : List RolePermission
  pub employee_roles : List EmployeeRole
  pub salary_history : List SalaryHistory

abbrev pub empty : Database
empty = record {
  departments = [];
  employees = [];
  employee_devices = [];
  users = [];
  refresh_tokens = [];
  tenants = [];
  event_outbox = [];
  roles = [];
  permissions = [];
  role_permissions = [];
  employee_roles = [];
  salary_history = [];
}
