-- ===== src/Database/Rows.antt =====
-- The rows of the tables of src/database/schema. A UUID is a natural number, and so is a
-- timestamp, in milliseconds; a nullable column is an `Option`.
use hr_saas_platform.Shared.{ℕ, String, Bool, Option}
use hr_saas_platform.Json.{Fields}
use hr_saas_platform.Events.{Event}

-- departments
pub record Department : Type 0 where
  pub id : ℕ
  pub tenant_id : ℕ
  pub name : String
  pub parent_id : Option ℕ
  pub manager_employee_id : Option ℕ
  pub is_active : Bool
  pub created_at : ℕ
  pub updated_at : ℕ

-- EmployeeStatusEnum (src/modules/employee/constants/employee-status.constants.ts)
pub data EmployeeStatus : Type 0 where
  active on_probation on_leave suspended terminated : EmployeeStatus

-- employees, without created_at
pub record Employee : Type 0 where
  pub id : ℕ
  pub tenant_id : ℕ
  pub user_id : ℕ
  pub employee_number : String
  pub first_name : String
  pub last_name : String
  pub department_id : Option ℕ
  pub position : Option String
  pub employment_type : String
  pub base_salary_encrypted : String
  pub salary_currency : String
  pub hire_date : String
  pub termination_date : Option String
  pub timezone : Option String
  pub locale : Option String
  pub status : EmployeeStatus
  pub bank_account_encrypted : Option String
  pub tax_id_encrypted : Option String
  pub updated_at : ℕ

-- employee_devices
pub record EmployeeDevice : Type 0 where
  pub id : ℕ
  pub tenant_id : ℕ
  pub employee_id : ℕ
  pub device_id : String
  pub device_name : Option String
  pub device_os : Option String
  pub fcm_token : Option String
  pub is_active : Bool
  pub registered_at : ℕ
  pub last_used_at : Option ℕ

-- users, without the columns of MFA and the timestamps
pub record User : Type 0 where
  pub id : ℕ
  pub email : String
  pub password_hash : String
  pub is_active : Bool
  pub failed_login_attempts : ℕ
  pub locked_until : Option ℕ
  pub last_login_at : Option ℕ
  pub password_changed_at : Option ℕ

-- refresh_tokens, without the client's address and agent
pub record RefreshToken : Type 0 where
  pub id : ℕ
  pub user_id : ℕ
  pub tenant_id : ℕ
  pub token_hash : String
  pub family_id : ℕ
  pub is_revoked : Bool
  pub revoked_at : Option ℕ
  pub revoked_reason : Option String
  pub expires_at : ℕ

-- TenantStatusEnum (src/modules/tenant/constants/tenant-status.constants.ts)
pub data TenantStatus : Type 0 where
  pending active suspended terminated : TenantStatus

-- tenants, without the timestamps
pub record Tenant : Type 0 where
  pub id : ℕ
  pub name : String
  pub slug : String
  pub plan_type : String
  pub status : TenantStatus
  pub default_timezone : String
  pub default_locale : String
  pub fiscal_year_start_month : ℕ
  pub max_employees : Option ℕ
  pub settings : Fields

-- The states of an outbox row.
pub data OutboxStatus : Type 0 where
  pending processing processed failed dead_letter : OutboxStatus

-- event_outbox
pub record EventOutboxRecord : Type 0 where
  pub id : ℕ
  pub event : Event
  pub status : OutboxStatus
  pub retry_count : ℕ
  pub max_retries : ℕ
  pub next_retry_at : Option ℕ
  pub processed_at : Option ℕ
  pub processing_started_at : Option ℕ
  pub error_message : Option String
  pub created_at : ℕ

-- roles, without the timestamps
pub record Role : Type 0 where
  pub id : ℕ
  pub tenant_id : ℕ
  pub name : String
  pub description : Option String
  pub is_system : Bool
  pub slug : String
  pub is_active : Bool

-- permissions, without the timestamps
pub record Permission : Type 0 where
  pub id : ℕ
  pub code : String
  pub description : Option String
  pub module_name : String
  pub category : Option String

-- role_permissions, without assigned_at
pub record RolePermission : Type 0 where
  pub role_id : ℕ
  pub permission_id : ℕ

-- employee_roles, without assigned_at
pub record EmployeeRole : Type 0 where
  pub tenant_id : ℕ
  pub employee_id : ℕ
  pub role_id : ℕ
  pub assigned_by : Option ℕ

-- outbox_processed_events
pub record OutboxProcessedEvent : Type 0 where
  pub id : ℕ
  pub event_id : ℕ
  pub handler_name : String
  pub event_type : Option String
  pub tenant_id : Option ℕ
  pub processed_at : ℕ

-- salary_history, without created_at
pub record SalaryHistory : Type 0 where
  pub id : ℕ
  pub tenant_id : ℕ
  pub employee_id : ℕ
  pub base_salary_encrypted : String
  pub salary_currency : String
  pub effective_date : String
  pub change_reason : String
  pub notes : Option String
  pub changed_by : ℕ
