-- ===== src/Events.antt =====
-- The domain events that the modelled services emit (src/modules/*/events), as the payload that
-- `toPayload` writes, and the envelope of src/common/events/base.event.ts.
use hr_saas_platform.Shared.{ℕ, String, Option, List, Bool}

-- One entry of a `changes` record: the field, its old and its new value.
pub data FieldChange : Type 0 where
  text : String → Option String → Option String → FieldChange
  key : String → Option ℕ → Option ℕ → FieldChange
  flag : String → Bool → Bool → FieldChange

pub data Payload : Type 0 where
  department_created : ℕ → String → Option ℕ → Payload
  department_updated : ℕ → List FieldChange → Payload
  department_deactivated : ℕ → String → Payload
  employee_status_changed : ℕ → String → String → Option String → Option String → Payload
  employee_salary_updated : ℕ → String → String → Payload
  user_login : ℕ → ℕ → Payload
  user_login_failed : String → Option ℕ → String → Payload
  password_changed : ℕ → ℕ → String → Payload
  role_created : ℕ → String → String → Bool → Payload
  role_assigned role_revoked : ℕ → List ℕ → List String → Payload
  tenant_created : String → String → String → String → String → String → Payload
  tenant_suspended : Option String → Payload
  tenant_activated : Payload

-- The string that DomainEvents (src/common/events/event-registry.ts) gives the event's class.
unfoldable pub event_type : Payload → String
event_type (department_created _ _ _) = "department.created"
event_type (department_updated _ _) = "department.updated"
event_type (department_deactivated _ _) = "department.deactivated"
event_type (employee_status_changed _ _ _ _ _) = "employee.status_changed"
event_type (employee_salary_updated _ _ _) = "employee.salary_updated"
event_type (user_login _ _) = "auth.user_login"
event_type (user_login_failed _ _ _) = "auth.user_login_failed"
event_type (password_changed _ _ _) = "auth.password_changed"
event_type (role_created _ _ _ _) = "rbac.role_created"
event_type (role_assigned _ _ _) = "rbac.role_assigned"
event_type (role_revoked _ _ _) = "rbac.role_revoked"
event_type (tenant_created _ _ _ _ _ _) = "tenant.created"
event_type (tenant_suspended _) = "tenant.suspended"
event_type tenant_activated = "tenant.activated"

-- `triggeredBy`: a user, or "system".
pub data Actor : Type 0 where
  system : Actor
  by : ℕ → Actor

-- A `BaseEvent`; an empty `tenantId` is `none`.
pub record Event : Type 0 where
  pub event_id : ℕ
  pub tenant_id : Option ℕ
  pub triggered_by : Actor
  pub occurred_at : ℕ
  pub payload : Payload
