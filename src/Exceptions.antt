-- ===== src/Exceptions.antt =====
-- The exceptions that the services throw (src/common/exceptions/business-exceptions.ts, and the
-- exceptions of Nest that auth.service.ts and the tenant context throw), without their message
-- texts. The classes that no modelled service throws are left out.
use hr_saas_platform.Shared.{ℕ, String}

pub data Exception : Type 0 where
  -- resource and identifier; resource and field
  resource_not_found : String → ℕ → Exception
  resource_already_exists : String → String → Exception
  -- the operation that is refused
  operation_not_permitted : String → Exception
  -- auth
  invalid_credentials : Exception
  account_locked : ℕ → Exception
  -- employees and devices
  employee_not_active : ℕ → Exception
  employee_already_terminated : ℕ → Exception
  employee_invalid_status_transition : ℕ → Exception
  device_limit_reached : ℕ → ℕ → Exception
  device_belongs_to_other_employee : String → Exception
  -- departments
  department_circular_reference : ℕ → ℕ → Exception
  department_has_active_children : ℕ → ℕ → Exception
  department_has_active_employees : ℕ → ℕ → Exception
  -- Nest's own, with the reason in a word
  unauthorized forbidden bad_request conflict : String → Exception
  not_found : Exception
  internal_server_error : Exception
  -- PostgreSQL's 23505 and 22P02
  unique_violation invalid_text_representation : Exception

-- The HTTP status that the exception's constructor passes to `HttpException`.
unfoldable pub http_status : Exception → ℕ
http_status (resource_not_found _ _) = 404
http_status (resource_already_exists _ _) = 409
http_status (operation_not_permitted _) = 403
http_status invalid_credentials = 401
http_status (account_locked _) = 403
http_status (employee_not_active _) = 400
http_status (employee_already_terminated _) = 409
http_status (employee_invalid_status_transition _) = 400
http_status (device_limit_reached _ _) = 403
http_status (device_belongs_to_other_employee _) = 409
http_status (department_circular_reference _ _) = 409
http_status (department_has_active_children _ _) = 409
http_status (department_has_active_employees _ _) = 409
http_status (unauthorized _) = 401
http_status (forbidden _) = 403
http_status (bad_request _) = 400
http_status (conflict _) = 409
http_status not_found = 404
http_status internal_server_error = 500
http_status unique_violation = 500
http_status invalid_text_representation = 500
