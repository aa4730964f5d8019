-- ===== src/Department/Requests.antt =====
-- The writing routes of DepartmentController (src/modules/department/controllers), one constructor for
-- each, with the checks that it makes before it calls the service; and the states that a tenant's
-- requests reach.
pub mod Invariant
pub mod Isolation
pub mod Deactivation
use hr_saas_platform.Shared.{UuidText, ℕ, not, String, Bool, ◌≡◌, Option, none, some}
use hr_saas_platform.Database.{Database, Department}
use hr_saas_platform.Exceptions.{employee_not_active}
use hr_saas_platform.Service.{Action, gets, throw_if, ◌>>=◌, ◌>>◌, Context, current_tenant_id}
use hr_saas_platform.Employee.Facade.{is_employee_active, count_active_in_department}
use hr_saas_platform.Department.Repository.{find_by_id}
use hr_saas_platform.Department.Operations.{
  IsRenderedParent, CreateDepartmentDto, UpdateDepartmentDto, create_department, update_department,
  assign_manager, remove_manager, deactivate_department, reactivate_department,
}

pub data Request : Type 0 where
  create : CreateDepartmentDto → Request
  update : UuidText → UpdateDepartmentDto → Request
  -- the department and its manager
  assign : ℕ → ℕ → Request
  unassign : ℕ → Request
  deactivate : ℕ → Request
  reactivate : ℕ → Request

-- The texts that `updateDepartment` compares are those that the database renders.
abbrev pub IsRendered : Request → Type 0
IsRendered (update id dto) = (id.spelling ≡ 0) × IsRenderedParent dto.parent_id
IsRendered _ = Unit

-- `assignManager` of the controller: the manager must be a working employee of the tenant.
pub assign_checked : Context → ℕ → ℕ → ℕ → Action Department
assign_checked ctx id employee actor = do
  tenant ← current_tenant_id ctx
  is_active ← gets (λ db. is_employee_active employee tenant db.employees)
  throw_if (not is_active) (employee_not_active employee)
  assign_manager ctx id employee actor

-- `deactivateDepartment` of the controller, which counts the employees for the service.
unfoldable pub deactivate_counted : Context → ℕ → ℕ → Action Department
deactivate_counted ctx id actor = do
  tenant ← current_tenant_id ctx
  active_employee_count ← gets (λ db. count_active_in_department id tenant db.employees)
  deactivate_department ctx id actor active_employee_count

module _ (ilike : String → String → Bool) where
  unfoldable pub handle : Context → ℕ → Request → Action Department
  handle ctx actor (create dto) = create_department ilike ctx dto actor
  handle ctx actor (update id dto) = update_department ilike ctx id dto actor
  handle ctx actor (assign id employee) = assign_checked ctx id employee actor
  handle ctx actor (unassign id) = remove_manager ctx id actor
  handle ctx actor (deactivate id) = deactivate_counted ctx id actor
  handle ctx actor (reactivate id) = reactivate_department ctx id actor

  -- The request is of the tenant, an update writes UUIDs as the database renders them, and the UUID
  -- that the request would give to a department is new there.
  pub record IsRequest (tenant : ℕ) (ctx : Context) (db : Database) (request : Request)
      : Type 0 where
    pub as_rendered : IsRendered request
    pub of_tenant : ctx.tenant_id ≡ some tenant
    pub fresh : find_by_id (ctx.uuid 0) tenant db.departments ≡ none

  -- Requests of one tenant, one after the other.
  pub data Reaches (tenant : ℕ) (before : Database) : Database → Type 0 where
    start : Reaches tenant before before
    step :
        {db : Database} (ctx : Context) (actor : ℕ) (request : Request)
        → Reaches tenant before db
        → IsRequest tenant ctx db request
        → Reaches tenant before (handle ctx actor request db).1
