-- ===== src/Department/Requests/Deactivation.antt =====
-- The route that deactivates a department.
use hr_saas_platform.Shared.{ℕ, String, Bool, ◌≡◌, refl, some}
use hr_saas_platform.Database.{Database, Department}
use hr_saas_platform.Service.{ok, ◌>>=◌, Context, current_tenant_id}
use hr_saas_platform.Employee.Facade.{count_active_in_department}
use hr_saas_platform.Department.Repository.{count_active_children}
use hr_saas_platform.Department.Operations.Deactivation.{deactivate_department_lem}
use hr_saas_platform.Department.Requests.{deactivate, deactivate_counted, handle}

-- A request to deactivate a department that returns it was made when the department had no active
-- child and no employee who is not terminated.
pub handle-deactivate :
    (ilike : String → String → Bool) (ctx : Context) (tenant id actor : ℕ) (db : Database)
    {row : Department}
    → ctx.tenant_id ≡ some tenant
    → (handle ilike ctx actor (deactivate id) db).0 ≡ ok row
    → (count_active_children id tenant db.departments ≡ 0)
      × (count_active_in_department id tenant db.employees ≡ 0)
unfolding handle deactivate_counted ◌>>=◌ current_tenant_id
handle-deactivate ilike ctx tenant id actor db {row} here h =
    deactivate_department_lem (record ctx { tenant_id = some tenant }) tenant id actor
      (count_active_in_department id tenant db.employees) db {row = row} refl (rw here at h)
