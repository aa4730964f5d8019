-- ===== src/Device/Limit.antt =====
-- Deactivation: after `deactivateAllForEmployee` the employee has no active device.
use hr_saas_platform.Shared.{ℕ, ◌==◌, false, ◌&&◌, ◌≡◌, refl, some, arith}
use hr_saas_platform.Shared.Table.{count_where-switched_off, count_where-others}
use hr_saas_platform.Database.{Database}
use hr_saas_platform.Service.{ok, ◌>>=◌, Context, current_tenant_id}
use hr_saas_platform.Device.Repository.{
  is_active_of, count_active_by_employee, apply_patch, deactivate_all,
}
use hr_saas_platform.Device.{deactivate_all_for_employee}

-- In a request of a tenant, the call returns; then the employee has no active device in the tenant,
-- and every other employee, and every employee of another tenant, has as many as before.
pub deactivate_all_for_employee-count :
    (ctx : Context) (tenant employee : ℕ) (db : Database)
    → ctx.tenant_id ≡ some tenant
    → let out = deactivate_all_for_employee ctx employee db in
      (out.0 ≡ ok tt)
      × (count_active_by_employee employee tenant out.1.employee_devices ≡ 0)
      × ((other elsewhere : ℕ)
          → ((other == employee) && (elsewhere == tenant)) ≡ false
          → count_active_by_employee other elsewhere out.1.employee_devices
            ≡ count_active_by_employee other elsewhere db.employee_devices)
unfolding deactivate_all_for_employee deactivate_all ◌>>=◌ current_tenant_id
    count_active_by_employee apply_patch
deactivate_all_for_employee-count ctx tenant employee db here = rw here (
  refl,
  count_where-switched_off (is_active_of employee tenant) (is_active_of employee tenant) _
      db.employee_devices (λ r hit. ground arith) (λ r miss. miss),
  λ other elsewhere apart.
      count_where-others (is_active_of other elsewhere) (is_active_of employee tenant) _
        db.employee_devices (λ r hit. ground arith),
)
