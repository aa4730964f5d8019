-- ===== src/Department/Operations/Deactivation.antt =====
-- What a deactivation that succeeds has checked and done.
use hr_saas_platform.Shared.{ℕ, ltb, ◌≡◌, some, arith, inl, inr, Bool-cases, Option-cases}
use hr_saas_platform.Database.{Database, Department}
use hr_saas_platform.Service.{ok, ◌>>=◌, Context, current_tenant_id}
use hr_saas_platform.Department.Repository.{find_by_id, count_active_children}
use hr_saas_platform.Department.Operations.{require, deactivate_department}

-- A deactivation that returns was asked for with no active employee, of an active department
-- without active children.
pub deactivate_department_lem :
    (ctx : Context) (tenant id actor employees : ℕ) (db : Database) {row : Department}
    → ctx.tenant_id ≡ some tenant
    → (deactivate_department ctx id actor employees db).0 ≡ ok row
    → (count_active_children id tenant db.departments ≡ 0) × (employees ≡ 0)
unfolding deactivate_department require ◌>>=◌ current_tenant_id
deactivate_department_lem ctx tenant id actor employees db {row} here h =
    elim (Option-cases (find_by_id id tenant db.departments)) [
      | inl gone ↦ absurd (cc (rw (here, gone) at h))
      | inr (dept, found) ↦ elim (Bool-cases dept.is_active) [
        | inr idle ↦ absurd (cc (rw (here, found, idle) at h))
        | inl active ↦ elim (Bool-cases (ltb 0 (count_active_children id tenant db.departments))) [
          | inl some_child ↦ absurd (cc (rw (here, found, active, some_child) at h))
          | inr childless ↦ elim (Bool-cases (ltb 0 employees)) [
            | inl staffed ↦ absurd (cc (rw (here, found, active, childless, staffed) at h))
            | inr empty ↦ (ground arith, ground arith)
          ]
        ]
      ]
    ]
