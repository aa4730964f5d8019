-- ===== src/Department/Requests/Isolation.antt =====
-- A request of one tenant leaves the departments of every other tenant alone.
use hr_saas_platform.Shared.{ℕ, String, Bool, ◌≡◌, ◌≢◌, refl, some, List}
use hr_saas_platform.Database.{Database, Department}
use hr_saas_platform.Service.{Context}
use hr_saas_platform.Service.Keeps.{Keeps, Keeps-tenant, Keeps-bind, keeps_rules}
use hr_saas_platform.Department.Repository.{find_all_for_tenant}
use hr_saas_platform.Department.Operations.Isolated.{
  Theirs, Keeps-create_department, Keeps-update_department, Keeps-assign_manager,
  Keeps-remove_manager, Keeps-deactivate_department, Keeps-reactivate_department,
}
use hr_saas_platform.Department.Requests.{
  Request, create, update, assign, unassign, deactivate, reactivate, assign_checked,
  deactivate_counted, handle,
}

module _ (ilike : String → String → Bool) (tenant other actor : ℕ) (apart : other ≢ tenant)
    (ctx : Context) (here : ctx.tenant_id ≡ some tenant) where
  Keeps-handle :
      (theirs : List Department) (request : Request)
      → Keeps (Theirs tenant other apart theirs) (handle ilike ctx actor request)
  unfolding handle assign_checked deactivate_counted
  Keeps-handle t (create dto) =
      Keeps-create_department tenant other apart t ctx here ilike dto actor
  Keeps-handle t (update id dto) =
      Keeps-update_department tenant other apart t ctx here ilike id dto actor
  Keeps-handle t (assign id e) = Keeps-tenant ctx _ here (
      Keeps-bind _ _ (search keeps_rules) λ is_active.
        Keeps-bind _ _ (search keeps_rules)
          λ _. Keeps-assign_manager tenant other apart t ctx here id e actor)
  Keeps-handle t (unassign id) = Keeps-remove_manager tenant other apart t ctx here id actor
  Keeps-handle t (deactivate id) = Keeps-tenant ctx _ here (
      Keeps-bind _ _ (search keeps_rules)
        λ count. Keeps-deactivate_department tenant other apart t ctx here id actor count)
  Keeps-handle t (reactivate id) =
      Keeps-reactivate_department tenant other apart t ctx here id actor

-- Whatever a request of one tenant asks for, and however it ends, the departments of another
-- tenant are the same afterwards.
pub handle-find_all_others :
    (ilike : String → String → Bool) (tenant other actor : ℕ) (ctx : Context) (request : Request)
    (db : Database)
    → other ≢ tenant
    → ctx.tenant_id ≡ some tenant
    → find_all_for_tenant other (handle ilike ctx actor request db).1.departments
      ≡ find_all_for_tenant other db.departments
handle-find_all_others ilike tenant other actor ctx request db apart here =
    (Keeps-handle ilike tenant other actor apart ctx here _ request).at db refl
