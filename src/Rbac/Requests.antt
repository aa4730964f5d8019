-- ===== src/Rbac/Requests.antt =====
-- The writing routes of RoleController (src/modules/rbac/controllers/role.controller.ts), which pass
-- "system" for the user, and the seeding of a tenant's system roles.
pub mod Invariant
pub mod Refusals
use hr_saas_platform.Shared.{ℕ, ◌≡◌, some}
use hr_saas_platform.Database.{Database}
use hr_saas_platform.Events.{Actor, system}
use hr_saas_platform.Service.{Action, pure, ◌>>=◌, ◌>>◌, Context}
use hr_saas_platform.Rbac.Roles.{
  CreateRoleDto, UpdateRoleDto, create_custom_role, update_role, delete_role,
  seed_system_roles_for_tenant,
}
use hr_saas_platform.Rbac.Assignments.{AssignRoleDto, assign_roles_to, revoke_roles_from}

pub data Request : Type 0 where
  create : CreateRoleDto → Request
  update : ℕ → UpdateRoleDto → Request
  delete : ℕ → Request
  assign revoke : AssignRoleDto → Request

-- The service method of the route, for the user that it is called with.
unfoldable pub serve : Context → Actor → Request → Action (Unit {0})
serve ctx actor (create dto) = do create_custom_role ctx dto actor; pure tt
serve ctx actor (update id dto) = do update_role ctx id dto; pure tt
serve ctx actor (delete id) = delete_role ctx id
serve ctx actor (assign dto) = do assign_roles_to ctx dto actor; pure tt
serve ctx actor (revoke dto) = do revoke_roles_from ctx dto actor; pure tt

unfoldable pub handle : Context → Request → Action (Unit {0})
unfolding serve
handle ctx request = serve ctx system request

-- Calls of any tenants' requests by any users, and seedings, one after the other.
pub data Reaches (before : Database) : Database → Type 0 where
  start : Reaches before before
  call :
      {db : Database} (ctx : Context) (tenant : ℕ) (actor : Actor) (request : Request)
      → Reaches before db
      → ctx.tenant_id ≡ some tenant
      → Reaches before (serve ctx actor request db).1
  seeding :
      {db : Database} (ctx : Context) (tenant : ℕ)
      → Reaches before db
      → Reaches before (seed_system_roles_for_tenant ctx tenant db).1
