-- ===== src/Rbac/Roles.antt =====
-- RoleService and PermissionService (src/modules/rbac/services/role.service.ts,
-- src/modules/rbac/services/permission.service.ts). Log lines are left out.
use mathlib.Core.List
use text.Mathlib.Text.{◌==◌ as str_eq}
use hr_saas_platform.Shared.{
  ℕ, suc, String, if◌then◌else◌, Bool, true, false, not, ◌&&◌, ◌||◌, Option, none, some, List, [],
  ◌∷◌, missing_from, string_eq,
}
use hr_saas_platform.Exceptions.{
  resource_not_found, resource_already_exists, operation_not_permitted, internal_server_error,
}
use hr_saas_platform.Events.{Actor, role_created}
use hr_saas_platform.Database.{Database, Role, Permission}
use hr_saas_platform.Service.{
  Action, pure, gets, found_or, throw_if, ◌>>=◌, ◌>>◌, Context, current_tenant_id, new_event,
  emit_async,
}
use hr_saas_platform.Rbac.SystemRoles.{SystemRoleDefinition, system_roles, get_system_role_by_slug}
use hr_saas_platform.Rbac.Repository.{
  find_all_by_tenant, find_by_id, find_by_slug, code_of, find_with_permissions, create, update,
  delete, set_permissions, find_by_codes,
}

abbrev pub is_some {ℓ} : {A : Type ℓ} → Option A → Bool
is_some none = false
is_some (some a) = true

abbrev pub is_empty {ℓ} : {A : Type ℓ} → List A → Bool
is_empty [] = true
is_empty (x ∷ xs) = false

-- A string that is given and not empty, which is what `if (s)` and `s || null` ask for.
abbrev pub truthy : Option String → Option String
truthy none = none
truthy (some s) = if str_eq s "" then none else some s

unfoldable pub validate_permission_codes : List String → Database → List String
unfolding find_by_codes
validate_permission_codes codes db =
    missing_from (List.map code_of (find_by_codes codes db.permissions)) codes

abbrev pub id_of : Permission → ℕ
id_of p = p.id

-- The ids of the codes, once they are known to be valid.
unfoldable pub resolve_permissions : String → List String → Action (List ℕ)
resolve_permissions operation codes = do
  invalid_codes ← gets (validate_permission_codes codes)
  throw_if (not (is_empty invalid_codes)) (operation_not_permitted operation)
  perms ← gets (λ db. find_by_codes codes db.permissions)
  pure (List.map id_of perms)

unfoldable pub find_all_for_tenant : Context → Action (List Role)
find_all_for_tenant ctx = do
  tenant ← current_tenant_id ctx
  gets (λ db. find_all_by_tenant tenant db.roles)

unfoldable pub find_by_id_with_permissions : Context → ℕ → Action (Role × List Permission)
find_by_id_with_permissions ctx id = do
  tenant ← current_tenant_id ctx
  role ← gets (find_with_permissions id tenant)
  found_or role (resource_not_found "Role" id)

-- CreateRoleDto
pub record CreateRoleDto : Type 0 where
  pub name : String
  pub slug : String
  pub description : Option String
  pub permission_codes : List String

abbrev pub new_role : Context → ℕ → CreateRoleDto → Role
new_role ctx tenant dto = record {
  id = ctx.uuid 0;
  tenant_id = tenant;
  name = dto.name;
  description = truthy dto.description;
  is_system = false;
  slug = dto.slug;
  is_active = true;
}

unfoldable pub create_custom_role :
    Context → CreateRoleDto → Actor → Action (Role × List Permission)
create_custom_role ctx dto created_by = do
  tenant ← current_tenant_id ctx
  existing ← gets (λ db. find_by_slug dto.slug tenant db.roles)
  throw_if (is_some existing) (resource_already_exists "Role" "slug")
  permission_ids ← resolve_permissions "create_role" dto.permission_codes
  role ← create (new_role ctx tenant dto)
  set_permissions role.id permission_ids
  emit_async ctx
      (new_event ctx (some tenant) created_by (role_created role.id role.name role.slug false))
  created_role ← gets (find_with_permissions role.id tenant)
  found_or created_role internal_server_error

-- UpdateRoleDto: a description of null is `some none`.
pub record UpdateRoleDto : Type 0 where
  pub name : Option String
  pub description : Option (Option String)
  pub permission_codes : Option (List String)

-- A default permission of the role's definition is not among the codes.
abbrev pub misses : List String → Option SystemRoleDefinition → Bool
misses codes none = false
misses codes (some def) = not (is_empty (missing_from codes def.permissions))

-- The new codes of a system role drop one of its defaults.
unfoldable pub misses_defaults : String → Option (List String) → Bool
misses_defaults slug none = false
misses_defaults slug (some codes) = misses codes (get_system_role_by_slug slug)

unfoldable pub write_permissions : ℕ → Option (List String) → Action (Unit {0})
write_permissions id none = pure tt
write_permissions id (some codes) = do
  permission_ids ← resolve_permissions "update_role" codes
  set_permissions id permission_ids

unfoldable pub write_metadata : ℕ → ℕ → UpdateRoleDto → Action (Unit {0})
write_metadata id tenant dto =
    if is_some (truthy dto.name) || is_some dto.description
    then (do
      update id tenant (record { name = truthy dto.name; description = dto.description })
      pure tt)
    else pure tt

unfoldable pub update_role : Context → ℕ → UpdateRoleDto → Action (Role × List Permission)
update_role ctx id dto = do
  tenant ← current_tenant_id ctx
  found ← gets (λ db. find_by_id id tenant db.roles)
  role ← found_or found (resource_not_found "Role" id)
  throw_if (role.is_system && is_some (truthy dto.name)) (operation_not_permitted "update_role")
  throw_if (role.is_system && misses_defaults role.slug dto.permission_codes)
      (operation_not_permitted "update_role")
  write_permissions id dto.permission_codes
  write_metadata id tenant dto
  updated_role ← gets (find_with_permissions id tenant)
  found_or updated_role internal_server_error

unfoldable pub delete_role : Context → ℕ → Action (Unit {0})
delete_role ctx id = do
  tenant ← current_tenant_id ctx
  found ← gets (λ db. find_by_id id tenant db.roles)
  role ← found_or found (resource_not_found "Role" id)
  throw_if role.is_system (operation_not_permitted "delete_role")
  delete id tenant
  pure tt

abbrev pub system_role : Context → ℕ → SystemRoleDefinition → ℕ → Role
system_role ctx tenant def n = record {
  id = ctx.uuid n;
  tenant_id = tenant;
  name = def.name;
  description = some def.description;
  is_system = true;
  slug = def.slug;
  is_active = true;
}

-- The loop's body; `n` counts the rounds, and so the UUIDs.
unfoldable pub seed_role : Context → ℕ → SystemRoleDefinition → ℕ → Action (Unit {0})
seed_role ctx tenant def n = do
  existing ← gets (λ db. find_by_slug def.slug tenant db.roles)
  if is_some existing then pure tt else (do
    role ← create (system_role ctx tenant def n)
    perms ← gets (λ db. find_by_codes def.permissions db.permissions)
    set_permissions role.id (List.map id_of perms))

unfoldable pub seed_each : Context → ℕ → List SystemRoleDefinition → ℕ → Action (Unit {0})
seed_each ctx tenant [] n = pure tt
seed_each ctx tenant (def ∷ defs) n = do
  seed_role ctx tenant def n
  seed_each ctx tenant defs (suc n)

-- `seedSystemRolesForTenant`
unfoldable pub seed_system_roles_for_tenant : Context → ℕ → Action (Unit {0})
seed_system_roles_for_tenant ctx tenant = seed_each ctx tenant system_roles 0
