-- ===== src/Rbac/Assignments.antt =====
-- RbacService (src/modules/rbac/services/rbac.service.ts). Log lines are left out.
use text.Mathlib.Text.{◌==◌ as str_eq}
use hr_saas_platform.Shared.{
  ℕ, String, if◌then◌else◌, Bool, not, false, Option, none, some, List, [], ◌∷◌, includes, every_in,
  string_eq, UuidText, rendered, same_text,
}
use hr_saas_platform.Exceptions.{resource_not_found, operation_not_permitted}
use hr_saas_platform.Events.{Actor, system, by, role_assigned, role_revoked}
use hr_saas_platform.Database.{Database, Role}
use hr_saas_platform.Service.{
  Action, pure, gets, found_or, throw_if, ◌>>=◌, ◌>>◌, Context, current_tenant_id, new_event,
  emit_async,
}
use hr_saas_platform.Rbac.Repository.{
  find_by_id, find_roles_for_employee, find_permission_codes_for_employee, assign_roles,
}
use hr_saas_platform.Rbac.Repository

pub record EffectivePermissions : Type 0 where
  pub employee_id : ℕ
  pub tenant_id : ℕ
  pub roles : List Role
  pub permissions : List String

unfoldable pub get_effective_permissions : ℕ → ℕ → Database → EffectivePermissions
unfolding find_roles_for_employee find_permission_codes_for_employee
get_effective_permissions employee tenant db = record {
  employee_id = employee;
  tenant_id = tenant;
  roles = find_roles_for_employee employee tenant db;
  permissions = find_permission_codes_for_employee employee tenant db;
}

unfoldable pub has_permission : ℕ → ℕ → String → Database → Bool
unfolding get_effective_permissions
has_permission employee tenant code db =
    includes (get_effective_permissions employee tenant db).permissions code

unfoldable pub has_all_permissions : ℕ → ℕ → List String → Database → Bool
unfolding get_effective_permissions
has_all_permissions employee tenant codes db =
    every_in (get_effective_permissions employee tenant db).permissions codes

-- AssignRoleDto and RevokeRoleDto
pub record AssignRoleDto : Type 0 where
  pub employee_id : UuidText
  pub role_ids : List ℕ

unfoldable pub the_role : ℕ → ℕ → Action Role
the_role tenant id = do
  found ← gets (λ db. find_by_id id tenant db.roles)
  found_or found (resource_not_found "Role" id)

-- The validation loop of `assignRoles`, which collects the names.
unfoldable pub assignable_names : ℕ → List ℕ → Action (List String)
assignable_names tenant [] = pure []
assignable_names tenant (id ∷ ids) = do
  role ← the_role tenant id
  throw_if (not role.is_active) (operation_not_permitted "assign_role")
  names ← assignable_names tenant ids
  pure (role.name ∷ names)

unfoldable pub assign_roles_to : Context → AssignRoleDto → Actor → Action (List Role)
assign_roles_to ctx dto assigned_by = do
  tenant ← current_tenant_id ctx
  names ← assignable_names tenant dto.role_ids
  assign_roles dto.employee_id.uuid tenant dto.role_ids assigned_by
  emit_async ctx (
      new_event ctx (some tenant) assigned_by
        (role_assigned dto.employee_id.uuid dto.role_ids names))
  gets (find_roles_for_employee dto.employee_id.uuid tenant)

-- The validation loop of `revokeRoles`.
unfoldable pub revocable_names : ℕ → List ℕ → Action (List String)
revocable_names tenant [] = pure []
revocable_names tenant (id ∷ ids) = do
  role ← the_role tenant id
  names ← revocable_names tenant ids
  pure (role.name ∷ names)

abbrev pub is_tenant_admin : Option Role → Bool
is_tenant_admin none = false
is_tenant_admin (some role) = str_eq role.slug "tenant_admin"

-- The loop against the lockout of oneself.
unfoldable pub refuse_tenant_admin : ℕ → List ℕ → Action (Unit {0})
refuse_tenant_admin tenant [] = pure tt
refuse_tenant_admin tenant (id ∷ ids) = do
  role ← gets (λ db. find_by_id id tenant db.roles)
  throw_if (is_tenant_admin role) (operation_not_permitted "revoke_role")
  refuse_tenant_admin tenant ids

-- `dto.employeeId === revokedBy`
abbrev pub is_own : UuidText → Actor → Bool
is_own employee system = false
is_own employee (by user) = same_text employee (rendered user)

unfoldable pub revoke_roles_from : Context → AssignRoleDto → Actor → Action (List Role)
revoke_roles_from ctx dto revoked_by = do
  tenant ← current_tenant_id ctx
  names ← revocable_names tenant dto.role_ids
  if is_own dto.employee_id revoked_by then refuse_tenant_admin tenant dto.role_ids else pure tt
  Repository.revoke_roles dto.employee_id.uuid tenant dto.role_ids
  emit_async ctx (
      new_event ctx (some tenant) revoked_by (role_revoked dto.employee_id.uuid dto.role_ids names))
  gets (find_roles_for_employee dto.employee_id.uuid tenant)

unfoldable pub get_employee_roles : Context → ℕ → Action (List Role)
get_employee_roles ctx employee = do
  tenant ← current_tenant_id ctx
  gets (find_roles_for_employee employee tenant)
