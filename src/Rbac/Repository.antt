-- ===== src/Rbac/Repository.antt =====
-- RoleRepository, PermissionRepository and EmployeeRoleRepository (src/modules/rbac/repositories).
-- The orders of the listings are left out.
use mathlib.Core.Option
use mathlib.Core.List
use text.Mathlib.Text.{◌==◌ as str_eq}
use hr_saas_platform.Shared.{
  ℕ, String, ◌==◌, if◌then◌else◌, Bool, true, false, not, ◌&&◌, ◌||◌, Option, none, some, List, [],
  ◌∷◌, ◌++◌, includes, distinct, nat_eq, string_eq,
}
use hr_saas_platform.Shared.Table.{
  find_first, exists_where, select, update_where, delete_where, insert,
}
use hr_saas_platform.Exceptions.{unique_violation, invalid_text_representation}
use hr_saas_platform.Events.{Actor, system, by}
use hr_saas_platform.Database.{Database, Role, Permission, RolePermission, EmployeeRole}
use hr_saas_platform.Service.{ok, err, Action, pure, ◌>>=◌, ◌>>◌}

abbrev pub has_id : ℕ → ℕ → Role → Bool
has_id id tenant r = r.id == id && r.tenant_id == tenant

abbrev pub has_slug : String → ℕ → Role → Bool
has_slug slug tenant r = str_eq r.slug slug && r.tenant_id == tenant

unfoldable pub find_all_by_tenant : ℕ → List Role → List Role
find_all_by_tenant tenant = select (λ r. r.tenant_id == tenant)

unfoldable pub find_by_id : ℕ → ℕ → List Role → Option Role
find_by_id id tenant = find_first (has_id id tenant)

unfoldable pub find_by_slug : String → ℕ → List Role → Option Role
find_by_slug slug tenant = find_first (has_slug slug tenant)

-- role_permissions INNER JOIN permissions, for one role
unfoldable pub permissions_of : ℕ → Database → List Permission
permissions_of role db =
    List.flat_map (λ (rp : RolePermission). select (λ p. p.id == rp.permission_id) db.permissions)
      (select (λ rp. rp.role_id == role) db.role_permissions)

abbrev pub code_of : Permission → String
code_of p = p.code

unfoldable pub get_permission_codes_for_role : ℕ → Database → List String
unfolding permissions_of
get_permission_codes_for_role role db = List.map code_of (permissions_of role db)

-- RoleWithPermissions: the role and its permissions.
unfoldable pub find_with_permissions : ℕ → ℕ → Database → Option (Role × List Permission)
unfolding find_by_id permissions_of
find_with_permissions id tenant db =
    Option.map (λ (r : Role). (r, permissions_of id db)) (find_by_id id tenant db.roles)

-- The primary key, and the unique indexes on (tenant_id, slug) and (tenant_id, name).
abbrev pub collides : Role → Role → Bool
collides new r =
    r.id == new.id
    || (r.tenant_id == new.tenant_id && (str_eq r.slug new.slug || str_eq r.name new.name))

unfoldable pub create : Role → Action Role
create row db =
    if exists_where (collides row) db.roles
    then (err unique_violation, db)
    else (ok row, record db { roles = insert row db.roles })

-- The fields that `updateRole` sets; the description may be set to null.
pub record Patch : Type 0 where
  pub name : Option String
  pub description : Option (Option String)

abbrev pub set_or : {A : Type 0} → Option A → A → A
set_or none old = old
set_or (some new) old = new

unfoldable pub apply_patch : Patch → Role → Role
apply_patch p r = record r {
  name = set_or p.name r.name;
  description = set_or p.description r.description;
}

-- Another role of the tenant has the new name.
abbrev pub name_taken : ℕ → ℕ → Patch → List Role → Bool
name_taken id tenant patch rows = elim patch.name [
  | none ↦ false
  | some name ↦
      exists_where (λ r. not (r.id == id) && (r.tenant_id == tenant && str_eq r.name name)) rows
]

unfoldable pub update : ℕ → ℕ → Patch → Action (Option Role)
unfolding find_by_id
update id tenant patch db =
    if name_taken id tenant patch db.roles then (err unique_violation, db) else (
      ok (Option.map (apply_patch patch) (find_by_id id tenant db.roles)),
      record db { roles = update_where (has_id id tenant) (apply_patch patch) db.roles },
    )

-- The role's rows of role_permissions and employee_roles go with it (ON DELETE CASCADE).
unfoldable pub delete : ℕ → ℕ → Action Bool
delete id tenant db =
    if exists_where (has_id id tenant) db.roles
    then (
      ok true,
      record db {
        roles = delete_where (has_id id tenant) db.roles;
        role_permissions = delete_where (λ rp. rp.role_id == id) db.role_permissions;
        employee_roles = delete_where (λ er. er.role_id == id) db.employee_roles;
      },
    )
    else (ok false, db)

abbrev pub grant : ℕ → ℕ → RolePermission
grant role permission = record { role_id = role; permission_id = permission }

-- The callers pass the keys of distinct rows of an existing role, so that no constraint fails.
unfoldable pub set_permissions : ℕ → List ℕ → Action (Unit {0})
set_permissions role ids db = (
  ok tt,
  record db {
    role_permissions =
        delete_where (λ rp. rp.role_id == role) db.role_permissions ++ List.map (grant role) ids;
  },
)

unfoldable pub find_by_code : String → List Permission → Option Permission
find_by_code code = find_first (λ p. str_eq p.code code)

unfoldable pub find_by_codes : List String → List Permission → List Permission
find_by_codes codes = select (λ p. includes codes p.code)

unfoldable pub find_by_module : String → List Permission → List Permission
find_by_module name = select (λ p. str_eq p.module_name name)

abbrev pub is_of : ℕ → ℕ → EmployeeRole → Bool
is_of employee tenant er = er.employee_id == employee && er.tenant_id == tenant

-- employee_roles INNER JOIN roles, the active ones
unfoldable pub active_roles_of : ℕ → ℕ → Database → List Role
active_roles_of employee tenant db =
    List.flat_map (λ (er : EmployeeRole). select (λ r. r.id == er.role_id && r.is_active) db.roles)
      (select (is_of employee tenant) db.employee_roles)

-- A RoleSummary is the row that it is copied from.
unfoldable pub find_roles_for_employee : ℕ → ℕ → Database → List Role
unfolding active_roles_of
find_roles_for_employee = active_roles_of

unfoldable pub find_permission_codes_for_employee : ℕ → ℕ → Database → List String
unfolding active_roles_of get_permission_codes_for_role
find_permission_codes_for_employee employee tenant db = distinct (
    List.flat_map (λ (r : Role). get_permission_codes_for_role r.id db)
      (active_roles_of employee tenant db))

abbrev pub new_assignment : ℕ → ℕ → ℕ → ℕ → EmployeeRole
new_assignment employee tenant user role = record {
  tenant_id = tenant;
  employee_id = employee;
  role_id = role;
  assigned_by = some user;
}

-- One insertion of the loop, with its catch. The primary key is (employee_id, role_id). The catch asks
-- for an error whose `code` is 23505; drizzle-orm 0.45 throws an error of its own around PostgreSQL's,
-- which has no `code`, so that a conflict is thrown on. `assigned_by` is a UUID column, and "system" is
-- not a UUID.
unfoldable pub assign_role : ℕ → ℕ → Actor → ℕ → Action (Unit {0})
unfolding exists_where insert
assign_role employee tenant system role db = (err invalid_text_representation, db)
assign_role employee tenant (by user) role db =
    if exists_where (λ er. er.employee_id == employee && er.role_id == role) db.employee_roles
    then (err unique_violation, db)
    else (
      ok tt,
      record db {
        employee_roles = insert (new_assignment employee tenant user role) db.employee_roles;
      },
    )

unfoldable pub assign_roles : ℕ → ℕ → List ℕ → Actor → Action (Unit {0})
unfolding assign_role ◌>>=◌
assign_roles employee tenant [] actor = pure tt
assign_roles employee tenant (role ∷ roles) actor = do
  assign_role employee tenant actor role
  assign_roles employee tenant roles actor

unfoldable pub revoke_roles : ℕ → ℕ → List ℕ → Action (Unit {0})
revoke_roles employee tenant roles db = (
  ok tt,
  record db {
    employee_roles =
        delete_where (λ er. is_of employee tenant er && includes roles er.role_id)
          db.employee_roles;
  },
)

unfoldable pub revoke_all_roles : ℕ → ℕ → Action (Unit {0})
revoke_all_roles employee tenant db =
    (ok tt, record db { employee_roles = delete_where (is_of employee tenant) db.employee_roles })

-- An inactive role counts too.
unfoldable pub has_role : ℕ → ℕ → String → Database → Bool
has_role employee tenant slug db =
    exists_where
      (λ er.
        is_of employee tenant er
        && exists_where (λ (r : Role). r.id == er.role_id && str_eq r.slug slug) db.roles)
      db.employee_roles

-- INSERT … ON CONFLICT (code) DO UPDATE
abbrev pub refresh : Permission → Permission → Permission
refresh def p = record p {
  description = def.description;
  module_name = def.module_name;
  category = def.category;
}

unfoldable pub upsert : Permission → List Permission → List Permission
upsert def rows =
    if exists_where (λ p. str_eq p.code def.code) rows
    then update_where (λ p. str_eq p.code def.code) (refresh def) rows
    else insert def rows

-- The loop of `upsertMany`.
unfoldable pub upsert_each : List Permission → List Permission → List Permission
unfolding upsert
upsert_each [] rows = rows
upsert_each (def ∷ defs) rows = upsert_each defs (upsert def rows)

unfoldable pub upsert_many : List Permission → Action (Unit {0})
unfolding upsert_each
upsert_many defs db = (ok tt, record db { permissions = upsert_each defs db.permissions })
