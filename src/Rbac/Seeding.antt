-- ===== src/Rbac/Seeding.antt =====
-- PermissionSeedService (src/modules/rbac/services/permission-seed.service.ts), and what seeding
-- leaves behind.
use mathlib.Core.List
use mathlib.Core.List.Memᴰ
use text.Mathlib.Text.{◌==◌ as str_eq}
use text.Mathlib.TextEquality.{eq_iff}
use hr_saas_platform.Shared.{
  ℕ, suc, String, true, ◌≡◌, refl, ap, ◌∙◌, some, List, [], ◌∷◌, Memᴰ, All, All-mono, if◌then◌else◌,
  inl, inr, Bool-cases, arith, string_eq, every_in, every_in_iff, includes, All-Memᴰ,
}
use hr_saas_platform.Shared.Table.{
  find_first, exists_where, exists_where-Memᴰ, Memᴰ-update_where_of, Memᴰ-insert_old,
  Memᴰ-insert_new,
}
use hr_saas_platform.Database.{Database, Permission, Role, EmployeeRole}
use hr_saas_platform.Service.{Action, Context}
use hr_saas_platform.Rbac.SystemPermissions.{
  PermissionDefinition, system_permissions, get_all_permission_codes,
}
use hr_saas_platform.Rbac.SystemRoles.{
  SystemRoleDefinition, system_roles, tenant_admin, get_system_role_by_slug,
}
use hr_saas_platform.Rbac.Repository.{refresh, upsert, upsert_each, upsert_many}
use hr_saas_platform.Rbac.Effective.{Permits, Grants, has_all_permissions-Grants}
use hr_saas_platform.Rbac.Assignments.{has_all_permissions}
use hr_saas_platform.Rbac.Consistency.{IsListed, IsWellFormed}

-- The record of a definition; its id is used where the row is new.
abbrev pub seed_record : Context → PermissionDefinition → ℕ → Permission
seed_record ctx def n = record {
  id = ctx.uuid n;
  code = def.code;
  description = some def.description;
  module_name = def.module_name;
  category = some def.category;
}

abbrev pub seed_records : Context → List PermissionDefinition → ℕ → List Permission
seed_records ctx [] n = []
seed_records ctx (def ∷ defs) n = seed_record ctx def n ∷ seed_records ctx defs (suc n)

unfoldable pub seed : Context → Action (Unit {0})
unfolding upsert_many
seed ctx = upsert_many (seed_records ctx system_permissions 0)

-- The id and the code of a row are in the table.
abbrev pub IsKept : List Permission → Permission → Type 0
IsKept rows p = (q : Permission) × Memᴰ q rows × (q.id ≡ p.id) × (q.code ≡ p.code)

upsert-IsKept :
    (def : Permission) (rows : List Permission) (p : Permission)
    → IsKept rows p
    → IsKept (upsert def rows) p
unfolding upsert
upsert-IsKept def rows p (q, m, same, code) =
    elim (Bool-cases (exists_where (λ p. str_eq p.code def.code) rows)) [
      | inl there ↦ (
        if str_eq q.code def.code then refresh def q else q,
        rw there (Memᴰ-update_where_of (λ p. str_eq p.code def.code) (refresh def) rows m),
        ground (arith, same),
        ground (arith, code),
      )
      | inr new ↦ (q, rw new (Memᴰ-insert_old def rows m), same, code)
    ]

upsert-IsListed : (def : Permission) (rows : List Permission) → IsListed (upsert def rows) def.code
unfolding upsert
upsert-IsListed def rows = elim (Bool-cases (exists_where (λ p. str_eq p.code def.code) rows)) [
  | inl there ↦
      let (q, m, is) = exists_where-Memᴰ (λ p. str_eq p.code def.code) rows there in
      (
        if str_eq q.code def.code then refresh def q else q,
        rw there (Memᴰ-update_where_of (λ p. str_eq p.code def.code) (refresh def) rows m),
        rw is ((eq_iff _ _).0 is),
      )
  | inr new ↦ (def, rw new (Memᴰ-insert_new def rows), refl)
]

upsert_each-IsKept :
    (defs rows : List Permission) (p : Permission)
    → IsKept rows p
    → IsKept (upsert_each defs rows) p
unfolding upsert_each
upsert_each-IsKept [] rows p k = k
upsert_each-IsKept (def ∷ defs) rows p k =
    upsert_each-IsKept defs (upsert def rows) p (upsert-IsKept def rows p k)

upsert_each-IsListed :
    (defs rows : List Permission)
    → All (λ (d : Permission). IsListed (upsert_each defs rows) d.code) defs
unfolding upsert_each
upsert_each-IsListed [] rows = tt
upsert_each-IsListed (def ∷ defs) rows =
    let (p, m, e) = upsert-IsListed def rows in
    let (q, n, _, code) = upsert_each-IsKept defs (upsert def rows) p (p, m, refl, refl) in
    ((q, n, code ∙ e), upsert_each-IsListed defs (upsert def rows))

seed_records-codes :
    (ctx : Context) (rows : List Permission) (defs : List PermissionDefinition) (n : ℕ)
    → All (λ (d : Permission). IsListed rows d.code) (seed_records ctx defs n)
    → All (IsListed rows) (List.map (λ (d : PermissionDefinition). d.code) defs)
seed_records-codes ctx rows [] n h = tt
seed_records-codes ctx rows (def ∷ defs) n (h, hs) =
    (h, seed_records-codes ctx rows defs (suc n) hs)

-- Whatever the table held, once the permissions are seeded every system permission is in it, and no
-- role has lost a permission.
pub seed-keeps :
    (ctx : Context) (db : Database)
    → let after = (seed ctx db).1 in
      All (IsListed after.permissions) get_all_permission_codes
      × ((role : ℕ) (code : String) → Permits db role code → Permits after role code)
unfolding seed
seed-keeps ctx db = (
  seed_records-codes ctx _ system_permissions 0
      (upsert_each-IsListed (seed_records ctx system_permissions 0) db.permissions),
  λ role code h.
      let (q, m, same, kept) =
        upsert_each-IsKept (seed_records ctx system_permissions 0) db.permissions h.permission
          (h.permission, h.listed, refl, refl) in
      record {
        link = h.link;
        linked = h.linked;
        from_role = h.from_role;
        permission = q;
        listed = m;
        to_permission = same ∙ h.to_permission;
        has_code = kept ∙ h.has_code;
      },
)

-- Every default permission of a system role is a system permission.
abbrev Known : SystemRoleDefinition → Type 0
Known d = every_in get_all_permission_codes d.permissions ≡ true

system_roles-Known : All Known system_roles
unfolding every_in includes string_eq
system_roles-Known = (refl, (refl, (refl, (refl, (refl, tt)))))

-- Seeding the permissions lists what the system roles need.
pub seed-registry :
    (ctx : Context) (db : Database) (def : SystemRoleDefinition)
    → Memᴰ def system_roles
    → All (IsListed (seed ctx db).1.permissions) def.permissions
seed-registry ctx db def m =
    All-mono
      (λ c k.
        All-Memᴰ (IsListed (seed ctx db).1.permissions) get_all_permission_codes
          (seed-keeps ctx db).0 k)
      def.permissions
      ((every_in_iff get_all_permission_codes def.permissions).0
        (All-Memᴰ Known system_roles system_roles-Known m))

admin_has_all : every_in tenant_admin.permissions get_all_permission_codes ≡ true
unfolding every_in includes string_eq
admin_has_all = refl

tenant_admin-found : get_system_role_by_slug "tenant_admin" ≡ some tenant_admin
unfolding get_system_role_by_slug find_first
tenant_admin-found = refl

-- In a consistent state, an employee with an assignment of the tenant's active system role
-- "tenant_admin" has every permission of the system.
pub has_all_permissions-tenant_admin :
    (db : Database) (er : EmployeeRole) (role : Role)
    → IsWellFormed db
    → Memᴰ er db.employee_roles
    → Memᴰ role db.roles
    → role.id ≡ er.role_id
    → role.is_active ≡ true
    → role.is_system ≡ true
    → role.slug ≡ "tenant_admin"
    → has_all_permissions er.employee_id er.tenant_id get_all_permission_codes db ≡ true
has_all_permissions-tenant_admin db er role h assigned known same active is_system slug =
    (has_all_permissions-Grants db er.employee_id er.tenant_id get_all_permission_codes).1 (
      All-mono {Q = Grants db er.employee_id er.tenant_id}
        (λ c k. record {
          assignment = er;
          assigned = assigned;
          to_employee = refl;
          in_tenant = refl;
          role = role;
          known = known;
          same_role = same;
          active = active;
          permits = All-Memᴰ (Permits db role.id) tenant_admin.permissions permitted k;
        })
        get_all_permission_codes
        ((every_in_iff tenant_admin.permissions get_all_permission_codes).0 admin_has_all))
  where
    permitted : All (Permits db role.id) tenant_admin.permissions
    permitted =
        h.defaults role known is_system tenant_admin
          (ap get_system_role_by_slug slug ∙ tenant_admin-found)
