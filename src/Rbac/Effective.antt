-- ===== src/Rbac/Effective.antt =====
-- Effective permissions: what the joins of `findPermissionCodesForEmployee` return.
use mathlib.Core.List.Memᴰ
use hr_saas_platform.Shared.{
  ℕ, String, ◌==◌, ==_iff, true, ◌&&◌, ◌≡◌, ◌↔◌, refl, subst, List, Memᴰ, All, All-mono, string_eq,
  every_in_iff, Memᴰ-flat_map, Memᴰ-flat_map_of, Memᴰ-distinct, Memᴰ-distinct_of, includes-Memᴰ,
  Memᴰ-includes, and_cases,
}
use hr_saas_platform.Shared.Table.{select, Memᴰ-select, Memᴰ-select_of}
use hr_saas_platform.Database.{Database, Role, Permission, RolePermission, EmployeeRole}
use hr_saas_platform.Rbac.Repository.{
  permissions_of, code_of, get_permission_codes_for_role, is_of, active_roles_of,
  find_permission_codes_for_employee,
}
use hr_saas_platform.Rbac.Assignments.{
  get_effective_permissions, has_permission, has_all_permissions,
}

-- A row of role_permissions joins the role and a permission of this code.
pub record Permits (db : Database) (role : ℕ) (code : String) : Type 0 where
  pub link : RolePermission
  pub linked : Memᴰ link db.role_permissions
  pub from_role : link.role_id ≡ role
  pub permission : Permission
  pub listed : Memᴰ permission db.permissions
  pub to_permission : permission.id ≡ link.permission_id
  pub has_code : permission.code ≡ code

-- An active role that is assigned to the employee in the tenant permits the code.
pub record Grants (db : Database) (employee tenant : ℕ) (code : String) : Type 0 where
  pub assignment : EmployeeRole
  pub assigned : Memᴰ assignment db.employee_roles
  pub to_employee : assignment.employee_id ≡ employee
  pub in_tenant : assignment.tenant_id ≡ tenant
  pub role : Role
  pub known : Memᴰ role db.roles
  pub same_role : role.id ≡ assignment.role_id
  pub active : role.is_active ≡ true
  pub permits : Permits db role.id code

module _ (db : Database) where
  pub get_permission_codes_for_role-Permits :
      (role : ℕ) (code : String)
      → Memᴰ code (get_permission_codes_for_role role db) ↔ Permits db role code
  unfolding get_permission_codes_for_role permissions_of
  get_permission_codes_for_role-Permits role code = (
    λ m.
        let (p, n, e) = Memᴰ.of_map code_of (permissions_of role db) m in
        let (rp, k, l) =
          Memᴰ-flat_map _ (select (λ rp. rp.role_id == role) db.role_permissions) n in
        let (k', from) = Memᴰ-select (λ rp. rp.role_id == role) db.role_permissions k in
        let (l', to) = Memᴰ-select (λ p. p.id == rp.permission_id) db.permissions l in
        record {
          link = rp;
          linked = k';
          from_role = (==_iff _ _).0 from;
          permission = p;
          listed = l';
          to_permission = (==_iff _ _).0 to;
          has_code = e;
        },
    λ h.
        subst (λ c. Memᴰ c (get_permission_codes_for_role role db)) h.has_code
          (Memᴰ.map code_of (
            Memᴰ-flat_map_of _ (select (λ rp. rp.role_id == role) db.role_permissions)
              (Memᴰ-select_of (λ rp. rp.role_id == role) db.role_permissions h.linked
                ((==_iff _ _).1 h.from_role))
              (Memᴰ-select_of (λ p. p.id == h.link.permission_id) db.permissions h.listed
                ((==_iff _ _).1 h.to_permission)))),
  )

  module _ (employee tenant : ℕ) where
    find_permission_codes_for_employee-Grants :
        (code : String)
        → Memᴰ code (find_permission_codes_for_employee employee tenant db)
          ↔ Grants db employee tenant code
    unfolding find_permission_codes_for_employee active_roles_of
    find_permission_codes_for_employee-Grants code = (
      λ m.
          let (r, n, k) =
            Memᴰ-flat_map (λ (r : Role). get_permission_codes_for_role r.id db)
              (active_roles_of employee tenant db) (Memᴰ-distinct _ m) in
          let (er, n', l) = Memᴰ-flat_map _ (select (is_of employee tenant) db.employee_roles) n in
          let (assigned, ofs) = Memᴰ-select (is_of employee tenant) db.employee_roles n' in
          let (known, joins) = Memᴰ-select (λ r. r.id == er.role_id && r.is_active) db.roles l in
          let (to_employee, in_tenant) = and_cases _ _ ofs in
          let (same_role, active) = and_cases _ _ joins in
          record {
            assignment = er;
            assigned = assigned;
            to_employee = (==_iff _ _).0 to_employee;
            in_tenant = (==_iff _ _).0 in_tenant;
            role = r;
            known = known;
            same_role = (==_iff _ _).0 same_role;
            active = active;
            permits = (get_permission_codes_for_role-Permits r.id code).0 k;
          },
      λ g. Memᴰ-distinct_of _ (
          Memᴰ-flat_map_of (λ (r : Role). get_permission_codes_for_role r.id db)
            (active_roles_of employee tenant db)
            (Memᴰ-flat_map_of _ (select (is_of employee tenant) db.employee_roles)
              (Memᴰ-select_of (is_of employee tenant) db.employee_roles g.assigned
                (rw ((==_iff _ _).1 g.to_employee, (==_iff _ _).1 g.in_tenant) refl))
              (Memᴰ-select_of (λ r. r.id == g.assignment.role_id && r.is_active) db.roles g.known
                (rw ((==_iff _ _).1 g.same_role, g.active) refl)))
            ((get_permission_codes_for_role-Permits g.role.id code).1 g.permits)),
    )

    pub has_permission-Grants :
        (code : String)
        → (has_permission employee tenant code db ≡ true) ↔ Grants db employee tenant code
    unfolding has_permission get_effective_permissions
    has_permission-Grants code = (
      λ h. (find_permission_codes_for_employee-Grants code).0 (includes-Memᴰ _ code h),
      λ g. Memᴰ-includes _ code ((find_permission_codes_for_employee-Grants code).1 g),
    )

    -- An employee has all of a list of permissions exactly if each of them is granted by an active
    -- role that is assigned to the employee in the tenant: effective permissions are the union of
    -- those of the active assigned roles.
    pub has_all_permissions-Grants :
        (codes : List String)
        → (has_all_permissions employee tenant codes db ≡ true)
          ↔ All (Grants db employee tenant) codes
    unfolding has_all_permissions get_effective_permissions
    has_all_permissions-Grants codes = (
      λ h.
          All-mono (λ c. (find_permission_codes_for_employee-Grants c).0) codes
            ((every_in_iff _ codes).0 h),
      λ hs.
          (every_in_iff _ codes).1
            (All-mono (λ c. (find_permission_codes_for_employee-Grants c).1) codes hs),
    )
