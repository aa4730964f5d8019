-- ===== src/Rbac/Revocation.antt =====
-- `revokeRoles`: what an employee may do afterwards.
use hr_saas_platform.Shared.{
  ℕ, String, ==_iff, Bool, true, false, ◌&&◌, ◌≡◌, ◌↔◌, refl, sym, subst, ap, ◌∙◌, some, List, [],
  ◌∷◌, Memᴰ, All, includes, nat_eq, inl, inr, Bool-cases, Memᴰ-includes, includes-Memᴰ, and_cases,
}
use hr_saas_platform.Shared.Table.{delete_where, insert, Memᴰ-delete_where, Memᴰ-delete_where_of}
use hr_saas_platform.Events.{Actor, role_revoked}
use hr_saas_platform.Database.{Database, Role, EmployeeRole}
use hr_saas_platform.Service.{Context, new_event, outbox_row}
use hr_saas_platform.Service.Triple.{
  Triple, Triple-throw_if, Triple-pure, Triple-gets, Triple-if, Triple-bind, Triple-tenant,
  Triple-weaken, Triple-given, Triple-emit_async, Ends,
}
use hr_saas_platform.Rbac.Repository.{find_by_id, is_of, find_roles_for_employee, revoke_roles}
use hr_saas_platform.Rbac.Assignments.{
  AssignRoleDto, is_own, revocable_names, is_tenant_admin, refuse_tenant_admin, revoke_roles_from,
}
use hr_saas_platform.Rbac.Lookups.{Unchanged, Refused, IsFound, the_role-Triple}
use hr_saas_platform.Rbac.Effective.{Permits, Grants}

-- The assignments after a revocation, and the event that tells of it.
abbrev pub revoked : Context → ℕ → AssignRoleDto → Actor → List String → Database → Database
revoked ctx tenant dto revoked_by names db = record db {
  employee_roles =
      delete_where (λ er. is_of dto.employee_id.uuid tenant er && includes dto.role_ids er.role_id)
        db.employee_roles;
  event_outbox =
      insert
        (outbox_row ctx (
          new_event ctx (some tenant) revoked_by
            (role_revoked dto.employee_id.uuid dto.role_ids names)))
        db.event_outbox;
}

module _ (db : Database) where
  revocable_names-Triple :
      (tenant : ℕ) (ids : List ℕ)
      → Triple
          (Unchanged db)
          (revocable_names tenant ids)
          (λ _ d. Unchanged db d × All (IsFound db tenant) ids)
          (Refused db)
  unfolding revocable_names
  revocable_names-Triple tenant [] =
      Triple-weaken (Triple-pure _) (λ d h. h) (λ _ d (h, _). (h, tt))
  revocable_names-Triple tenant (id ∷ ids) = Triple-bind _ _ (the_role-Triple db tenant id) (λ role.
      Triple-given (λ found. Triple-bind _ _ (revocable_names-Triple tenant ids) (λ names.
        Triple-weaken (Triple-pure _) (λ d h. h) (λ _ d ((h, hs), _). (h, ((role, found), hs))))))

  refuse_tenant_admin-Triple :
      (tenant : ℕ) (ids : List ℕ)
      → Triple
          (Unchanged db)
          (refuse_tenant_admin tenant ids)
          (λ _ d.
            Unchanged db d
            × All (λ id. is_tenant_admin (find_by_id id tenant db.roles) ≡ false) ids)
          (Refused db)
  unfolding refuse_tenant_admin
  refuse_tenant_admin-Triple tenant [] =
      Triple-weaken (Triple-pure _) (λ d h. h) (λ _ d (h, _). (h, tt))
  refuse_tenant_admin-Triple tenant (id ∷ ids) =
      Triple-bind _ _
        (Triple-weaken (Triple-gets _) (λ d h. h)
          (λ role d (h, e). (h, e ∙ ap (λ (x : Database). find_by_id id tenant x.roles) h)))
        (λ role. Triple-given (λ e. Triple-bind _ _ (Triple-throw_if _ _ (λ d h. h)) (λ _.
          Triple-given (λ other.
            Triple-weaken (refuse_tenant_admin-Triple tenant ids) (λ d h. h)
              (λ _ d (h, hs). (h, (ap is_tenant_admin (sym e) ∙ other, hs)))))))

  revoke_roles-Triple :
      (employee tenant : ℕ) (ids : List ℕ)
      → Triple
          (Unchanged db)
          (revoke_roles employee tenant ids)
          (λ _ d. d ≡ record db {
            employee_roles =
                delete_where
                  (λ er. is_of employee tenant er && includes ids er.role_id)
                  db.employee_roles;
          })
          (Refused db)
  unfolding revoke_roles
  revoke_roles-Triple employee tenant ids = record {
    at = λ d h.
        ap
          (λ (x : Database). record x {
            employee_roles =
                delete_where (λ er. is_of employee tenant er && includes ids er.role_id)
                  x.employee_roles;
          })
          h;
  }

  -- What a revocation that is not refused does.
  pub record IsRevoked (ctx : Context) (tenant : ℕ) (dto : AssignRoleDto) (revoked_by : Actor)
      (roles : List Role) (d : Database) : Type 0 where
    pub names : List String
    pub state : d ≡ revoked ctx tenant dto revoked_by names db
    pub known : All (IsFound db tenant) dto.role_ids
    pub kept_admin :
        is_own dto.employee_id revoked_by ≡ true
        → All (λ id. is_tenant_admin (find_by_id id tenant db.roles) ≡ false) dto.role_ids
    pub returned : roles ≡ find_roles_for_employee dto.employee_id.uuid tenant d

  pub revoke_roles_from-Triple :
      (ctx : Context) (tenant : ℕ) (dto : AssignRoleDto) (revoked_by : Actor)
      → ctx.tenant_id ≡ some tenant
      → Triple
          (Unchanged db)
          (revoke_roles_from ctx dto revoked_by)
          (IsRevoked ctx tenant dto revoked_by)
          (Refused db)
  unfolding revoke_roles_from
  revoke_roles_from-Triple ctx tenant dto revoked_by here = Triple-tenant ctx _ here (
      Triple-bind _ _ (revocable_names-Triple tenant dto.role_ids) (λ names. Triple-given (λ known.
        Triple-bind _ _
          (Triple-if
            {Q = λ _ d.
              Unchanged db d
              × (is_own dto.employee_id revoked_by ≡ true
                  → All (λ id. is_tenant_admin (find_by_id id tenant db.roles) ≡ false)
                      dto.role_ids)}
            _ _ _
            (λ own.
              Triple-weaken (refuse_tenant_admin-Triple tenant dto.role_ids) (λ d h. h)
                (λ _ d (h, hs). (h, λ _. hs)))
            (λ other.
              Triple-weaken (Triple-pure _) (λ d h. h)
                (λ _ d (h, _). (h, λ e. absurd (cc (other, e))))))
          (λ _. Triple-given (λ kept_admin.
            Triple-bind _ _ (revoke_roles-Triple dto.employee_id.uuid tenant dto.role_ids) (λ _.
              Triple-bind _ _ (Triple-emit_async ctx _ _) (λ _.
                Triple-weaken (Triple-gets _) (λ d h. h)
                  (λ roles d (h, e). record {
                    names = names;
                    state = h;
                    known = known;
                    kept_admin = kept_admin;
                    returned = e;
                  }))))))))

-- Whether the revocation takes this grant away.
abbrev pub IsRevokedGrant :
    AssignRoleDto
    → ℕ
    → {db : Database} {employee in_tenant : ℕ} {code : String} → Grants db employee in_tenant code
    → Type 0
IsRevokedGrant dto tenant {employee} {in_tenant} g =
    (employee ≡ dto.employee_id.uuid) × (in_tenant ≡ tenant) × Memᴰ g.role.id dto.role_ids

module _ (ctx : Context) (tenant : ℕ) (dto : AssignRoleDto) (revoked_by : Actor)
    (db : Database) where
  abbrev is_revoked : EmployeeRole → Bool
  is_revoked er = is_of dto.employee_id.uuid tenant er && includes dto.role_ids er.role_id

  -- Afterwards a grant holds if it held before and is not revoked.
  abbrev pub GrantsRemain : Database → Type 0
  GrantsRemain after =
      (employee in_tenant : ℕ) (code : String)
      → Grants after employee in_tenant code
        ↔ ((g : Grants db employee in_tenant code) × ¬ IsRevokedGrant dto tenant g)

  revoked-GrantsRemain :
      (names : List String) → GrantsRemain (revoked ctx tenant dto revoked_by names db)
  revoked-GrantsRemain names employee in_tenant code = (
    λ g.
        let (m, kept) = Memᴰ-delete_where is_revoked db.employee_roles g.assigned in
        (
          record {
            assignment = g.assignment;
            assigned = m;
            to_employee = g.to_employee;
            in_tenant = g.in_tenant;
            role = g.role;
            known = g.known;
            same_role = g.same_role;
            active = g.active;
            permits = still_permits g.permits;
          },
          λ (same, here, listed). cc (
            kept,
            (==_iff _ _).1 (g.to_employee ∙ same),
            (==_iff _ _).1 (g.in_tenant ∙ here),
            Memᴰ-includes dto.role_ids g.assignment.role_id
                (subst (λ r. Memᴰ r dto.role_ids) g.same_role listed),
          ),
        ),
    λ (g, stays). record {
      assignment = g.assignment;
      assigned = Memᴰ-delete_where_of is_revoked db.employee_roles g.assigned (stays_false g stays);
      to_employee = g.to_employee;
      in_tenant = g.in_tenant;
      role = g.role;
      known = g.known;
      same_role = g.same_role;
      active = g.active;
      permits = permits_still g.permits;
    },
  )
    where
      still_permits :
          {role : ℕ}
          → Permits (revoked ctx tenant dto revoked_by names db) role code
          → Permits db role code
      still_permits p = record {
        link = p.link;
        linked = p.linked;
        from_role = p.from_role;
        permission = p.permission;
        listed = p.listed;
        to_permission = p.to_permission;
        has_code = p.has_code;
      }

      permits_still :
          {role : ℕ}
          → Permits db role code
          → Permits (revoked ctx tenant dto revoked_by names db) role code
      permits_still p = record {
        link = p.link;
        linked = p.linked;
        from_role = p.from_role;
        permission = p.permission;
        listed = p.listed;
        to_permission = p.to_permission;
        has_code = p.has_code;
      }

      stays_false :
          (g : Grants db employee in_tenant code)
          → ¬ IsRevokedGrant dto tenant g
          → is_revoked g.assignment ≡ false
      stays_false g stays = elim (Bool-cases (is_revoked g.assignment)) [
        | inl hit ↦
            let (ofs, listed) = and_cases _ _ hit in
            let (same, here) = and_cases _ _ ofs in
            absurd (
              stays (
                sym g.to_employee ∙ (==_iff _ _).0 same,
                sym g.in_tenant ∙ (==_iff _ _).0 here,
                subst (λ r. Memᴰ r dto.role_ids) (sym g.same_role)
                    (includes-Memᴰ dto.role_ids g.assignment.role_id listed),
              ))
        | inr miss ↦ miss
      ]

  -- A revocation either is refused and changes nothing, or returns; then the permissions of every
  -- employee of every tenant are those granted before, without what the revoked roles granted to
  -- this employee in the tenant of the request. A permission that another of the employee's roles
  -- grants stays.
  pub revoke_roles_from-GrantsRemain :
      ctx.tenant_id ≡ some tenant
      → Ends
          (λ _ after. GrantsRemain after)
          (λ _ after. after ≡ db)
          (revoke_roles_from ctx dto revoked_by db)
  revoke_roles_from-GrantsRemain here =
      (Triple-weaken (revoke_roles_from-Triple db ctx tenant dto revoked_by here) (λ d h. h)
          (λ _ d r. subst GrantsRemain (sym r.state) (revoked-GrantsRemain r.names))).at
        db refl
