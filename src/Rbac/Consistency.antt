-- ===== src/Rbac/Consistency.antt =====
-- The invariant of roles and assignments, and the writes that keep it.
use mathlib.Core.List
use mathlib.Core.List.Memᴰ
use hr_saas_platform.Shared.{
  ℕ, String, ◌==◌, ==_iff, Bool, true, false, ◌≡◌, ◌≢◌, refl, sym, ap, subst, ◌∙◌, some, List, Memᴰ,
  All, All-mono, inl, inr, if◌then◌else◌, ◌++◌, Bool-cases, arith, and_cases,
}
use hr_saas_platform.Shared.Table.{
  update_where, delete_where, insert, exists_where, Memᴰ-update_where, Memᴰ-update_where_of,
  Memᴰ-delete_where, Memᴰ-delete_where_of, Memᴰ-insert, Memᴰ-insert_old, exists_where-false,
  exists_where-Memᴰ, find_first-Memᴰ,
}
use hr_saas_platform.Database.{Database, Role, Permission, RolePermission, EmployeeRole}
use hr_saas_platform.Rbac.SystemRoles.{SystemRoleDefinition, system_roles, get_system_role_by_slug}
use hr_saas_platform.Rbac.Repository.{has_id, find_by_id, collides, grant}
use hr_saas_platform.Rbac.Effective.{Permits}

-- The primary key of roles.
abbrev pub Keyed : List Role → Type 0
Keyed rows = (r s : Role) → Memᴰ r rows → Memᴰ s rows → r.id ≡ s.id → r ≡ s

pub find_by_id-Memᴰ :
    (id tenant : ℕ) (rows : List Role) {r : Role}
    → find_by_id id tenant rows ≡ some r
    → Memᴰ r rows × (r.id ≡ id) × (r.tenant_id ≡ tenant)
unfolding find_by_id
find_by_id-Memᴰ id tenant rows {r} e =
    let (m, h) = find_first-Memᴰ (has_id id tenant) rows {r = r} e in
    let (same, here) = and_cases _ _ h in (m, (==_iff _ _).0 same, (==_iff _ _).0 here)

-- The permission with this code is in the table.
abbrev pub IsListed : List Permission → String → Type 0
IsListed rows code = (p : Permission) × Memᴰ p rows × (p.code ≡ code)

pub record IsSound (db : Database) : Type 0 where
  pub keyed : Keyed db.roles
  -- an assignment is of a role of its own tenant
  pub assigned :
      (er : EmployeeRole)
      → Memᴰ er db.employee_roles
      → (r : Role) × Memᴰ r db.roles × (r.id ≡ er.role_id) × (r.tenant_id ≡ er.tenant_id)
  -- the permissions of the system roles have been seeded
  pub registry :
      (def : SystemRoleDefinition)
      → Memᴰ def system_roles
      → All (IsListed db.permissions) def.permissions

-- A system role has at least its default permissions.
abbrev pub HasDefaults : Database → Role → Type 0
HasDefaults db r =
    r.is_system ≡ true
    → (def : SystemRoleDefinition) → get_system_role_by_slug r.slug ≡ some def
    → All (Permits db r.id) def.permissions

pub record IsWellFormed (db : Database) : Type 0 where
  pub sound : IsSound db
  pub defaults : (r : Role) → Memᴰ r db.roles → HasDefaults db r

-- The roles but for one have their defaults.
abbrev pub DefaultsBut : ℕ → Database → Type 0
DefaultsBut id db = (r : Role) → Memᴰ r db.roles → r.id ≢ id → HasDefaults db r

-- A permission of a role stays while its row of role_permissions does.
pub Permits-mono :
    {db after : Database} {role : ℕ} {code : String}
    → ((rp : RolePermission)
        → Memᴰ rp db.role_permissions
        → rp.role_id ≡ role
        → Memᴰ rp after.role_permissions)
    → ((p : Permission) → Memᴰ p db.permissions → Memᴰ p after.permissions)
    → Permits db role code
    → Permits after role code
Permits-mono links rows h = record {
  link = h.link;
  linked = links h.link h.linked h.from_role;
  from_role = h.from_role;
  permission = h.permission;
  listed = rows h.permission h.listed;
  to_permission = h.to_permission;
  has_code = h.has_code;
}

-- The rows of role_permissions after `setPermissions`.
abbrev pub set_links : ℕ → List ℕ → List RolePermission → List RolePermission
set_links role ids rows = delete_where (λ rp. rp.role_id == role) rows ++ List.map (grant role) ids

-- The permission with this code is in the table, and its id in the list.
abbrev pub IsResolved : Database → List ℕ → String → Type 0
IsResolved db ids code = (p : Permission) × Memᴰ p db.permissions × (p.code ≡ code) × Memᴰ p.id ids

-- Where the role of this id is a system role, the ids cover its default permissions.
abbrev pub CoversDefaults : ℕ → List ℕ → Database → Type 0
CoversDefaults id ids db =
    (r : Role)
    → Memᴰ r db.roles
    → r.id ≡ id
    → r.is_system ≡ true
    → (def : SystemRoleDefinition) → get_system_role_by_slug r.slug ≡ some def
    → All (IsResolved db ids) def.permissions

module _ (db : Database) (id : ℕ) (ids : List ℕ) where
  abbrev after : Database
  after = record db { role_permissions = set_links id ids db.role_permissions }

  other_links :
      {role : ℕ} {code : String} → role ≢ id → Permits db role code → Permits after role code
  other_links other =
      Permits-mono
        (λ rp m from. Memᴰ.append_left _ (
          Memᴰ-delete_where_of (λ (rp : RolePermission). rp.role_id == id) db.role_permissions m
            (ground arith)))
        (λ p m. m)

  new_link :
      {role : ℕ} {code : String} → role ≡ id → IsResolved db ids code → Permits after role code
  new_link same (p, m, e, n) = record {
    link = grant id p.id;
    linked = Memᴰ.append_right _ (Memᴰ.map (grant id) n);
    from_role = sym same;
    permission = p;
    listed = m;
    to_permission = refl;
    has_code = e;
  }

  -- `setPermissions` gives a system role its defaults if they are among the new permissions.
  pub set_links-IsWellFormed :
      IsSound db → DefaultsBut id db → CoversDefaults id ids db → IsWellFormed after
  set_links-IsWellFormed sound but new = record {
    sound = record { keyed = sound.keyed; assigned = sound.assigned; registry = sound.registry };
    defaults = λ r m. elim (Bool-cases (r.id == id)) [
      | inl same ↦ λ system def e.
          All-mono (λ c. new_link ((==_iff _ _).0 same)) def.permissions
            (new r m ((==_iff _ _).0 same) system def e)
      | inr other ↦ λ system def e.
          All-mono (λ c. other_links (λ same. cc (other, (==_iff _ _).1 same))) def.permissions
            (but r m (λ same. cc (other, (==_iff _ _).1 same)) system def e)
    ];
  }

module _ (db : Database) (row : Role) (free : exists_where (collides row) db.roles ≡ false) where
  abbrev created : Database
  created = record db { roles = insert row db.roles }

  pub fresh : {r : Role} → Memᴰ r db.roles → r.id ≢ row.id
  fresh {r} m same = ground (arith, exists_where-false (collides row) db.roles {r = r} free m)

  pub insert-IsSound : IsWellFormed db → IsSound created
  insert-IsSound h = record {
    keyed = λ r s m n e. elim (Memᴰ-insert row db.roles m) [
      | inl m' ↦ elim (Memᴰ-insert row db.roles n) [
        | inl n' ↦ h.sound.keyed r s m' n' e
        | inr new ↦ absurd (fresh m' (e ∙ ap (λ (x : Role). x.id) new))
      ]
      | inr new ↦ elim (Memᴰ-insert row db.roles n) [
        | inl n' ↦ absurd (fresh n' (sym e ∙ ap (λ (x : Role). x.id) new))
        | inr new' ↦ new ∙ sym new'
      ]
    ];
    assigned = λ er m.
        let (r, n, e, t) = h.sound.assigned er m in (r, Memᴰ-insert_old row db.roles n, e, t);
    registry = h.sound.registry;
  }

  pub insert-DefaultsBut : IsWellFormed db → DefaultsBut row.id created
  insert-DefaultsBut h r m other = elim (Memᴰ-insert row db.roles m) [
    | inl old ↦ λ system def e.
        All-mono (λ c. Permits-mono (λ rp k _. k) (λ p k. k)) def.permissions
          (h.defaults r old system def e)
    | inr new ↦ absurd (other (ap (λ (x : Role). x.id) new))
  ]

  -- The only row of the new id is the new one.
  pub insert_only : {r : Role} → Memᴰ r created.roles → r.id ≡ row.id → r ≡ row
  insert_only m e = elim (Memᴰ-insert row db.roles m) [
    | inl old ↦ absurd (fresh old e)
    | inr new ↦ new
  ]

module _ (db : Database) (q : Role → Bool) (f : Role → Role)
    (same_id : (r : Role) → (f r).id ≡ r.id)
    (same_tenant : (r : Role) → (f r).tenant_id ≡ r.tenant_id)
    (same_slug : (r : Role) → (f r).slug ≡ r.slug)
    (same_system : (r : Role) → (f r).is_system ≡ r.is_system) where
  abbrev changed : Database
  changed = record db { roles = update_where q f db.roles }

  abbrev change : Role → Role
  change r = if q r then f r else r

  -- Changes of names and descriptions keep the invariant.
  pub update_where-IsWellFormed : IsWellFormed db → IsWellFormed changed
  update_where-IsWellFormed h = record {
    sound = record {
      keyed = λ r s m n e.
          let (r', m', er) = Memᴰ-update_where q f db.roles m in
          let (s', n', es) = Memᴰ-update_where q f db.roles n in
          er
          ∙ ap change (
              h.sound.keyed r' s' m' n' (
                sym (change_id r')
                ∙ ap (λ (x : Role). x.id) (sym er)
                ∙ e
                ∙ ap (λ (x : Role). x.id) es
                ∙ change_id s'))
          ∙ sym es;
      assigned = λ er m.
          let (r, n, e, t) = h.sound.assigned er m in
          (change r, Memᴰ-update_where_of q f db.roles n, change_id r ∙ e, change_tenant r ∙ t);
      registry = h.sound.registry;
    };
    defaults = λ r m system def e.
        let (old, n, er) = Memᴰ-update_where q f db.roles m in
        let id_kept = ap (λ (x : Role). x.id) er ∙ change_id old in
        let system_kept = ap (λ (x : Role). x.is_system) er ∙ change_system old in
        let slug_kept = ap (λ (x : Role). x.slug) er ∙ change_slug old in
        All-mono
          (λ c p.
            subst (λ (x : ℕ). Permits changed x c) (sym id_kept)
              (Permits-mono (λ rp k from. k) (λ x k. k) p))
          def.permissions
          (h.defaults old n (sym system_kept ∙ system) def
            (ap get_system_role_by_slug (sym slug_kept) ∙ e));
  }
    where
      change_id : (r : Role) → (change r).id ≡ r.id
      change_id r = ground (arith, same_id r)

      change_tenant : (r : Role) → (change r).tenant_id ≡ r.tenant_id
      change_tenant r = ground (arith, same_tenant r)

      change_slug : (r : Role) → (change r).slug ≡ r.slug
      change_slug r = ground (arith, same_slug r)

      change_system : (r : Role) → (change r).is_system ≡ r.is_system
      change_system r = ground (arith, same_system r)

-- A role goes, with its links and assignments.
module _ (db : Database) (id tenant : ℕ) (h : IsWellFormed db)
    (here : exists_where (has_id id tenant) db.roles ≡ true) where
  abbrev deleted : Database
  deleted = record db {
    roles = delete_where (has_id id tenant) db.roles;
    role_permissions = delete_where (λ rp. rp.role_id == id) db.role_permissions;
    employee_roles = delete_where (λ er. er.role_id == id) db.employee_roles;
  }

  -- A role that stays has another id.
  remaining : {r : Role} → Memᴰ r deleted.roles → Memᴰ r db.roles × (r.id ≢ id)
  remaining {r} m =
      let (n, stays) = Memᴰ-delete_where (has_id id tenant) db.roles m in
      let (gone, k, is) = exists_where-Memᴰ (has_id id tenant) db.roles here in
      let (same, of_tenant) = and_cases (gone.id == id) (gone.tenant_id == tenant) is in
      (
        n,
        λ e. cc (
          is,
          stays,
          ap (has_id id tenant) (h.sound.keyed r gone n k (e ∙ sym ((==_iff _ _).0 same))),
        ),
      )

  pub deleted-IsWellFormed : IsWellFormed deleted
  deleted-IsWellFormed = record {
    sound = record {
      keyed = λ r s m n e. h.sound.keyed r s (remaining m).0 (remaining n).0 e;
      assigned = λ er m.
          let (n, other) =
            Memᴰ-delete_where (λ (er : EmployeeRole). er.role_id == id) db.employee_roles m in
          let (r, k, e, t) = h.sound.assigned er n in
          (r, Memᴰ-delete_where_of (has_id id tenant) db.roles k (ground arith), e, t);
      registry = h.sound.registry;
    };
    defaults = λ r m system def e.
        let (n, other) = remaining m in
        All-mono
          (λ c.
            Permits-mono
              (λ rp k from.
                Memᴰ-delete_where_of (λ (rp : RolePermission). rp.role_id == id) db.role_permissions
                  k (ground arith))
              (λ p k. k))
          def.permissions (h.defaults r n system def e);
  }

-- A change of the outbox, or of the assignments to ones of known roles of their tenant.
pub keep_roles-IsWellFormed :
    {db after : Database}
    → IsWellFormed db
    → after.roles ≡ db.roles
    → after.permissions ≡ db.permissions
    → after.role_permissions ≡ db.role_permissions
    → ((er : EmployeeRole)
        → Memᴰ er after.employee_roles
        → (r : Role) × Memᴰ r db.roles × (r.id ≡ er.role_id) × (r.tenant_id ≡ er.tenant_id))
    → IsWellFormed after
keep_roles-IsWellFormed {db} {after} h same_roles same_permissions same_links known = record {
  sound = record {
    keyed = subst Keyed (sym same_roles) h.sound.keyed;
    assigned =
        λ er m. let (r, n, e, t) = known er m in (r, subst (Memᴰ r) (sym same_roles) n, e, t);
    registry = λ def m.
        All-mono (λ c (p, n, e). (p, subst (Memᴰ p) (sym same_permissions) n, e)) def.permissions
          (h.sound.registry def m);
  };
  defaults = λ r m system def e.
      All-mono
        (λ c.
          Permits-mono (λ rp k _. subst (Memᴰ rp) (sym same_links) k)
            (λ p k. subst (Memᴰ p) (sym same_permissions) k))
        def.permissions (h.defaults r (subst (Memᴰ r) same_roles m) system def e);
}
