-- ===== src/Rbac/RoleSafety.antt =====
-- The operations on roles keep the invariant, whether they return or throw.
use mathlib.Core.Option.{some-injective}
use mathlib.Core.List
use mathlib.Core.List.Memᴰ
use hr_saas_platform.Shared.{
  ℕ, suc, String, false, not, ◌≡◌, refl, sym, ap, subst, ◌∙◌, some, List, [], ◌∷◌, Memᴰ, All,
  All-mono, All-Memᴰ, All-tabulate, inl, inr, Bool-cases, string_eq, includes, missing_from-nil,
  Memᴰ-includes,
}
use hr_saas_platform.Shared.Table.{find_first, exists_where, Memᴰ-select, Memᴰ-select_of}
use hr_saas_platform.Exceptions.{Exception}
use hr_saas_platform.Database.{Database, Role}
use hr_saas_platform.Service.{Context}
use hr_saas_platform.Service.Triple.{
  Triple, Triple-throw_if, Triple-pure, Triple-gets, Triple-found_or, Triple-if, Triple-bind,
  Triple-tenant, Triple-weaken, Triple-forget,
}
use hr_saas_platform.Rbac.SystemRoles.{SystemRoleDefinition, system_roles, get_system_role_by_slug}
use hr_saas_platform.Rbac.Repository.{
  code_of, find_by_codes, collides, create, set_permissions, Patch, apply_patch, name_taken, update,
  delete, has_id,
}
use hr_saas_platform.Rbac.Roles.{
  is_empty, id_of, validate_permission_codes, resolve_permissions, delete_role, seed_role,
  seed_each, seed_system_roles_for_tenant, system_role,
}
use hr_saas_platform.Rbac.Consistency.{
  IsSound, IsWellFormed, DefaultsBut, IsListed, IsResolved, CoversDefaults, set_links-IsWellFormed,
  insert-IsSound, insert-DefaultsBut, insert_only, update_where-IsWellFormed, deleted-IsWellFormed,
}

-- Every refusal leaves a consistent state.
abbrev pub AlsoThen : Exception → Database → Type 0
AlsoThen e db = IsWellFormed db

pub is_empty-nil : {A : Type 0} (xs : List A) → not (is_empty xs) ≡ false → xs ≡ []
is_empty-nil [] h = refl
is_empty-nil (x ∷ xs) h = cc

resolved :
    (codes : List String) (db : Database)
    → validate_permission_codes codes db ≡ []
    → All (IsResolved db (List.map id_of (find_by_codes codes db.permissions))) codes
unfolding validate_permission_codes find_by_codes
resolved codes db valid =
    All-mono
      (λ c m.
        let (p, n, e) = Memᴰ.of_map code_of (find_by_codes codes db.permissions) m in
        (p, (Memᴰ-select (λ p. includes codes p.code) db.permissions n).0, e, Memᴰ.map id_of n))
      codes (missing_from-nil _ codes valid)

pub resolve_permissions-Triple :
    {P : Database → Type 0} (operation : String) (codes : List String)
    → ((db : Database) → P db → IsWellFormed db)
    → Triple P
        (resolve_permissions operation codes)
        (λ ids db. P db × All (IsResolved db ids) codes)
        AlsoThen
unfolding resolve_permissions
resolve_permissions-Triple operation codes consistent =
    Triple-bind _ _ (Triple-gets _) (λ invalid_codes.
      Triple-bind _ _ (Triple-throw_if _ _ (λ db (h, _). consistent db h)) (λ _.
        Triple-bind _ _ (Triple-gets _) (λ perms.
          Triple-weaken (Triple-pure _) (λ db h. h)
            (λ ids db ((((h, valid), nothing), found), e). (
              h,
              subst (λ x. All (IsResolved db x) codes) (sym (e ∙ ap (List.map id_of) found))
                  (resolved codes db (sym valid ∙ is_empty-nil invalid_codes nothing)),
            )))))

-- A new row that has no permissions yet.
abbrev pub IsNewRow : Role → Role → Database → Type 0
IsNewRow row r db =
    (r ≡ row)
    × IsSound db
    × DefaultsBut row.id db
    × ((s : Role) → Memᴰ s db.roles → s.id ≡ row.id → s ≡ row)

pub create-Triple : (row : Role) → Triple IsWellFormed (create row) (IsNewRow row) AlsoThen
unfolding create
create-Triple row = record {
  at = λ db h. elim (Bool-cases (exists_where (collides row) db.roles)) [
    | inl taken ↦ rw taken h
    | inr free ↦ rw free (
      refl,
      insert-IsSound db row free h,
      insert-DefaultsBut db row free h,
      λ s m. insert_only db row free m,
    )
  ];
}

pub set_permissions-Triple :
    (id : ℕ) (ids : List ℕ)
    → Triple
        (λ db. IsSound db × DefaultsBut id db × CoversDefaults id ids db)
        (set_permissions id ids)
        (λ _ db. IsWellFormed db)
        AlsoThen
unfolding set_permissions
set_permissions-Triple id ids = record {
  at = λ db (sound, but, covers). set_links-IsWellFormed db id ids sound but covers;
}

pub update-Triple :
    (id tenant : ℕ) (patch : Patch)
    → Triple IsWellFormed (update id tenant patch) (λ _ db. IsWellFormed db) AlsoThen
unfolding update apply_patch
update-Triple id tenant patch = record {
  at = λ db h. elim (Bool-cases (name_taken id tenant patch db.roles)) [
    | inl taken ↦ rw taken h
    | inr free ↦ rw free (
        update_where-IsWellFormed db (has_id id tenant) (apply_patch patch) (λ r. refl) (λ r. refl)
          (λ r. refl) (λ r. refl) h)
  ];
}

delete-Triple :
    (id tenant : ℕ) → Triple IsWellFormed (delete id tenant) (λ _ db. IsWellFormed db) AlsoThen
unfolding delete
delete-Triple id tenant = record {
  at = λ db h. elim (Bool-cases (exists_where (has_id id tenant) db.roles)) [
    | inl here ↦ rw here (deleted-IsWellFormed db id tenant h here)
    | inr none_is ↦ rw none_is h
  ];
}

pub delete_role-Triple :
    (ctx : Context) (tenant id : ℕ)
    → ctx.tenant_id ≡ some tenant
    → Triple IsWellFormed (delete_role ctx id) (λ _ db. IsWellFormed db) AlsoThen
unfolding delete_role
delete_role-Triple ctx tenant id here = Triple-tenant ctx _ here (
    Triple-bind _ _ (Triple-forget (Triple-gets _)) (λ found.
      Triple-bind _ _ (Triple-forget (Triple-found_or found _ (λ db h. h))) (λ role.
        Triple-bind _ _ (Triple-forget (Triple-throw_if role.is_system _ (λ db h. h)))
          (λ _. Triple-bind _ _ (delete-Triple id tenant) (λ _. Triple-forget (Triple-pure _))))))

get_system_role_by_slug-of :
    (def : SystemRoleDefinition)
    → Memᴰ def system_roles
    → get_system_role_by_slug def.slug ≡ some def
unfolding get_system_role_by_slug find_first
get_system_role_by_slug-of def =
    All-Memᴰ (λ d. get_system_role_by_slug d.slug ≡ some d) system_roles
      (refl, (refl, (refl, (refl, (refl, tt)))))

listed-IsResolved :
    (codes : List String) (db : Database)
    → All (IsListed db.permissions) codes
    → All (IsResolved db (List.map id_of (find_by_codes codes db.permissions))) codes
unfolding find_by_codes
listed-IsResolved codes db listed = All-tabulate codes (λ c m.
    let (p, n, e) = All-Memᴰ (IsListed db.permissions) codes listed m in
    (
      p,
      n,
      e,
      Memᴰ.map id_of (
          Memᴰ-select_of (λ p. includes codes p.code) db.permissions n
            (Memᴰ-includes codes p.code (Memᴰ.cast e m))),
    ))

-- The row that seeding inserts is given its defaults.
seeded_covers :
    (ctx : Context) (tenant n : ℕ) (def : SystemRoleDefinition) (db : Database)
    → Memᴰ def system_roles
    → IsSound db
    → ((s : Role)
        → Memᴰ s db.roles
        → s.id ≡ (system_role ctx tenant def n).id
        → s ≡ system_role ctx tenant def n)
    → CoversDefaults
        (system_role ctx tenant def n).id
        (List.map id_of (find_by_codes def.permissions db.permissions))
        db
seeded_covers ctx tenant n def db known sound only s m same system def' e =
    let e' =
      sym (get_system_role_by_slug-of def known)
      ∙ ap (λ (x : Role). get_system_role_by_slug x.slug) (sym (only s m same))
      ∙ e in
    subst
      (λ d.
        All (IsResolved db (List.map id_of (find_by_codes def.permissions db.permissions)))
          d.permissions)
      (some-injective _ _ e') (listed-IsResolved def.permissions db (sound.registry def known))

seed_role-Triple :
    (ctx : Context) (tenant n : ℕ) (def : SystemRoleDefinition)
    → Memᴰ def system_roles
    → Triple IsWellFormed (seed_role ctx tenant def n) (λ _ db. IsWellFormed db) AlsoThen
unfolding seed_role
seed_role-Triple ctx tenant n def known =
    Triple-bind _ _ (Triple-forget (Triple-gets _)) (λ existing.
      Triple-if _ _ _ (λ _. Triple-forget (Triple-pure _))
        (λ _. Triple-bind _ _ (create-Triple (system_role ctx tenant def n)) (λ role.
          Triple-bind _ _ (Triple-gets _) (λ perms.
            Triple-weaken (set_permissions-Triple role.id (List.map id_of perms))
              (λ db ((e, sound, but, only), found). (
                sound,
                subst (λ (r : Role). DefaultsBut r.id db) (sym e) but,
                subst (λ (r : Role). CoversDefaults r.id (List.map id_of perms) db) (sym e)
                    (subst (λ ps. CoversDefaults (ctx.uuid n) (List.map id_of ps) db) (sym found)
                      (seeded_covers ctx tenant n def db known sound only)),
              ))
              (λ _ db h. h)))))

seed_each-Triple :
    (ctx : Context) (tenant n : ℕ) (defs : List SystemRoleDefinition)
    → All (λ def. Memᴰ def system_roles) defs
    → Triple IsWellFormed (seed_each ctx tenant defs n) (λ _ db. IsWellFormed db) AlsoThen
unfolding seed_each
seed_each-Triple ctx tenant n [] known = Triple-forget (Triple-pure _)
seed_each-Triple ctx tenant n (def ∷ defs) (k, known) =
    Triple-bind _ _ (seed_role-Triple ctx tenant n def k)
      (λ _. seed_each-Triple ctx tenant (suc n) defs known)

pub seed_system_roles_for_tenant-Triple :
    (ctx : Context) (tenant : ℕ)
    → Triple IsWellFormed
        (seed_system_roles_for_tenant ctx tenant)
        (λ _ db. IsWellFormed db)
        AlsoThen
unfolding seed_system_roles_for_tenant
seed_system_roles_for_tenant-Triple ctx tenant =
    seed_each-Triple ctx tenant 0 system_roles (All-tabulate system_roles (λ _ m. m))
