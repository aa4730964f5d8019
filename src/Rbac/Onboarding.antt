-- ===== src/Rbac/Onboarding.antt =====
-- `seedSystemRolesForTenant` gives a tenant each system role, once.
use text.Mathlib.TextPositions.{eq_refl}
use text.Mathlib.TextEquality.{eq_iff}
use hr_saas_platform.Shared.{
  ◌<◌, ==_refl, ==_iff, and_cases, Option-cases, Memᴰ, All-Memᴰ, All-tabulate, ◌≢◌, ℕ, suc, String,
  true, ◌≡◌, refl, sym, ap, ◌∙◌, Option, none, some, List, [], ◌∷◌, All, All-mono, inl, inr,
  Bool-cases,
}
use hr_saas_platform.Shared.Table.{
  find_first, find_first-Memᴰ, Memᴰ-insert, exists_where, insert, find_first-insert, or_else,
}
use hr_saas_platform.Exceptions.{Exception}
use hr_saas_platform.Database.{Database, Role}
use hr_saas_platform.Service.{Result, ok, err, hang, Context, ◌>>=◌}
use hr_saas_platform.Service.Triple.{
  Triple, Triple-gets, Triple-pure, Triple-if, Triple-bind, Triple-weaken, Triple-forget, Ends,
}
use hr_saas_platform.Rbac.SystemRoles.{SystemRoleDefinition, system_roles, get_system_role_by_slug}
use hr_saas_platform.Rbac.Repository.{has_slug, find_by_slug, collides, create, set_permissions}
use hr_saas_platform.Rbac.Effective.{Permits}
use hr_saas_platform.Rbac.Consistency.{IsWellFormed}
use hr_saas_platform.Rbac.RoleSafety.{AlsoThen, seed_system_roles_for_tenant-Triple}
use hr_saas_platform.Rbac.Seedable.{Impossible, system_roles-AllApart, seed_each-HasRoom}
use hr_saas_platform.Rbac.Roles.{
  is_some, system_role, seed_role, seed_each, seed_system_roles_for_tenant,
}

-- The tenant has a role of the definition's slug.
abbrev pub HasRoleOf : ℕ → Database → SystemRoleDefinition → Type 0
HasRoleOf tenant db def = is_some (find_by_slug def.slug tenant db.roles) ≡ true

abbrev pub Anything : Exception → Database → Type 0
Anything e db = Unit

or_else-is_some : {A : Type 0} (o p : Option A) → is_some o ≡ true → is_some (or_else o p) ≡ true
or_else-is_some none p h = cc
or_else-is_some (some a) p h = refl

insert-HasRoleOf :
    (tenant : ℕ) (row : Role) (rows : List Role) (slug : String)
    → is_some (find_by_slug slug tenant rows) ≡ true
    → is_some (find_by_slug slug tenant (insert row rows)) ≡ true
unfolding find_by_slug
insert-HasRoleOf tenant row rows slug h =
    rw (find_first-insert (has_slug slug tenant) row rows) (or_else-is_some _ _ h)

or_else-new : {A : Type 0} (o : Option A) (a : A) → is_some (or_else o (some a)) ≡ true
or_else-new none a = refl
or_else-new (some b) a = refl

insert-HasRoleOf_new :
    (ctx : Context) (tenant n : ℕ) (def : SystemRoleDefinition) (rows : List Role)
    → is_some (find_by_slug def.slug tenant (insert (system_role ctx tenant def n) rows)) ≡ true
unfolding find_by_slug
insert-HasRoleOf_new ctx tenant n def rows =
    rw
      (
        find_first-insert (has_slug def.slug tenant) (system_role ctx tenant def n) rows,
        eq_refl def.slug,
        ==_refl tenant,
      )
      (or_else-new _ _)

module _ (tenant : ℕ) (done : List SystemRoleDefinition) where
  AllDone : Database → Type 0
  AllDone db = All (HasRoleOf tenant db) done

  create-AllDone :
      (ctx : Context) (n : ℕ) (def : SystemRoleDefinition)
      → Triple AllDone
          (create (system_role ctx tenant def n))
          (λ _ db. AllDone db × HasRoleOf tenant db def)
          Anything
  unfolding create AllDone
  create-AllDone ctx n def = record {
    at = λ db h.
        elim (Bool-cases (exists_where (collides (system_role ctx tenant def n)) db.roles)) [
          | inl taken ↦ rw taken tt
          | inr free ↦ rw free (
            All-mono (λ d. insert-HasRoleOf tenant (system_role ctx tenant def n) db.roles d.slug)
                done h,
            insert-HasRoleOf_new ctx tenant n def db.roles,
          )
        ];
  }

  set_permissions-AllDone :
      (def : SystemRoleDefinition) (id : ℕ) (ids : List ℕ)
      → Triple
          (λ db. AllDone db × HasRoleOf tenant db def)
          (set_permissions id ids)
          (λ _ db. AllDone db × HasRoleOf tenant db def)
          Anything
  unfolding set_permissions AllDone
  set_permissions-AllDone def id ids = record { at = λ db h. h }

  seed_role-AllDone :
      (ctx : Context) (n : ℕ) (def : SystemRoleDefinition)
      → Triple AllDone
          (seed_role ctx tenant def n)
          (λ _ db. AllDone db × HasRoleOf tenant db def)
          Anything
  unfolding seed_role
  seed_role-AllDone ctx n def = Triple-bind _ _ (Triple-gets _) (λ existing.
      Triple-if (is_some existing) _ _
        (λ there.
          Triple-weaken (Triple-pure _) (λ db h. h)
            (λ _ db ((h, e), _). (h, ap is_some (sym e) ∙ there)))
        (λ _.
          Triple-bind _ _ (Triple-weaken (create-AllDone ctx n def) (λ db (h, _). h) (λ _ _ h. h))
            (λ role.
              Triple-bind _ _ (Triple-forget (Triple-gets _))
                (λ perms. set_permissions-AllDone def role.id _))))

seed_each-HasRoleOf :
    (ctx : Context) (tenant n : ℕ) (done defs : List SystemRoleDefinition)
    → Triple
        (AllDone tenant done)
        (seed_each ctx tenant defs n)
        (λ _ db. AllDone tenant done db × All (HasRoleOf tenant db) defs)
        Anything
unfolding seed_each AllDone
seed_each-HasRoleOf ctx tenant n done [] =
    Triple-weaken (Triple-pure _) (λ db h. h) (λ _ db (h, _). (h, tt))
seed_each-HasRoleOf ctx tenant n done (def ∷ defs) =
    Triple-bind _ _ (seed_role-AllDone tenant done ctx n def) (λ _.
      Triple-weaken (seed_each-HasRoleOf ctx tenant (suc n) (def ∷ done) defs)
        (λ db (h, here). (here, h)) (λ _ db ((here, h), rest). (h, (here, rest))))

seed_each_again :
    (ctx : Context) (tenant n : ℕ) (defs : List SystemRoleDefinition) (db : Database)
    → All (HasRoleOf tenant db) defs
    → seed_each ctx tenant defs n db ≡ (ok tt, db)
unfolding seed_each seed_role ◌>>=◌
seed_each_again ctx tenant n [] db h = refl
seed_each_again ctx tenant n (def ∷ defs) db (there, h) =
    rw (there, seed_each_again ctx tenant (suc n) defs db h) refl

-- The roles of the tenant are active system roles.
module _ (tenant : ℕ) where
  abbrev pub AllSystem : Database → Type 0
  AllSystem db =
      (r : Role)
      → Memᴰ r db.roles
      → r.tenant_id ≡ tenant
      → (r.is_system ≡ true) × (r.is_active ≡ true)

  create-AllSystem :
      (ctx : Context) (n : ℕ) (def : SystemRoleDefinition)
      → Triple AllSystem (create (system_role ctx tenant def n)) (λ _ db. AllSystem db) Anything
  unfolding create
  create-AllSystem ctx n def = record {
    at = λ db h.
        elim (Bool-cases (exists_where (collides (system_role ctx tenant def n)) db.roles)) [
          | inl taken ↦ rw taken tt
          | inr free ↦ rw free (λ r m here.
              elim (Memᴰ-insert (system_role ctx tenant def n) db.roles m) [
                | inl old ↦ h r old here
                | inr new ↦ (ap (λ (x : Role). x.is_system) new, ap (λ (x : Role). x.is_active) new)
              ])
        ];
  }

  set_permissions-AllSystem :
      (id : ℕ) (ids : List ℕ)
      → Triple AllSystem (set_permissions id ids) (λ _ db. AllSystem db) Anything
  unfolding set_permissions
  set_permissions-AllSystem id ids = record { at = λ db h. h }

  seed_each-AllSystem :
      (ctx : Context) (n : ℕ) (defs : List SystemRoleDefinition)
      → Triple AllSystem (seed_each ctx tenant defs n) (λ _ db. AllSystem db) Anything
  unfolding seed_each seed_role
  seed_each-AllSystem ctx n [] = Triple-forget (Triple-pure tt)
  seed_each-AllSystem ctx n (def ∷ defs) =
      Triple-bind _ _
        (Triple-bind _ _ (Triple-forget (Triple-gets _)) (λ existing.
          Triple-if (is_some existing) _ _ (λ _. Triple-forget (Triple-pure tt))
            (λ _. Triple-bind _ _ (create-AllSystem ctx n def) (λ role.
              Triple-bind _ _ (Triple-forget (Triple-gets _))
                (λ perms. set_permissions-AllSystem role.id _)))))
        (λ _. seed_each-AllSystem ctx (suc n) defs)

by_own_slug : All (λ def. get_system_role_by_slug def.slug ≡ some def) system_roles
unfolding get_system_role_by_slug find_first
by_own_slug = (refl, (refl, (refl, (refl, (refl, tt)))))

-- The tenant has an active system role of the definition's slug, with its permissions.
pub record IsSeeded (tenant : ℕ) (db : Database) (def : SystemRoleDefinition) : Type 0 where
  pub role : Role
  pub found : find_by_slug def.slug tenant db.roles ≡ some role
  pub is_system : role.is_system ≡ true
  pub is_active : role.is_active ≡ true
  pub permits : All (Permits db role.id) def.permissions

seeded :
    (tenant : ℕ) (db : Database) (def : SystemRoleDefinition)
    → AllSystem tenant db
    → IsWellFormed db
    → Memᴰ def system_roles
    → HasRoleOf tenant db def
    → IsSeeded tenant db def
unfolding find_by_slug
seeded tenant db def all well listed there =
    elim (Option-cases (find_by_slug def.slug tenant db.roles)) [
      | inl e ↦ absurd (cc (ap is_some (sym e), there))
      | inr (r, e) ↦
          let (m, is) = find_first-Memᴰ (has_slug def.slug tenant) db.roles {r = r} e in
          let (slug, here) = and_cases _ _ is in
          let (system, active) = all r m ((==_iff _ _).0 here) in
          record {
            role = r;
            found = e;
            is_system = system;
            is_active = active;
            permits = well.defaults r m system def (
                ap get_system_role_by_slug ((eq_iff _ _).0 slug)
                ∙ All-Memᴰ (λ d. get_system_role_by_slug d.slug ≡ some d) system_roles by_own_slug
                    listed);
          }
    ]

-- What the four triples of a seeding say together.
together :
    (again : Context) (tenant : ℕ) (out : Result (Unit {0}) × Database)
    → Ends (λ _ db. Unit {0}) Impossible out
    → Ends (λ _ db. IsWellFormed db) AlsoThen out
    → Ends (λ _ db. AllSystem tenant db) Anything out
    → Ends (λ _ db. AllDone tenant [] db × All (HasRoleOf tenant db) system_roles) Anything out
    → (after : Database) × (out ≡ (ok tt, after))
      × All (IsSeeded tenant after) system_roles
      × (seed_system_roles_for_tenant again tenant after ≡ (ok tt, after))
unfolding seed_system_roles_for_tenant
together again tenant (ok a, after) _ safe all (_, h) = (
  after,
  refl,
  All-tabulate system_roles (λ def m.
      seeded tenant after def all safe m (All-Memᴰ (HasRoleOf tenant after) system_roles h m)),
  seed_each_again again tenant 0 system_roles after h,
)
together again tenant (err e, after) impossible safe all h = absurd impossible
together again tenant (hang, after) impossible safe all h = absurd impossible

-- A seeding of a tenant without roles succeeds, where the roles and assignments are well-formed, the
-- permissions seeded and the UUIDs of the request new and distinct. It leaves the tenant with an active
-- system role for each system role's slug, with all its default permissions; and any seeding of the
-- tenant after it succeeds and changes nothing.
pub seed_system_roles_for_tenant_again :
    (first second : Context) (tenant : ℕ) (db : Database)
    → IsWellFormed db
    → ((r : Role) → Memᴰ r db.roles → r.tenant_id ≢ tenant)
    → ((k : ℕ) (r : Role) → Memᴰ r db.roles → r.id ≢ first.uuid k)
    → ((j k : ℕ) → j < k → first.uuid j ≢ first.uuid k)
    → (after : Database) × (seed_system_roles_for_tenant first tenant db ≡ (ok tt, after))
      × All (IsSeeded tenant after) system_roles
      × (seed_system_roles_for_tenant second tenant after ≡ (ok tt, after))
unfolding seed_system_roles_for_tenant AllDone
seed_system_roles_for_tenant_again first second tenant db well new fresh distinct =
    together second tenant (seed_system_roles_for_tenant first tenant db)
      ((seed_each-HasRoom first distinct tenant 0 system_roles system_roles-AllApart).at db
        (record { fresh = λ k r m _. fresh k r m; apart = λ r m here. absurd (new r m here) }))
      ((seed_system_roles_for_tenant-Triple first tenant).at db well)
      ((seed_each-AllSystem tenant first 0 system_roles).at db (λ r m here. absurd (new r m here)))
      ((seed_each-HasRoleOf first tenant 0 [] system_roles).at db tt)
