-- ===== src/Rbac/Seedable.antt =====
-- `seedSystemRolesForTenant` meets no unique index in a tenant that has room for the system roles.
use text.Mathlib.Text.{◌==◌ as str_eq}
use hr_saas_platform.Shared.{
  ==_iff, ◌≢◌, ℕ, suc, ◌≤◌, ◌<◌, ◌==◌, String, false, ◌≡◌, refl, sym, ap, ◌∙◌, List, [], ◌∷◌, All,
  inl, inr, Bool-cases, Memᴰ, arith, and_cases,
}
use hr_saas_platform.Shared.Table.{exists_where, exists_where-Memᴰ, insert, Memᴰ-insert}
use hr_saas_platform.Exceptions.{Exception}
use hr_saas_platform.Database.{Database, Role}
use hr_saas_platform.Service.{Context}
use hr_saas_platform.Service.Triple.{
  Triple, Triple-gets, Triple-pure, Triple-if, Triple-bind, Triple-weaken, Triple-forget,
}
use hr_saas_platform.Rbac.SystemRoles.{SystemRoleDefinition, system_roles}
use hr_saas_platform.Rbac.Repository.{collides, create, set_permissions}
use hr_saas_platform.Rbac.Roles.{is_some, system_role, seed_role, seed_each}

-- A role of this slug and name and one of the definition can be in the same tenant.
abbrev IsApart : String → String → SystemRoleDefinition → Type 0
IsApart slug name def = (str_eq slug def.slug ≡ false) × (str_eq name def.name ≡ false)

abbrev AllApart : List SystemRoleDefinition → Type 0
AllApart [] = Unit
AllApart (def ∷ defs) = All (IsApart def.slug def.name) defs × AllApart defs

pub system_roles-AllApart : AllApart system_roles
system_roles-AllApart = (
  ((refl, refl), ((refl, refl), ((refl, refl), ((refl, refl), tt)))),
  (
    ((refl, refl), ((refl, refl), ((refl, refl), tt))),
    (((refl, refl), ((refl, refl), tt)), (((refl, refl), tt), (tt, tt))),
  ),
)

-- The request's UUIDs from the n-th on are no role's, and no role of the tenant is in the way of a
-- definition.
pub record HasRoom (ctx : Context) (tenant n : ℕ) (defs : List SystemRoleDefinition) (db : Database)
    : Type 0 where
  pub fresh : (k : ℕ) (r : Role) → Memᴰ r db.roles → n ≤ k → r.id ≢ ctx.uuid k
  pub apart : (r : Role) → Memᴰ r db.roles → r.tenant_id ≡ tenant → All (IsApart r.slug r.name) defs

abbrev pub Impossible : Exception → Database → Type 0
Impossible e db = ⊥

module _ (ctx : Context) (distinct : (j k : ℕ) → j < k → ctx.uuid j ≢ ctx.uuid k) (tenant n : ℕ)
    (def : SystemRoleDefinition) (defs : List SystemRoleDefinition)
    (others : All (IsApart def.slug def.name) defs) where
  free :
      (db : Database)
      → HasRoom ctx tenant n (def ∷ defs) db
      → exists_where (collides (system_role ctx tenant def n)) db.roles ≡ false
  free db h = elim (Bool-cases (exists_where (collides (system_role ctx tenant def n)) db.roles)) [
    | inr miss ↦ miss
    | inl taken ↦
        let (r, m, hit) =
          exists_where-Memᴰ (collides (system_role ctx tenant def n)) db.roles taken in
        elim (Bool-cases (r.id == ctx.uuid n)) [
          | inl same ↦ absurd (h.fresh n r m (ground arith) ((==_iff _ _).0 same))
          | inr other ↦
              let (here, clash) = and_cases _ _ (rw other at hit) in
              let ((slug, name), _) = h.apart r m ((==_iff _ _).0 here) in
              absurd (cc (rw (slug, name) at clash))
        ]
  ]

  weaker :
      (db : Database) → HasRoom ctx tenant n (def ∷ defs) db → HasRoom ctx tenant (suc n) defs db
  weaker db h = record {
    fresh = λ k r m le. h.fresh k r m (ground arith);
    apart = λ r m here. (h.apart r m here).1;
  }

  grown :
      (db : Database)
      → HasRoom ctx tenant n (def ∷ defs) db
      → HasRoom ctx tenant
          (suc n)
          defs
          (record db { roles = insert (system_role ctx tenant def n) db.roles })
  grown db h = record {
    fresh = λ k r m le. elim (Memᴰ-insert (system_role ctx tenant def n) db.roles m) [
      | inl old ↦ h.fresh k r old (ground arith)
      | inr new ↦ λ e. distinct n k (ground arith) (sym (ap (λ (x : Role). x.id) new) ∙ e)
    ];
    apart = λ r m here. elim (Memᴰ-insert (system_role ctx tenant def n) db.roles m) [
      | inl old ↦ (h.apart r old here).1
      | inr new ↦ rw new others
    ];
  }

  create-HasRoom :
      Triple
        (HasRoom ctx tenant n (def ∷ defs))
        (create (system_role ctx tenant def n))
        (λ _ db. HasRoom ctx tenant (suc n) defs db)
        Impossible
  unfolding create
  create-HasRoom = record { at = λ db h. rw (free db h) (grown db h) }

  set_permissions-HasRoom :
      (id : ℕ) (ids : List ℕ)
      → Triple
          (HasRoom ctx tenant (suc n) defs)
          (set_permissions id ids)
          (λ _ db. HasRoom ctx tenant (suc n) defs db)
          Impossible
  unfolding set_permissions
  set_permissions-HasRoom id ids = record {
    at = λ db h. record { fresh = h.fresh; apart = h.apart };
  }

  seed_role-HasRoom :
      Triple
        (HasRoom ctx tenant n (def ∷ defs))
        (seed_role ctx tenant def n)
        (λ _ db. HasRoom ctx tenant (suc n) defs db)
        Impossible
  unfolding seed_role
  seed_role-HasRoom = Triple-bind _ _ (Triple-forget (Triple-gets _)) (λ existing.
      Triple-if (is_some existing) _ _
        (λ _. Triple-weaken (Triple-pure tt) (λ db h. h) (λ _ db (h, _). weaker db h))
        (λ _. Triple-bind _ _ create-HasRoom (λ role.
          Triple-bind _ _ (Triple-forget (Triple-gets _))
            (λ perms. set_permissions-HasRoom role.id _))))

pub seed_each-HasRoom :
    (ctx : Context) (distinct : (j k : ℕ) → j < k → ctx.uuid j ≢ ctx.uuid k) (tenant n : ℕ)
    (defs : List SystemRoleDefinition)
    → AllApart defs
    → Triple (HasRoom ctx tenant n defs) (seed_each ctx tenant defs n) (λ _ db. Unit {0}) Impossible
unfolding seed_each
seed_each-HasRoom ctx distinct tenant n [] h =
    Triple-weaken (Triple-pure tt) (λ d p. p) (λ _ _ _. tt)
seed_each-HasRoom ctx distinct tenant n (def ∷ defs) (others, h) =
    Triple-bind _ _ (seed_role-HasRoom ctx distinct tenant n def defs others)
      (λ _. seed_each-HasRoom ctx distinct tenant (suc n) defs h)
