-- ===== src/Rbac/Granting.antt =====
-- The roles that `assignRoles` takes, and their names.
use hr_saas_platform.Shared.{ℕ, true, ◌≡◌, some, List, [], ◌∷◌, All, not-false}
use hr_saas_platform.Database.{Database, Role}
use hr_saas_platform.Service.Triple.{
  Triple, Triple-throw_if, Triple-pure, Triple-bind, Triple-weaken, Triple-given,
}
use hr_saas_platform.Rbac.Repository.{find_by_id}
use hr_saas_platform.Rbac.Assignments.{assignable_names}
use hr_saas_platform.Rbac.Lookups.{Unchanged, Refused, the_role-Triple}

-- The role is an active one of the tenant.
abbrev pub IsAssignable : Database → ℕ → ℕ → Type 0
IsAssignable db tenant id =
    (r : Role) × (find_by_id id tenant db.roles ≡ some r) × (r.is_active ≡ true)

module _ (db : Database) where
  pub assignable_names-Triple :
      (tenant : ℕ) (ids : List ℕ)
      → Triple
          (Unchanged db)
          (assignable_names tenant ids)
          (λ _ d. Unchanged db d × All (IsAssignable db tenant) ids)
          (Refused db)
  unfolding assignable_names
  assignable_names-Triple tenant [] =
      Triple-weaken (Triple-pure _) (λ d h. h) (λ _ d (h, _). (h, tt))
  assignable_names-Triple tenant (id ∷ ids) =
      Triple-bind _ _ (the_role-Triple db tenant id) (λ role. Triple-given (λ found.
        Triple-bind _ _ (Triple-throw_if _ _ (λ d h. h)) (λ _. Triple-given (λ active.
          Triple-bind _ _ (assignable_names-Triple tenant ids) (λ names.
            Triple-weaken (Triple-pure _) (λ d h. h)
              (λ _ d ((h, hs), _). (h, ((role, found, not-false active), hs))))))))
