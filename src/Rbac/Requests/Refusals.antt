-- ===== src/Rbac/Requests/Refusals.antt =====
-- What the routes of the controller refuse.
use hr_saas_platform.Shared.{UuidText, ℕ, ◌≡◌, refl, some, List, ◌∷◌}
use hr_saas_platform.Events.{system}
use hr_saas_platform.Database.{Database}
use hr_saas_platform.Service.{◌>>=◌, Context}
use hr_saas_platform.Service.Triple.{Triple, Ends, Triple-bind, Triple-tenant, Triple-weaken}
use hr_saas_platform.Rbac.Repository.{assign_role, assign_roles}
use hr_saas_platform.Rbac.Assignments.{assign_roles_to}
use hr_saas_platform.Rbac.Granting.{assignable_names-Triple}
use hr_saas_platform.Rbac.Requests.{assign, handle}
use hr_saas_platform.Rbac.Lookups.{Unchanged, Refused}

module _ (db : Database) where
  assign_roles_fails :
      (employee tenant id : ℕ) (ids : List ℕ)
      → Triple
          (λ d. Unchanged db d)
          (assign_roles employee tenant (id ∷ ids) system)
          (λ _ _. ⊥)
          (Refused db)
  unfolding assign_roles assign_role ◌>>=◌
  assign_roles_fails employee tenant id ids = record { at = λ d h. h }

  -- The route that assigns roles never succeeds: the controller passes "system" for the user, which
  -- the UUID column of the assigning user does not take. Each request with a role ends in an error
  -- and changes nothing.
  pub handle-assign :
      (ctx : Context) (tenant : ℕ) (employee : UuidText) (id : ℕ) (ids : List ℕ)
      → ctx.tenant_id ≡ some tenant
      → Ends
          (λ _ _. ⊥)
          (λ _ after. after ≡ db)
          (handle ctx (assign (record { employee_id = employee; role_ids = id ∷ ids })) db)
  unfolding handle assign_roles_to
  handle-assign ctx tenant employee id ids here =
      (Triple-bind _ _
          (Triple-tenant ctx _ here (
            Triple-bind _ _ (assignable_names-Triple db tenant (id ∷ ids)) (λ names.
              Triple-bind _ _
                (Triple-weaken (assign_roles_fails employee.uuid tenant id ids) (λ d (h, _). h)
                  (λ _ _ no_return. no_return))
                (λ _. record { at = λ d h. absurd h }))))
          (λ _. record { at = λ d h. absurd h })).at
        db refl
