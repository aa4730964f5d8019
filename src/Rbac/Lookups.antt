-- ===== src/Rbac/Lookups.antt =====
-- The lookup of a role that the loops over role ids make: it changes nothing.
use hr_saas_platform.Shared.{ℕ, ◌≡◌, sym, ap, ◌∙◌, some}
use hr_saas_platform.Exceptions.{Exception}
use hr_saas_platform.Database.{Database, Role}
use hr_saas_platform.Service.Triple.{
  Triple, Triple-gets, Triple-found_or, Triple-bind, Triple-weaken,
}
use hr_saas_platform.Rbac.Repository.{find_by_id}
use hr_saas_platform.Rbac.Assignments.{the_role}

module _ (db : Database) where
  -- The database is still the one that the request found.
  abbrev pub Unchanged : Database → Type 0
  Unchanged d = d ≡ db

  abbrev pub Refused : Exception → Database → Type 0
  Refused e d = d ≡ db

  abbrev pub IsFound : ℕ → ℕ → Type 0
  IsFound tenant id = (r : Role) × (find_by_id id tenant db.roles ≡ some r)

  pub the_role-Triple :
      (tenant id : ℕ)
      → Triple Unchanged
          (the_role tenant id)
          (λ r d. Unchanged d × (find_by_id id tenant db.roles ≡ some r))
          Refused
  unfolding the_role
  the_role-Triple tenant id = Triple-bind _ _ (Triple-gets _) (λ found.
      Triple-weaken (Triple-found_or found _ (λ d (h, _). h)) (λ d h. h)
        (λ r d ((h, e), f).
          (h, sym (ap (λ (x : Database). find_by_id id tenant x.roles) h) ∙ sym e ∙ f)))
