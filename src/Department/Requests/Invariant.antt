-- ===== src/Department/Requests/Invariant.antt =====
-- Every request is answered, and keeps the departments of its tenant consistent.
use hr_saas_platform.Shared.{rendered_text, subst, ℕ, not, String, Bool, ◌≡◌, ◌≢◌, none, some}
use hr_saas_platform.Database.{Database}
use hr_saas_platform.Service.{Result, ok, err, hang, Context}
use hr_saas_platform.Service.Ensures.{
  Outcome, Ensures, Ensures-weaken, Ensures-tenant, Ensures-bind, Ensures-gets, Ensures-throw_if,
}
use hr_saas_platform.Department.Repository.{find_by_id}
use hr_saas_platform.Department.Consistency.{IsConsistent}
use hr_saas_platform.Department.Operations.{update_department}
use hr_saas_platform.Department.Operations.Steps.{Consistent}
use hr_saas_platform.Department.Operations.Safety.{
  assign_manager-Ensures, remove_manager-Ensures, deactivate_department-Ensures,
  reactivate_department-Ensures,
}
use hr_saas_platform.Department.Operations.Create.{create_department-Ensures}
use hr_saas_platform.Department.Operations.Update.{update_department-Ensures}
use hr_saas_platform.Department.Requests.{
  Request, create, update, assign, unassign, deactivate, reactivate, assign_checked,
  deactivate_counted, handle, IsRendered, IsRequest, Reaches, start, step,
}

module _ (ilike : String → String → Bool) (tenant : ℕ) where
  handle-Ensures :
      (ctx : Context) (actor : ℕ) (request : Request)
      → ctx.tenant_id ≡ some tenant
      → IsRendered request
      → Ensures
          (Consistent tenant)
          (λ db. find_by_id (ctx.uuid 0) tenant db.departments ≡ none)
          (handle ilike ctx actor request)
          (λ _ _. Unit {0})
  unfolding handle assign_checked deactivate_counted
  handle-Ensures ctx actor (create dto) here lower =
      create_department-Ensures tenant ctx here ilike dto actor
  handle-Ensures ctx actor (update id dto) here (lower, parent_lower) =
      subst
        (λ text.
          Ensures (Consistent tenant) (λ db. find_by_id (ctx.uuid 0) tenant db.departments ≡ none)
            (update_department ilike ctx text dto actor) (λ _ _. Unit {0}))
        (rendered_text id lower)
        (Ensures-weaken
          (update_department-Ensures tenant ctx here ilike id.uuid dto actor parent_lower)
          (λ _ _. tt) (λ _ _ q. q))
  handle-Ensures ctx actor (assign id employee) here lower = Ensures-tenant ctx _ here (
      Ensures-bind _ _ (Ensures-gets _) λ is_active.
        Ensures-bind _ _ (Ensures-throw_if (not is_active) _) λ _.
          Ensures-weaken (assign_manager-Ensures tenant ctx here id employee actor) (λ _ _. tt)
            (λ _ _ q. q))
  handle-Ensures ctx actor (unassign id) here lower =
      Ensures-weaken (remove_manager-Ensures tenant ctx here id actor) (λ _ _. tt) (λ _ _ q. q)
  handle-Ensures ctx actor (deactivate id) here lower = Ensures-tenant ctx _ here (
      Ensures-bind _ _ (Ensures-gets _) λ count.
        Ensures-weaken (deactivate_department-Ensures tenant ctx here id actor count) (λ _ _. tt)
          (λ _ _ q. q))
  handle-Ensures ctx actor (reactivate id) here lower =
      Ensures-weaken (reactivate_department-Ensures tenant ctx here id actor) (λ _ _. tt)
        (λ _ _ q. q)

-- An outcome is an answer, in a state of the invariant.
answered :
    {A : Type 0} (I : Database → Type 0) (Q : A → Database → Type 0) (out : Result A × Database)
    → Outcome I Q out
    → (out.0 ≢ hang) × I out.1
answered I Q (ok a, db) (i, q) = (λ e. cc e, i)
answered I Q (err e, db) i = (λ e. cc e, i)
answered I Q (hang, db) h = absurd h

-- A request of a tenant whose departments are consistent (distinct ids, no cycle, every parent a
-- department of the tenant and active above an active one, no manager of an inactive one), with a
-- new UUID, is answered with a value or an exception, and leaves the departments consistent. An
-- update is taken to write its two UUIDs in lower case, as the database renders them.
pub handle-IsConsistent :
    (ilike : String → String → Bool) (tenant actor : ℕ) (ctx : Context) (request : Request)
    (db : Database)
    → IsConsistent tenant db.departments
    → IsRequest ilike tenant ctx db request
    → ((handle ilike ctx actor request db).0 ≢ hang)
      × IsConsistent tenant (handle ilike ctx actor request db).1.departments
handle-IsConsistent ilike tenant actor ctx request db h is =
    answered (Consistent tenant) (λ _ _. Unit {0}) _
      ((handle-Ensures ilike tenant ctx actor request is.of_tenant is.as_rendered).at db h is.fresh)

-- Every state that the requests of a tenant reach from a consistent one is consistent, where updates
-- write their UUIDs in lower case, as the database renders them.
pub Reaches-IsConsistent :
    (ilike : String → String → Bool) (tenant : ℕ) {before db : Database}
    → IsConsistent tenant before.departments
    → Reaches ilike tenant before db
    → IsConsistent tenant db.departments
Reaches-IsConsistent ilike tenant h start = h
Reaches-IsConsistent ilike tenant h (step {db} ctx actor request earlier is) =
    (handle-IsConsistent ilike tenant actor ctx request db
      (Reaches-IsConsistent ilike tenant h earlier) is).1
