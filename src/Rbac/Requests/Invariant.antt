-- ===== src/Rbac/Requests/Invariant.antt =====
-- Every call keeps the invariant of roles and assignments.
use hr_saas_platform.Shared.{
  ◌&&◌, ◌==◌, All, ap, Bool-cases, ℕ, ◌≡◌, refl, sym, subst, ◌∙◌, some, List, [], ◌∷◌, inl, inr,
}
use hr_saas_platform.Shared.Table.{exists_where, Memᴰ-insert, Memᴰ-delete_where}
use hr_saas_platform.Events.{Actor, system, by}
use hr_saas_platform.Database.{Database, EmployeeRole}
use hr_saas_platform.Service.{Result, ok, err, hang, Context}
use hr_saas_platform.Service.Triple.{
  Triple, Triple-gets, Triple-pure, Triple-bind, Triple-tenant, Triple-weaken, Triple-forget,
  Triple-each, Triple-relax, Ends,
}
use hr_saas_platform.Rbac.Repository.{new_assignment, assign_role, assign_roles}
use hr_saas_platform.Rbac.Assignments.{AssignRoleDto, assign_roles_to, revoke_roles_from}
use hr_saas_platform.Rbac.Consistency.{IsWellFormed, keep_roles-IsWellFormed, find_by_id-Memᴰ}
use hr_saas_platform.Rbac.RoleSafety.{
  AlsoThen, delete_role-Triple, seed_system_roles_for_tenant-Triple,
}
use hr_saas_platform.Rbac.UpdateSafety.{
  create_custom_role-Triple, update_role-Triple, emit_async-IsWellFormed,
}
use hr_saas_platform.Rbac.Revocation.{revoke_roles_from-Triple}
use hr_saas_platform.Rbac.Granting.{IsAssignable, assignable_names-Triple}
use hr_saas_platform.Rbac.Requests.{
  Request, create, update, delete, assign, revoke, serve, Reaches, start, call, seeding,
}

revoke_roles_from-IsWellFormed :
    (ctx : Context) (tenant : ℕ) (dto : AssignRoleDto) (actor : Actor)
    → ctx.tenant_id ≡ some tenant
    → Triple IsWellFormed (revoke_roles_from ctx dto actor) (λ _ db. IsWellFormed db) AlsoThen
revoke_roles_from-IsWellFormed ctx tenant dto actor here = Triple-each (λ db h.
    Triple-relax
      (Triple-weaken (revoke_roles_from-Triple db ctx tenant dto actor here) (λ d e. e)
        (λ _ d r. subst IsWellFormed (sym r.state) (
          keep_roles-IsWellFormed h refl refl refl
            (λ er m. h.sound.assigned er (Memᴰ-delete_where _ db.employee_roles m).0))))
      (λ _ d same. subst IsWellFormed (sym same) h))

-- The roles are those of the tenant, and the invariant holds.
abbrev Assignable : ℕ → List ℕ → Database → Type 0
Assignable tenant ids db = IsWellFormed db × All (IsAssignable db tenant) ids

assign_role-Assignable :
    (employee tenant id : ℕ) (ids : List ℕ) (actor : Actor)
    → Triple
        (Assignable tenant (id ∷ ids))
        (assign_role employee tenant actor id)
        (λ _ db. Assignable tenant ids db)
        AlsoThen
unfolding assign_role
assign_role-Assignable employee tenant id ids system = record { at = λ db (h, _). h }
assign_role-Assignable employee tenant id ids (by user) = record {
  at = λ db (h, ((role, found, active), rest)).
      elim (Bool-cases
        (exists_where (λ er. er.employee_id == employee && er.role_id == id) db.employee_roles)) [
          | inl taken ↦ rw taken h
          | inr new ↦ rw new (
            keep_roles-IsWellFormed h refl refl refl (λ er m.
                elim (Memᴰ-insert (new_assignment employee tenant user id) db.employee_roles m) [
                  | inl old ↦ h.sound.assigned er old
                  | inr e ↦
                      let (k, same, of_tenant) =
                        find_by_id-Memᴰ id tenant db.roles {r = role} found in
                      (
                        role,
                        k,
                        same ∙ sym (ap (λ (x : EmployeeRole). x.role_id) e),
                        of_tenant ∙ sym (ap (λ (x : EmployeeRole). x.tenant_id) e),
                      )
                ]),
            rest,
          )
        ];
}

assign_roles-IsWellFormed :
    (employee tenant : ℕ) (ids : List ℕ) (actor : Actor)
    → Triple
        (Assignable tenant ids)
        (assign_roles employee tenant ids actor)
        (λ _ db. IsWellFormed db)
        AlsoThen
unfolding assign_roles
assign_roles-IsWellFormed employee tenant [] actor =
    Triple-weaken (Triple-pure _) (λ db h. h) (λ _ db ((h, _), _). h)
assign_roles-IsWellFormed employee tenant (id ∷ ids) actor =
    Triple-bind _ _ (assign_role-Assignable employee tenant id ids actor)
      (λ _. assign_roles-IsWellFormed employee tenant ids actor)

assign_roles_to-IsWellFormed :
    (ctx : Context) (tenant : ℕ) (dto : AssignRoleDto) (actor : Actor)
    → ctx.tenant_id ≡ some tenant
    → Triple IsWellFormed (assign_roles_to ctx dto actor) (λ _ db. IsWellFormed db) AlsoThen
unfolding assign_roles_to
assign_roles_to-IsWellFormed ctx tenant dto actor here = Triple-tenant ctx _ here (
    Triple-bind _ _
      (Triple-each (λ db h.
        Triple-relax
          (Triple-weaken (assignable_names-Triple db tenant dto.role_ids) (λ d e. e)
            (λ _ d (same, found). subst (Assignable tenant dto.role_ids) (sym same) (h, found)))
          (λ _ d same. subst IsWellFormed (sym same) h)))
      (λ names.
        Triple-bind _ _ (assign_roles-IsWellFormed dto.employee_id.uuid tenant dto.role_ids actor)
          (λ _.
            Triple-bind _ _ (emit_async-IsWellFormed ctx _) (λ _. Triple-forget (Triple-gets _)))))

serve-Triple :
    (ctx : Context) (tenant : ℕ) (actor : Actor) (request : Request)
    → ctx.tenant_id ≡ some tenant
    → Triple IsWellFormed (serve ctx actor request) (λ _ db. IsWellFormed db) AlsoThen
unfolding serve
serve-Triple ctx tenant actor (create dto) here =
    Triple-bind _ _ (create_custom_role-Triple ctx tenant dto actor here)
      (λ _. Triple-forget (Triple-pure _))
serve-Triple ctx tenant actor (update id dto) here =
    Triple-bind _ _ (update_role-Triple ctx tenant id dto here) (λ _. Triple-forget (Triple-pure _))
serve-Triple ctx tenant actor (delete id) here = delete_role-Triple ctx tenant id here
serve-Triple ctx tenant actor (assign dto) here =
    Triple-bind _ _ (assign_roles_to-IsWellFormed ctx tenant dto actor here)
      (λ _. Triple-forget (Triple-pure _))
serve-Triple ctx tenant actor (revoke dto) here =
    Triple-bind _ _ (revoke_roles_from-IsWellFormed ctx tenant dto actor here)
      (λ _. Triple-forget (Triple-pure _))

left_IsWellFormed :
    {A : Type 0} (out : Result A × Database)
    → Ends (λ _ db. IsWellFormed db) AlsoThen out
    → IsWellFormed out.1
left_IsWellFormed (ok a, db) h = h
left_IsWellFormed (err e, db) h = h
left_IsWellFormed (hang, db) h = absurd h

-- Every state that calls of the role services and seedings reach from a consistent one is
-- consistent: the ids of roles are unique, each assignment is of a role of its own tenant, and every
-- system role has at least its default permissions.
pub Reaches-IsWellFormed :
    (before after : Database) → Reaches before after → IsWellFormed before → IsWellFormed after
Reaches-IsWellFormed before _ start h = h
Reaches-IsWellFormed before _ (call {db} ctx tenant actor request reached here) h =
    left_IsWellFormed _ (
      (serve-Triple ctx tenant actor request here).at db (Reaches-IsWellFormed before db reached h))
Reaches-IsWellFormed before _ (seeding {db} ctx tenant reached) h = left_IsWellFormed _ (
    (seed_system_roles_for_tenant-Triple ctx tenant).at db
      (Reaches-IsWellFormed before db reached h))
