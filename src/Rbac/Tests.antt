-- ===== src/Rbac/Tests.antt =====
-- A tenant with a custom role, assigned to one employee.
use mathlib.Core.List.Memᴰ
use hr_saas_platform.Shared.{
  arith, rendered, ℕ, ◌+◌, String, true, false, ◌≡◌, ◌↔◌, refl, sym, ◌∙◌, none, some, [], ◌∷◌, Memᴰ,
  All, includes, every_in, missing_from, string_eq,
}
use hr_saas_platform.Events.{by}
use hr_saas_platform.Database.{Database, Role, Permission, empty}
use hr_saas_platform.Service.{ok, Context}
use hr_saas_platform.Service.Triple.{Ends}
use hr_saas_platform.Rbac.SystemPermissions.{get_all_permission_codes}
use hr_saas_platform.Rbac.SystemRoles.{system_roles}
use hr_saas_platform.Rbac.Repository.{new_assignment, grant}
use hr_saas_platform.Rbac.Roles.{seed_system_roles_for_tenant}
use hr_saas_platform.Rbac.Assignments.{AssignRoleDto, has_all_permissions, revoke_roles_from}
use hr_saas_platform.Rbac.Guard.{Route, allowed, insufficient_permissions, can_activate}
use hr_saas_platform.Rbac.Effective.{Permits, Grants, has_all_permissions-Grants}
use hr_saas_platform.Rbac.Consistency.{Keyed, IsSound, IsWellFormed, IsListed}
use hr_saas_platform.Rbac.Revocation.{GrantsRemain, revoke_roles_from-GrantsRemain}
use hr_saas_platform.Rbac.Access.{
  IsEntitled, IsMissing, can_activate-IsEntitled, can_activate-IsMissing,
}
use hr_saas_platform.Rbac.Seeding.{seed, seed-registry, seed-keeps}
use hr_saas_platform.Rbac.Onboarding.{IsSeeded, seed_system_roles_for_tenant_again}
use hr_saas_platform.Rbac.Requests.{assign, handle, serve, start, call, seeding}
use hr_saas_platform.Rbac.Requests.Invariant.{Reaches-IsWellFormed}
use hr_saas_platform.Rbac.Requests.Refusals.{handle-assign}

abbrev ctx : Context
ctx = record { tenant_id = some 1; now = 5; uuid = λ n. n + 100 }

abbrev auditor : Role
auditor = record {
  id = 40;
  tenant_id = 1;
  name = "Auditor";
  description = none;
  is_system = false;
  slug = "auditor";
  is_active = true;
}

abbrev view : Permission
view = record {
  id = 20;
  code = "audit:view";
  description = none;
  module_name = "audit";
  category = none;
}

-- Employee 5 is an auditor.
abbrev db : Database
db = record empty {
  roles = auditor ∷ [];
  permissions = view ∷ [];
  role_permissions = grant 40 20 ∷ [];
  employee_roles = new_assignment 5 1 9 40 ∷ [];
}

-- The permissions of the system, and no role.
abbrev start_db : Database
start_db = (seed ctx empty).1

start_db-IsWellFormed : IsWellFormed start_db
unfolding seed
start_db-IsWellFormed = record {
  sound = record {
    keyed = λ r s m n e. elim m [ ];
    assigned = λ er m. elim m [ ];
    registry = seed-registry ctx empty;
  };
  defaults = λ r m. elim m [ ];
}

-- One role beside the permissions of the system.
abbrev one_role : Database
one_role = record (seed ctx empty).1 { roles = auditor ∷ [] }

Keyed-one : Keyed (auditor ∷ [])
Keyed-one r s m n e = Memᴰ.eq_of_singleton m ∙ sym (Memᴰ.eq_of_singleton n)

one_role-IsSound : IsSound one_role
unfolding seed
one_role-IsSound = record {
  keyed = Keyed-one;
  assigned = λ er m. elim m [ ];
  registry = seed-registry ctx empty;
}

abbrev dto : AssignRoleDto
dto = record { employee_id = rendered 5; role_ids = 40 ∷ [] }

has_all_permissions-Grants_example :
    (has_all_permissions 5 1 ("audit:view" ∷ []) db ≡ true)
    ↔ All (Grants db 5 1) ("audit:view" ∷ [])
has_all_permissions-Grants_example = has_all_permissions-Grants db 5 1 ("audit:view" ∷ [])

revoke_roles_from-GrantsRemain_example :
    Ends
      (λ _ after. GrantsRemain ctx 1 dto (by 9) db after)
      (λ _ after. after ≡ db)
      (revoke_roles_from ctx dto (by 9) db)
revoke_roles_from-GrantsRemain_example = revoke_roles_from-GrantsRemain ctx 1 dto (by 9) db refl

abbrev assigned_db : Database
assigned_db = (serve ctx (by 9) (assign dto) (seed_system_roles_for_tenant ctx 1 start_db).1).1

Reaches-IsWellFormed_example : IsWellFormed assigned_db
Reaches-IsWellFormed_example =
    Reaches-IsWellFormed start_db assigned_db
      (call ctx 1 (by 9) (assign dto) (seeding ctx 1 start) refl) start_db-IsWellFormed

abbrev route : Route
route = record {
  is_public = false;
  required = some ("audit:view" ∷ "audit:export" ∷ []);
  mode = none;
}

can_activate-IsEntitled_example :
    (can_activate route (some (some ("audit:view" ∷ []))) ≡ allowed)
    ↔ IsEntitled route (some (some ("audit:view" ∷ [])))
can_activate-IsEntitled_example = can_activate-IsEntitled route (some (some ("audit:view" ∷ [])))

refused :
    can_activate route (some (some ("audit:view" ∷ [])))
    ≡ insufficient_permissions ("audit:export" ∷ [])
unfolding can_activate every_in missing_from includes string_eq
refused = refl

can_activate-IsMissing_example :
    Memᴰ {A = String} "audit:export" ("audit:export" ∷ [])
    ↔ IsMissing ("audit:view" ∷ []) ("audit:view" ∷ "audit:export" ∷ []) "audit:export"
can_activate-IsMissing_example =
    can_activate-IsMissing route (some (some ("audit:view" ∷ []))) refused "audit:export"

seed_system_roles_for_tenant_again_example :
    (after : Database) × (seed_system_roles_for_tenant ctx 1 start_db ≡ (ok tt, after))
    × All (IsSeeded 1 after) system_roles
    × (seed_system_roles_for_tenant ctx 1 after ≡ (ok tt, after))
unfolding seed
seed_system_roles_for_tenant_again_example =
    seed_system_roles_for_tenant_again ctx ctx 1 start_db start_db-IsWellFormed (λ r m. elim m [ ])
      (λ k r m. elim m [ ]) (λ j k h e. absurd (omega arith))

seed-keeps_example :
    All (IsListed (seed ctx db).1.permissions) get_all_permission_codes
    × ((role : ℕ) (code : String) → Permits db role code → Permits (seed ctx db).1 role code)
seed-keeps_example = seed-keeps ctx db

handle-assign_example : Ends (λ _ _. ⊥) (λ _ after. after ≡ db) (handle ctx (assign dto) db)
handle-assign_example = handle-assign db ctx 1 (rendered 5) 40 [] refl
