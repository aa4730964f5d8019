-- ===== src/Rbac/Access.antt =====
-- When `canActivate` lets a request in, and what it names when it does not.
use hr_saas_platform.Shared.{
  ℕ, String, true, false, ◌≡◌, ◌↔◌, ◌⊎◌, refl, sym, ap, subst, Option, none, some, List, [], ◌∷◌,
  Memᴰ, All, arith, inl, inr, Bool-cases, string_eq, includes, missing_from, every_in_iff,
  some_in_Memᴰ, some_in_of_Memᴰ, Memᴰ-includes, includes-Memᴰ,
}
use mathlib.Core.Option.{some-injective}
use mathlib.Core.List.Memᴰ
use hr_saas_platform.Database.{Database}
use hr_saas_platform.Rbac.Guard.{
  PermissionMode, Route, allowed, insufficient_permissions, list_or_empty, has_access, check_user,
  check_required, can_activate,
}
use hr_saas_platform.Rbac.Assignments.{get_effective_permissions, has_all_permissions}
use hr_saas_platform.Rbac.Effective.{Grants, has_all_permissions-Grants}

-- The user holds all of the required permissions, or one of them in the mode ANY.
abbrev pub Covers : Option PermissionMode → List String → List String → Type 0
Covers (some PermissionMode.any) have required = (p : String) × Memᴰ p required × Memᴰ p have
Covers (some PermissionMode.all) have required = All (λ p. Memᴰ p have) required
Covers none have required = All (λ p. Memᴰ p have) required

-- Nothing is required, or there is a user whose permissions cover what is.
abbrev pub Meets : Option PermissionMode → List String → Option (Option (List String)) → Type 0
Meets mode required user =
    (required ≡ [])
    ⊎ ((permissions : Option (List String)) × (user ≡ some permissions)
        × Covers mode (list_or_empty permissions) required)

-- The ways in.
abbrev pub IsEntitled : Route → Option (Option (List String)) → Type 0
IsEntitled route user =
    (route.is_public ≡ true) ⊎ Meets route.mode (list_or_empty route.required) user

has_access-Covers :
    (mode : Option PermissionMode) (have required : List String)
    → (has_access mode have required ≡ true) ↔ Covers mode have required
unfolding has_access
has_access-Covers (some PermissionMode.any) have required =
    (some_in_Memᴰ have required, λ (p, m, n). some_in_of_Memᴰ have required m n)
has_access-Covers (some PermissionMode.all) have required = every_in_iff have required
has_access-Covers none have required = every_in_iff have required

check_user-Covers :
    (mode : Option PermissionMode) (have required : List String)
    → (check_user mode have required ≡ allowed) ↔ Covers mode have required
unfolding check_user
check_user-Covers mode have required = (
  λ h. (has_access-Covers mode have required).0 (ground arith),
  λ c. rw ((has_access-Covers mode have required).1 c) refl,
)

check_required-Meets :
    (mode : Option PermissionMode) (required : List String) (user : Option (Option (List String)))
    → (check_required mode required user ≡ allowed) ↔ Meets mode required user
unfolding check_required
check_required-Meets mode [] user = (λ _. inl refl, λ _. refl)
check_required-Meets mode (r ∷ rs) none = (λ h. cc, λ m. elim m [ inl e ↦ cc | inr (p, e, _) ↦ cc ])
check_required-Meets mode (r ∷ rs) (some permissions) = (
  λ h. inr (permissions, refl, (check_user-Covers mode (list_or_empty permissions) (r ∷ rs)).0 h),
  λ m. elim m [
    | inl e ↦ cc
    | inr (p, e, c) ↦
        (check_user-Covers mode (list_or_empty permissions) (r ∷ rs)).1
          (subst (λ q. Covers mode (list_or_empty q) (r ∷ rs)) (sym (some-injective _ _ e)) c)
  ],
)

module _ (route : Route) (user : Option (Option (List String))) where
  -- The guard lets a request in exactly if the route is public, or requires nothing, or the request
  -- has a user with all of the required permissions, or with one of them where the mode is ANY.
  pub can_activate-IsEntitled : (can_activate route user ≡ allowed) ↔ IsEntitled route user
  unfolding can_activate
  can_activate-IsEntitled = elim (Bool-cases route.is_public) [
    | inl public ↦ (λ _. inl public, λ _. rw public refl)
    | inr guarded ↦ (
      λ h. inr ((check_required-Meets _ _ user).0 (rw guarded at h)),
      λ e.
          rw guarded
            (elim e [ inl public ↦ cc | inr meets ↦ (check_required-Meets _ _ user).1 meets ]),
    )
  ]

-- What the exception names.
abbrev pub held : Option (Option (List String)) → List String
held none = []
held (some permissions) = list_or_empty permissions

abbrev pub IsMissing : List String → List String → String → Type 0
IsMissing have required p = Memᴰ p required × ¬ Memᴰ p have

Memᴰ-missing_from :
    (have required : List String) {p : String}
    → Memᴰ p (missing_from have required)
    → IsMissing have required p
unfolding missing_from
Memᴰ-missing_from have [] m = elim m [ ]
Memᴰ-missing_from have (r ∷ rs) {p} m = elim (Bool-cases (includes have r)) [
  | inl hit ↦ let (n, lacks) = Memᴰ-missing_from have rs (rw hit at m) in (Memᴰ.tail n, lacks)
  | inr miss ↦ elim (Memᴰ.cases_cons (rw miss at m)) [
    | inl e ↦ (Memᴰ.head e, λ h. cc (ap (includes have) e, miss, Memᴰ-includes have p h))
    | inr n ↦ let (k, lacks) = Memᴰ-missing_from have rs n in (Memᴰ.tail k, lacks)
  ]
]

Memᴰ-missing_from_of :
    (have required : List String) {p : String}
    → IsMissing have required p
    → Memᴰ p (missing_from have required)
unfolding missing_from
Memᴰ-missing_from_of have [] (m, lacks) = elim m [ ]
Memᴰ-missing_from_of have (r ∷ rs) {p} (m, lacks) = elim (Bool-cases (includes have r)) [
  | inl hit ↦ rw hit (elim (Memᴰ.cases_cons m) [
    | inl e ↦ absurd (lacks (Memᴰ.cast e (includes-Memᴰ have r hit)))
    | inr n ↦ Memᴰ-missing_from_of have rs (n, lacks)
  ])
  | inr miss ↦ rw miss (elim (Memᴰ.cases_cons m) [
    | inl e ↦ Memᴰ.head e
    | inr n ↦ Memᴰ.tail (Memᴰ-missing_from_of have rs (n, lacks))
  ])
]

named_injective :
    {a b : List String} → insufficient_permissions a ≡ insufficient_permissions b → a ≡ b
named_injective e = cc

not_mem_nil : {p : String} → ¬ Memᴰ p []
not_mem_nil m = elim m [ ]

check_required-IsMissing :
    (mode : Option PermissionMode) (required : List String) (user : Option (Option (List String)))
    {named : List String}
    → check_required mode required user ≡ insufficient_permissions named
    → (p : String) → Memᴰ p named ↔ IsMissing (held user) required p
unfolding check_required check_user
check_required-IsMissing mode [] user h p = cc
check_required-IsMissing mode (r ∷ rs) none {named} h p =
    let e = named_injective h in
    (λ m. (subst (Memᴰ p) (sym e) m, not_mem_nil), λ (m, _). subst (Memᴰ p) e m)
check_required-IsMissing mode (r ∷ rs) (some permissions) {named} h p =
    elim (Bool-cases (has_access mode (list_or_empty permissions) (r ∷ rs))) [
      | inl has ↦ absurd (cc (rw has at h))
      | inr lacks ↦
          let e = named_injective (rw lacks at h) in
          (
            λ m. Memᴰ-missing_from (list_or_empty permissions) (r ∷ rs) (subst (Memᴰ p) (sym e) m),
            λ m. subst (Memᴰ p) e (Memᴰ-missing_from_of (list_or_empty permissions) (r ∷ rs) m),
          )
    ]

-- A refusal names exactly the required permissions that the user lacks, all of them where the
-- request has no user.
pub can_activate-IsMissing :
    (route : Route) (user : Option (Option (List String))) {named : List String}
    → can_activate route user ≡ insufficient_permissions named
    → (p : String) → Memᴰ p named ↔ IsMissing (held user) (list_or_empty route.required) p
unfolding can_activate
can_activate-IsMissing route user {named} h p = elim (Bool-cases route.is_public) [
  | inl public ↦ absurd (cc (rw public at h))
  | inr guarded ↦ check_required-IsMissing _ _ user (rw guarded at h) p
]

-- `@RequirePermissions(…)`
unfoldable pub require_permissions : List String → Route
require_permissions codes = record {
  is_public = false;
  required = some codes;
  mode = some PermissionMode.all;
}

-- A route with `@RequirePermissions` lets in an employee whose token carries the effective
-- permissions of the database exactly if active roles of the employee grant each required one.
pub can_activate-Grants :
    (db : Database) (employee tenant : ℕ) (codes : List String)
    → let token = (get_effective_permissions employee tenant db).permissions in
      (can_activate (require_permissions codes) (some (some token)) ≡ allowed)
      ↔ All (Grants db employee tenant) codes
unfolding can_activate require_permissions has_all_permissions
can_activate-Grants db employee tenant [] = (λ _. tt, λ _. refl)
can_activate-Grants db employee tenant (r ∷ rs) = (
  λ h. (has_all_permissions-Grants db employee tenant (r ∷ rs)).0 (
      (every_in_iff _ (r ∷ rs)).1 (
        (check_user-Covers (some PermissionMode.all)
            (get_effective_permissions employee tenant db).permissions (r ∷ rs)).0
          h)),
  λ g.
      (check_user-Covers (some PermissionMode.all) _ (r ∷ rs)).1 (
        (every_in_iff _ (r ∷ rs)).0 ((has_all_permissions-Grants db employee tenant (r ∷ rs)).1 g)),
)
