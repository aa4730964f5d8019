-- ===== src/Rbac/Guard.antt =====
-- RbacGuard.canActivate (src/modules/rbac/guards/rbac.guard.ts) and the modes of
-- src/modules/rbac/decorators/require-permissions.decorator.ts. What the reflector and the request
-- hold is an argument.
use hr_saas_platform.Shared.{
  String, Bool, Option, none, some, List, [], ◌∷◌, if◌then◌else◌, every_in, some_in, missing_from,
  string_eq,
}

pub data PermissionMode : Type 0 where
  all any : PermissionMode

-- The metadata of a route: `@Public()`, the required permissions and the mode.
pub record Route : Type 0 where
  pub is_public : Bool
  pub required : Option (List String)
  pub mode : Option PermissionMode

-- `true`, or the exception with the permissions that it names.
pub data Verdict : Type 0 where
  allowed : Verdict
  insufficient_permissions : List String → Verdict

abbrev pub list_or_empty : Option (List String) → List String
list_or_empty none = []
list_or_empty (some xs) = xs

unfoldable pub has_access : Option PermissionMode → List String → List String → Bool
has_access (some PermissionMode.any) have required = some_in have required
has_access (some PermissionMode.all) have required = every_in have required
has_access none have required = every_in have required

-- The user's permissions decide.
unfoldable pub check_user : Option PermissionMode → List String → List String → Verdict
unfolding has_access
check_user mode have required =
    if has_access mode have required
    then allowed
    else insufficient_permissions (missing_from have required)

-- What follows the test of `@Public()`. `user` is what the authentication put on the request, with
-- the permissions of its token.
unfoldable pub check_required :
    Option PermissionMode → List String → Option (Option (List String)) → Verdict
unfolding check_user
check_required mode [] user = allowed
check_required mode (r ∷ rs) none = insufficient_permissions (r ∷ rs)
check_required mode (r ∷ rs) (some permissions) =
    check_user mode (list_or_empty permissions) (r ∷ rs)

unfoldable pub can_activate : Route → Option (Option (List String)) → Verdict
unfolding check_required
can_activate route user =
    if route.is_public
    then allowed
    else check_required route.mode (list_or_empty route.required) user
