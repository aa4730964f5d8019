-- ===== src/Tenants/Status.antt =====
-- The life of a tenant (src/modules/tenant/constants/tenant-status.constants.ts).
use hr_saas_platform.Shared.{
  ℕ, zero, suc, Bool, true, ◌↔◌, ◌==◌, ==_iff, ◌≡◌, refl, sym, ap, ◌∙◌, List, [], ◌∷◌, Eq, includes,
}
use hr_saas_platform.Database.{TenantStatus}

abbrev pub code : TenantStatus → ℕ
code TenantStatus.pending = 0
code TenantStatus.active = 1
code TenantStatus.suspended = 2
code TenantStatus.terminated = 3

abbrev of_code : ℕ → TenantStatus
of_code zero = TenantStatus.pending
of_code (suc zero) = TenantStatus.active
of_code (suc (suc zero)) = TenantStatus.suspended
of_code (suc (suc (suc n))) = TenantStatus.terminated

of_code-code : (s : TenantStatus) → of_code (code s) ≡ s
of_code-code TenantStatus.pending = refl
of_code-code TenantStatus.active = refl
of_code-code TenantStatus.suspended = refl
of_code-code TenantStatus.terminated = refl

pub code_iff : (a b : TenantStatus) → ((code a == code b) ≡ true) ↔ (a ≡ b)
code_iff a b = (
  λ h. sym (of_code-code a) ∙ ap of_code ((==_iff _ _).0 h) ∙ of_code-code b,
  λ e. (==_iff _ _).1 (ap code e),
)

-- `===` on statuses
instance unfoldable pub status_eq : Eq TenantStatus
status_eq = record { same = λ a b. code a == code b; same_iff = code_iff }

unfoldable pub valid_status_transitions : TenantStatus → List TenantStatus
valid_status_transitions TenantStatus.pending = TenantStatus.active ∷ TenantStatus.terminated ∷ []
valid_status_transitions TenantStatus.active = TenantStatus.suspended ∷ TenantStatus.terminated ∷ []
valid_status_transitions TenantStatus.suspended = TenantStatus.active ∷ TenantStatus.terminated ∷ []
valid_status_transitions TenantStatus.terminated = []

unfoldable pub is_valid_status_transition : TenantStatus → TenantStatus → Bool
unfolding valid_status_transitions includes status_eq
is_valid_status_transition current new = includes (valid_status_transitions current) new
