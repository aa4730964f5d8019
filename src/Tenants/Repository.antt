-- ===== src/Tenants/Repository.antt =====
-- TenantRepository (src/modules/tenant/repositories/tenant.repository.ts), but for the paged listing.
use mathlib.Core.Option
use text.Mathlib.Text.{◌==◌ as str_eq}
use hr_saas_platform.Shared.{
  ℕ, String, ◌==◌, ltb, if◌then◌else◌, Bool, true, not, ◌&&◌, ◌||◌, Option, none, some, List,
}
use hr_saas_platform.Shared.Table.{
  find_first, exists_where, select, update_where, count_where, insert,
}
use hr_saas_platform.Exceptions.{unique_violation}
use hr_saas_platform.Json.{Fields, serialized, deep_merge}
use hr_saas_platform.Database.{Tenant, TenantStatus}
use hr_saas_platform.Service.{ok, err, Action, pure, gets, ◌>>=◌}
use hr_saas_platform.Tenants.Status.{status_eq}

abbrev pub has_id : ℕ → Tenant → Bool
has_id id t = t.id == id

unfoldable pub find_by_id : ℕ → List Tenant → Option Tenant
find_by_id id = find_first (has_id id)

unfoldable pub find_by_slug : String → List Tenant → Option Tenant
find_by_slug slug = find_first (λ t. str_eq t.slug slug)

abbrev pub is_other : Option ℕ → Tenant → Bool
is_other none t = true
is_other (some id) t = not (t.id == id)

unfoldable pub is_slug_taken : String → Option ℕ → List Tenant → Bool
is_slug_taken slug exclude rows =
    ltb 0 (count_where (λ t. str_eq t.slug slug && is_other exclude t) rows)

unfoldable pub find_active_tenants_with_timezones : List Tenant → List Tenant
find_active_tenants_with_timezones = select (λ t. status_eq.same t.status TenantStatus.active)

-- The primary key, and the unique slug.
unfoldable pub create : Tenant → Action Tenant
create row db =
    if exists_where (λ t. t.id == row.id || str_eq t.slug row.slug) db.tenants
    then (err unique_violation, db)
    else (ok row, record db { tenants = insert row db.tenants })

-- Partial<NewTenant>, the fields that the callers set.
pub record Patch : Type 0 where
  pub name : Option String
  pub plan_type : Option String
  pub status : Option TenantStatus
  pub default_timezone : Option String
  pub default_locale : Option String
  pub fiscal_year_start_month : Option ℕ
  pub max_employees : Option ℕ
  pub settings : Option Fields

abbrev pub no_change : Patch
no_change = record {
  name = none;
  plan_type = none;
  status = none;
  default_timezone = none;
  default_locale = none;
  fiscal_year_start_month = none;
  max_employees = none;
  settings = none;
}

abbrev pub set_or : {A : Type 0} → Option A → A → A
set_or none old = old
set_or (some new) old = new

-- The column is nullable, and a patch does not set it to null.
abbrev pub set_number : Option ℕ → Option ℕ → Option ℕ
set_number none old = old
set_number (some new) old = some new

abbrev pub apply_patch : Patch → Tenant → Tenant
apply_patch p t = record t {
  name = set_or p.name t.name;
  plan_type = set_or p.plan_type t.plan_type;
  status = set_or p.status t.status;
  default_timezone = set_or p.default_timezone t.default_timezone;
  default_locale = set_or p.default_locale t.default_locale;
  fiscal_year_start_month = set_or p.fiscal_year_start_month t.fiscal_year_start_month;
  max_employees = set_number p.max_employees t.max_employees;
  settings = set_or p.settings t.settings;
}

unfoldable pub update : ℕ → Patch → Action (Option Tenant)
unfolding find_by_id
update id patch db = (
  ok (Option.map (apply_patch patch) (find_by_id id db.tenants)),
  record db { tenants = update_where (has_id id) (apply_patch patch) db.tenants },
)

unfoldable pub update_status : ℕ → TenantStatus → Action (Option Tenant)
unfolding update
update_status id status = update id (record no_change { status = some status })

abbrev pub merged_patch : Fields → Tenant → Patch
merged_patch settings t = record no_change {
  settings = some (serialized (deep_merge t.settings settings));
}

-- The rest of `updateSettings`, for the tenant that was found.
abbrev pub update_found : ℕ → Fields → Option Tenant → Action (Option Tenant)
update_found id settings none = pure none
update_found id settings (some t) = update id (merged_patch settings t)

unfoldable pub update_settings : ℕ → Fields → Action (Option Tenant)
unfolding find_by_id
update_settings id settings = do
  tenant ← gets (λ db. find_by_id id db.tenants)
  update_found id settings tenant
