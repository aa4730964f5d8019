-- ===== src/Tenants/Tests.antt =====
-- An active tenant of the free plan that has a feature of its own.
use hr_saas_platform.Shared.{
  List, Memᴰ, arith, ◌+◌, String, Bool, true, false, ◌≡◌, refl, none, some, [], ◌∷◌,
}
use hr_saas_platform.Shared.Table.{find_first, exists_where}
use hr_saas_platform.Json.{Json, string, boolean, object, Fields, end, field, get, deep_merge}
use hr_saas_platform.Json.Merge.{Distinct, DistinctKeys, at_path, is_leaf, at_path-deep_merge}
use hr_saas_platform.Events.{system, Event, Payload}
use hr_saas_platform.Database.{Database, Tenant, TenantStatus, empty}
use hr_saas_platform.Service.{ok, Context}
use hr_saas_platform.Service.Triple.{Ends}
use hr_saas_platform.Tenants.Repository.{find_by_id}
use hr_saas_platform.Tenants.Operations.{
  UpdateTenantSettingsDto, get_settings, update_settings, update_tenant_status,
}
use hr_saas_platform.Tenants.Plans.{get_plan_limits}
use hr_saas_platform.Tenants.Lifecycle.{IsMoved, update_tenant_status-IsMoved}
use hr_saas_platform.Tenants.Requests.{
  change_settings, change_status, handle, start, step, IsTerminated, Reaches-IsTerminated,
}
use hr_saas_platform.Outbox.Idempotency.{is_already_processed}
use hr_saas_platform.Outbox.Cleanup.{Answers, cleanup}
use hr_saas_platform.Tenants.Onboarding
use hr_saas_platform.Tenants.Onboarding.{
  handle_tenant_created, skipped, completed, handle_tenant_created-skipped,
}
use hr_saas_platform.Tenants.Features.{
  IsErased, update_settings-get_settings, update_settings-unsent,
}

abbrev ctx : Context
ctx = record { tenant_id = some 1; now = 5; uuid = λ n. n + 100 }

abbrev tenant : TenantStatus → Tenant
tenant status = record {
  id = 1;
  name = "Acme";
  slug = "acme";
  plan_type = "free";
  status = status;
  default_timezone = "UTC";
  default_locale = "en";
  fiscal_year_start_month = 1;
  max_employees = none;
  settings = field "features" (object (field "geofencing" (boolean true) end)) end;
}

abbrev db : TenantStatus → Database
db status = record empty { tenants = tenant status ∷ [] }

abbrev payroll_on : Fields
payroll_on = field "features" (object (field "payroll" (boolean true) end)) end

payroll_on-Distinct : Distinct (object payroll_on)
unfolding Distinct get
payroll_on-Distinct = ((refl, tt), ((((refl, tt), (tt, tt))), tt))

chosen : at_path ("features" ∷ "payroll" ∷ []) (some (object payroll_on)) ≡ some (boolean true)
unfolding at_path get
chosen = refl

at_path-deep_merge_example :
    at_path
      ("features" ∷ "payroll" ∷ [])
      (some (object (deep_merge (tenant TenantStatus.active).settings payroll_on)))
    ≡ some (boolean true)
unfolding is_leaf
at_path-deep_merge_example =
    at_path-deep_merge ("features" ∷ "payroll" ∷ []) (tenant TenantStatus.active).settings
      payroll_on (boolean true) payroll_on-Distinct refl chosen

abbrev dto : UpdateTenantSettingsDto
dto = record {
  features = some (object (field "payroll" (boolean true) end));
  branding = none;
  notifications = none;
  attendance = none;
  payroll = none;
  metadata = none;
}

dto-Distinct : Distinct (object (field "payroll" (boolean true) end))
unfolding Distinct get
dto-Distinct = ((refl, tt), (tt, tt))

payroll_sent : get "payroll" (field "payroll" (boolean true) end) ≡ some (boolean true)
unfolding get
payroll_sent = refl

payroll_offered : Memᴰ ("payroll", false) (get_plan_limits "free").features
unfolding get_plan_limits
payroll_offered = Memᴰ.tail (Memᴰ.tail (Memᴰ.tail (Memᴰ.tail (Memᴰ.head refl))))

update_settings-get_settings_example :
    (t : Tenant) × (after : Database) × (settings : Fields) × (listed : List (String × Json))
    × (update_settings 1 dto (db TenantStatus.active) ≡ (ok t, after))
    × (get_settings 1 after ≡ (ok (settings, listed), after))
    × Memᴰ ("payroll", boolean true) listed
unfolding find_by_id find_first
update_settings-get_settings_example =
    update_settings-get_settings 1 dto (db TenantStatus.active) (tenant TenantStatus.active)
      (field "payroll" (boolean true) end) "payroll" true false refl refl dto-Distinct payroll_sent
      payroll_offered

-- A tenant with branding, which an update of the features erases.
abbrev branded : Tenant
branded = record (tenant TenantStatus.active) {
  settings = field "branding" (object (field "logo" (string "a.png") end)) end;
}

branded-DistinctKeys : DistinctKeys branded.settings
unfolding get
branded-DistinctKeys = (refl, tt)

update_settings-unsent_example :
    (t : Tenant) × (after : Database) × (update_settings 1 dto
        (record empty { tenants = branded ∷ [] })
      ≡ (ok t, after))
    × (find_by_id 1 after.tenants ≡ some t)
    × IsErased t.settings "features" dto.features
    × IsErased t.settings "branding" dto.branding
    × IsErased t.settings "notifications" dto.notifications
    × IsErased t.settings "attendance" dto.attendance
    × IsErased t.settings "payroll" dto.payroll
    × IsErased t.settings "metadata" dto.metadata
unfolding find_by_id find_first
update_settings-unsent_example =
    update_settings-unsent 1 dto (record empty { tenants = branded ∷ [] }) branded refl
      branded-DistinctKeys

update_tenant_status-IsMoved_example :
    Ends
      (IsMoved ctx 1 TenantStatus.suspended none system (db TenantStatus.active))
      (λ _ after. after ≡ db TenantStatus.active)
      (update_tenant_status ctx 1 TenantStatus.suspended none system (db TenantStatus.active))
update_tenant_status-IsMoved_example =
    update_tenant_status-IsMoved ctx 1 TenantStatus.suspended none system (db TenantStatus.active)

abbrev every_zone : String → Bool
every_zone _ = true

closed : IsTerminated 1 (db TenantStatus.terminated)
unfolding find_by_id find_first
closed = record { tenant = tenant TenantStatus.terminated; found = refl; terminated = refl }

Reaches-IsTerminated_example :
    IsTerminated 1
      (handle every_zone ctx system
        (change_settings 1 dto)
        (handle every_zone ctx system
          (change_status 1 TenantStatus.active none)
          (db TenantStatus.terminated)).1).1
Reaches-IsTerminated_example =
    Reaches-IsTerminated 1 every_zone (db TenantStatus.terminated) _
      (step ctx system (change_settings 1 dto)
        (step ctx system (change_status 1 TenantStatus.active none) start))
      closed

abbrev created : Event
created = record {
  event_id = 7;
  tenant_id = some 1;
  triggered_by = system;
  occurred_at = 0;
  payload = Payload.tenant_created "Acme" "acme" "free" "a@acme.io" "A" "B";
}

abbrev answering : Answers
answering = record {
  processed_events = true;
  dead_letter_events = true;
  idempotency_records = true;
}

first_delivery_completes : (handle_tenant_created true true 40 70 created []).0 ≡ completed
unfolding handle_tenant_created is_already_processed exists_where
first_delivery_completes = refl

-- An hourly cleanup and a delivery whose check fails come between.
handle_tenant_created-skipped_example :
    handle_tenant_created true true 3600100 72 created
      (handle_tenant_created false true 3600050 71 created
        (cleanup answering 3600040 ([], (handle_tenant_created true true 40 70 created []).1)).1).1
    ≡ (
      skipped,
      (handle_tenant_created false true 3600050 71 created
          (cleanup answering 3600040
            ([], (handle_tenant_created true true 40 70 created []).1)).1).1,
    )
handle_tenant_created-skipped_example =
    handle_tenant_created-skipped 40 70 1 created []
      (handle_tenant_created false true 3600050 71 created
        (cleanup answering 3600040 ([], (handle_tenant_created true true 40 70 created []).1)).1).1
      3600040 refl first_delivery_completes
      (Onboarding.delivery false true 3600050 71 created
        (Onboarding.cleaning answering 3600040 [] (omega arith) Onboarding.start))
      (omega arith) true 3600100 72
