-- ===== src/Tenants/Features.antt =====
-- Settings: what `updateSettings` writes of a section that is sent and of one that is not, and what
-- `getSettings` then resolves.
use mathlib.Core.List
use mathlib.Core.List.Memᴰ
use hr_saas_platform.Shared.{
  ℕ, String, Bool, ◌≡◌, refl, ap, ◌∙◌, Option, none, some, List, [], ◌∷◌, Memᴰ, false, subst,
}
use hr_saas_platform.Shared.Table.{update_where, find_first-update_where, find_first-Memᴰ}
use hr_saas_platform.Json.{
  Json, null, undefined, boolean, object, Fields, is_undefined, get, merged, deep_merge, serialized,
}
use hr_saas_platform.Json.Merge.{
  Distinct, DistinctKeys, get-deep_merge, at_path, is_leaf, at_path-merged,
}
use hr_saas_platform.Json.Serialized.{get-serialized, get-serialized-deep_merge}
use hr_saas_platform.Database.{Database, Tenant}
use hr_saas_platform.Service.{ok, ◌>>=◌}
use hr_saas_platform.Tenants.Plans.{get_plan_limits}
use hr_saas_platform.Tenants.Repository.{has_id, find_by_id, update, apply_patch, merged_patch}
use hr_saas_platform.Tenants.Repository
use hr_saas_platform.Tenants.Operations.{
  nullish, member, resolved_feature, UpdateTenantSettingsDto, own_fields, or_undefined,
  update_settings, get_settings,
}

own_fields-DistinctKeys : (dto : UpdateTenantSettingsDto) → DistinctKeys (own_fields dto)
unfolding get
own_fields-DistinctKeys dto = (refl, (refl, (refl, (refl, (refl, (refl, tt))))))

-- The tenant after an update of its settings.
abbrev updated : UpdateTenantSettingsDto → Tenant → Tenant
updated dto tenant = apply_patch (merged_patch (own_fields dto) tenant) tenant

abbrev after_update : ℕ → UpdateTenantSettingsDto → Tenant → Database → Database
after_update id dto tenant db = record db {
  tenants =
      update_where (has_id id) (apply_patch (merged_patch (own_fields dto) tenant)) db.tenants;
}

module _ (id : ℕ) (dto : UpdateTenantSettingsDto) (db : Database) (tenant : Tenant)
    (found : find_by_id id db.tenants ≡ some tenant) where
  update_settings-ok :
      update_settings id dto db ≡ (ok (updated dto tenant), after_update id dto tenant db)
  unfolding update_settings Repository.update_settings update ◌>>=◌
  update_settings-ok = rw (found, found) refl

  updated_found : find_by_id id (after_update id dto tenant db).tenants ≡ some (updated dto tenant)
  unfolding find_by_id
  updated_found =
      find_first-update_where (has_id id) (has_id id)
        (apply_patch (merged_patch (own_fields dto) tenant)) db.tenants (λ t. refl)
      ∙ rw (found, (find_first-Memᴰ (has_id id) db.tenants {r = tenant} found).1) refl

-- What an object merges to is an object.
merged-defined : (t : Option Json) (fs : Fields) → is_undefined (merged t (object fs)) ≡ false
unfolding merged
merged-defined none fs = refl
merged-defined (some (object target)) fs = refl
merged-defined (some null) fs = refl
merged-defined (some undefined) fs = refl
merged-defined (some (boolean b)) fs = refl
merged-defined (some (Json.number s)) fs = refl
merged-defined (some (Json.string s)) fs = refl
merged-defined (some (Json.array vs)) fs = refl

member-at_path :
    (m : Json) (key : String) {v : Json}
    → at_path (key ∷ []) (some m) ≡ some v
    → member (some m) key ≡ some v
unfolding at_path
member-at_path (object fs) key e = e
member-at_path null key e = cc
member-at_path undefined key e = cc
member-at_path (boolean b) key e = cc
member-at_path (Json.number s) key e = cc
member-at_path (Json.string s) key e = cc
member-at_path (Json.array vs) key e = cc

-- A choice of a feature in the section that is sent is what it resolves to.
resolved_choice :
    (settings features : Fields) (dto : UpdateTenantSettingsDto) (key : String)
    (choice plan_default : Bool)
    → dto.features ≡ some (object features)
    → Distinct (object features)
    → get key features ≡ some (boolean choice)
    → resolved_feature (serialized (deep_merge settings (own_fields dto))) key plan_default
      ≡ boolean choice
unfolding resolved_feature at_path is_leaf get
resolved_choice settings features dto key choice plan_default sent distinct chosen =
    let m = merged (get "features" settings) (object features) in
    let there : get "features" (serialized (deep_merge settings (own_fields dto))) ≡ some m =
      get-serialized "features" (deep_merge settings (own_fields dto)) m
        (get-deep_merge "features" settings (own_fields dto) (own_fields-DistinctKeys dto)
          ∙ rw sent refl)
        (merged-defined (get "features" settings) features) in
    ap (λ o. nullish (member o key) (boolean plan_default)) there
    ∙ ap (λ o. nullish o (boolean plan_default))
        (member-at_path m key (
          at_path-merged (key ∷ []) (get "features" settings) (object features) (boolean choice)
            distinct refl chosen))

-- What `getSettings` answers of a tenant.
abbrev resolved : Tenant → List (String × Json)
resolved t =
    List.map
      (λ ((key, plan_default) : String × Bool). (key, resolved_feature t.settings key plan_default))
      (get_plan_limits t.plan_type).features

-- An update of the settings of a tenant that exists succeeds. Where it sends the section of the
-- features with a choice of one of the plan's features, `getSettings` then lists the feature with that
-- choice, whatever the settings were and whatever the plan has. No object of the section writes a key
-- twice.
pub update_settings-get_settings :
    (id : ℕ) (dto : UpdateTenantSettingsDto) (db : Database) (tenant : Tenant) (features : Fields)
    (key : String) (choice plan_default : Bool)
    → find_by_id id db.tenants ≡ some tenant
    → dto.features ≡ some (object features)
    → Distinct (object features)
    → get key features ≡ some (boolean choice)
    → Memᴰ (key, plan_default) (get_plan_limits tenant.plan_type).features
    → (t : Tenant) × (after : Database) × (settings : Fields) × (listed : List (String × Json))
      × (update_settings id dto db ≡ (ok t, after))
      × (get_settings id after ≡ (ok (settings, listed), after))
      × Memᴰ (key, boolean choice) listed
unfolding get_settings ◌>>=◌
update_settings-get_settings id dto db tenant features key choice plan_default found sent distinct
      chosen offered =
    (
      updated dto tenant,
      after_update id dto tenant db,
      (updated dto tenant).settings,
      resolved (updated dto tenant),
      update_settings-ok id dto db tenant found,
      rw (updated_found id dto db tenant found) refl,
      subst (λ v. Memᴰ (key, v) (resolved (updated dto tenant)))
          (resolved_choice tenant.settings features dto key choice plan_default sent distinct
            chosen)
          (Memᴰ.map
            (λ ((k, d) : String × Bool). (k, resolved_feature (updated dto tenant).settings k d))
            offered),
    )

-- A section that was not sent is not there.
abbrev pub IsErased : Fields → String → Option Json → Type 0
IsErased settings section none = get section settings ≡ none
IsErased settings section (some sent) = Unit

erased :
    (settings : Fields) (section : String) (sent : Option Json)
    → (sent ≡ none → get section settings ≡ none)
    → IsErased settings section sent
erased settings section none gone = gone refl
erased settings section (some sent) gone = tt

-- An update of the settings of a tenant that exists succeeds and erases every one of the six sections
-- that it does not send. The settings before it write no key twice.
pub update_settings-unsent :
    (id : ℕ) (dto : UpdateTenantSettingsDto) (db : Database) (tenant : Tenant)
    → find_by_id id db.tenants ≡ some tenant
    → DistinctKeys tenant.settings
    → (t : Tenant) × (after : Database) × (update_settings id dto db ≡ (ok t, after))
      × (find_by_id id after.tenants ≡ some t)
      × IsErased t.settings "features" dto.features
      × IsErased t.settings "branding" dto.branding
      × IsErased t.settings "notifications" dto.notifications
      × IsErased t.settings "attendance" dto.attendance
      × IsErased t.settings "payroll" dto.payroll
      × IsErased t.settings "metadata" dto.metadata
unfolding get
update_settings-unsent id dto db tenant found distinct =
    let gone = λ (section : String).
      get-serialized-deep_merge section tenant.settings (own_fields dto) distinct
        (own_fields-DistinctKeys dto) in
    (
      updated dto tenant,
      after_update id dto tenant db,
      update_settings-ok id dto db tenant found,
      updated_found id dto db tenant found,
      erased (updated dto tenant).settings "features" dto.features
          (λ e. gone "features" (ap (λ o. some (or_undefined o)) e)),
      erased (updated dto tenant).settings "branding" dto.branding
          (λ e. gone "branding" (ap (λ o. some (or_undefined o)) e)),
      erased (updated dto tenant).settings "notifications" dto.notifications
          (λ e. gone "notifications" (ap (λ o. some (or_undefined o)) e)),
      erased (updated dto tenant).settings "attendance" dto.attendance
          (λ e. gone "attendance" (ap (λ o. some (or_undefined o)) e)),
      erased (updated dto tenant).settings "payroll" dto.payroll
          (λ e. gone "payroll" (ap (λ o. some (or_undefined o)) e)),
      erased (updated dto tenant).settings "metadata" dto.metadata
          (λ e. gone "metadata" (ap (λ o. some (or_undefined o)) e)),
    )
