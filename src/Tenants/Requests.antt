-- ===== src/Tenants/Requests.antt =====
-- The writing operations on tenants, one after the other, and that termination is final.
use mathlib.Core.Option
use mathlib.Core.Option.{some-injective}
use text.Mathlib.Text.{◌==◌ as str_eq}
use hr_saas_platform.Shared.{
  ℕ, String, ◌==◌, ==_iff, Bool, true, ◌≡◌, refl, sym, ap, subst, ◌∙◌, Option, none, some, List,
  if◌then◌else◌, inl, inr, Bool-cases, ◌||◌,
}
use hr_saas_platform.Shared.Table.{
  find_first, exists_where, update_where, find_first-insert, find_first-update_where,
  find_first-Memᴰ,
}
use hr_saas_platform.Json.{Fields}
use hr_saas_platform.Events.{Actor, Event}
use hr_saas_platform.Database.{Database, Tenant, TenantStatus}
use hr_saas_platform.Service.{Result, ok, err, hang, Action, Context, emit_async}
use hr_saas_platform.Service.Keeps.{Keeps, Keeps-pure, keeps_rules}
use hr_saas_platform.Service.Triple.{Ends}
use hr_saas_platform.Tenants.Repository.{
  has_id, find_by_id, create, Patch, apply_patch, update, update_found, merged_patch,
}
use hr_saas_platform.Tenants.Repository
use hr_saas_platform.Tenants.Operations.{
  CreateTenantDto, UpdateTenantDto, UpdateTenantSettingsDto, patch_of, create_tenant, update_tenant,
  update_tenant_status, update_settings,
}
use hr_saas_platform.Tenants.Lifecycle.{Moves, IsMoved, with_status, update_tenant_status-IsMoved}

pub data Request : Type 0 where
  create_one : CreateTenantDto → Request
  update_one : ℕ → UpdateTenantDto → Request
  change_status : ℕ → TenantStatus → Option String → Request
  change_settings : ℕ → UpdateTenantSettingsDto → Request

module _ (is_valid_timezone : String → Bool) where
  unfoldable pub handle : Context → Actor → Request → Action Tenant
  handle ctx actor (create_one dto) = create_tenant is_valid_timezone ctx dto actor
  handle ctx actor (update_one id dto) = update_tenant is_valid_timezone id dto
  handle ctx actor (change_status id new reason) = update_tenant_status ctx id new reason actor
  handle ctx actor (change_settings id settings) = update_settings id settings

  pub data Reaches (before : Database) : Database → Type 0 where
    start : Reaches before before
    step :
        {db : Database} (ctx : Context) (actor : Actor) (request : Request)
        → Reaches before db
        → Reaches before (handle ctx actor request db).1

-- The tenant that is found by this id is terminated.
pub record IsTerminated (id : ℕ) (db : Database) : Type 0 where
  pub tenant : Tenant
  pub found : find_by_id id db.tenants ≡ some tenant
  pub terminated : tenant.status ≡ TenantStatus.terminated

no-Moves : {s new : TenantStatus} → Moves s new → s ≡ TenantStatus.terminated → ⊥
no-Moves Moves.activate e = cc
no-Moves Moves.suspend e = cc
no-Moves Moves.reactivate e = cc
no-Moves Moves.give_up e = cc
no-Moves Moves.close e = cc
no-Moves Moves.close_suspended e = cc

-- The row found by two ids is one row.
same_row :
    (id other : ℕ) (rows : List Tenant) {t u : Tenant}
    → find_by_id id rows ≡ some t
    → find_by_id other rows ≡ some u
    → has_id other t ≡ true
    → u ≡ t
unfolding find_by_id
same_row id other rows {t} {u} found found' hit =
    let (_, is) = find_first-Memᴰ (has_id id) rows {r = t} found in
    let e = sym ((==_iff _ _).0 hit) ∙ (==_iff _ _).0 is in
    some-injective u t (sym found' ∙ ap (λ i. find_first (has_id i) rows) e ∙ found)

module _ (id : ℕ) where
  emit_async-IsTerminated :
      (ctx : Context) (event : Event) → Keeps (IsTerminated id) (emit_async ctx event)
  unfolding emit_async
  emit_async-IsTerminated ctx event = record {
    at = λ db h. record { tenant = h.tenant; found = h.found; terminated = h.terminated };
  }

  create-IsTerminated : (row : Tenant) → Keeps (IsTerminated id) (create row)
  unfolding create find_by_id
  create-IsTerminated row = record {
    at = λ db h.
        elim (Bool-cases
          (exists_where (λ t. t.id == row.id || str_eq t.slug row.slug) db.tenants)) [
            | inl taken ↦ rw taken h
            | inr free ↦ rw free (record {
              tenant = h.tenant;
              found = rw (find_first-insert (has_id id) row db.tenants, h.found) refl;
              terminated = h.terminated;
            })
          ];
  }

  -- An update that leaves ids alone, and the status of this tenant.
  update_where-IsTerminated :
      (q : Tenant → Bool) (f : Tenant → Tenant) (db : Database) (h : IsTerminated id db)
      → ((t : Tenant) → (f t).id ≡ t.id)
      → (q h.tenant ≡ true → (f h.tenant).status ≡ TenantStatus.terminated)
      → (after : Database) → after.tenants ≡ update_where q f db.tenants
      → IsTerminated id after
  unfolding find_by_id
  update_where-IsTerminated q f db h same_id same_status after e = record {
    tenant = if q h.tenant then f h.tenant else h.tenant;
    found =
        ap (find_first (has_id id)) e
        ∙ find_first-update_where (has_id id) q f db.tenants (λ t. ap (λ i. i == id) (same_id t))
        ∙ ap (Option.map (λ (t : Tenant). if q t then f t else t)) h.found;
    terminated = elim (Bool-cases (q h.tenant)) [
      | inl hit ↦ rw hit (same_status hit)
      | inr miss ↦ rw miss h.terminated
    ];
  }

  update-IsTerminated :
      (other : ℕ) (patch : Patch)
      → patch.status ≡ none
      → Keeps (IsTerminated id) (update other patch)
  unfolding update
  update-IsTerminated other patch same = record {
    at = λ db h.
        update_where-IsTerminated (has_id other) (apply_patch patch) db h (λ t. refl)
          (λ _. rw same h.terminated) _ refl;
  }

  patch-IsTerminated :
      (other : ℕ) (dto : UpdateTenantDto) → Keeps (IsTerminated id) (update other (patch_of dto))
  patch-IsTerminated other dto = update-IsTerminated other (patch_of dto) refl

  update_found-IsTerminated :
      (other : ℕ) (settings : Fields) (found : Option Tenant)
      → Keeps (IsTerminated id) (update_found other settings found)
  update_found-IsTerminated other settings none = Keeps-pure none
  update_found-IsTerminated other settings (some t) =
      update-IsTerminated other (merged_patch settings t) refl

  change_status-IsTerminated :
      (ctx : Context) (other : ℕ) (new : TenantStatus) (reason : Option String) (actor : Actor)
      → Keeps (IsTerminated id) (update_tenant_status ctx other new reason actor)
  change_status-IsTerminated ctx other new reason actor = record {
    at = λ db h.
        kept db h (update_tenant_status ctx other new reason actor db)
          (update_tenant_status-IsMoved ctx other new reason actor db);
  }
    where
      kept :
          (db : Database)
          → IsTerminated id db
          → (out : Result Tenant × Database)
          → Ends (IsMoved ctx other new reason actor db) (λ _ after. after ≡ db) out
          → IsTerminated id out.1
      kept db h (ok t, after) m =
          update_where-IsTerminated (has_id other) (with_status new) db h (λ t. refl)
            (λ hit. absurd (
              no-Moves m.moves (
                ap (λ (t : Tenant). t.status) (same_row id other db.tenants h.found m.found hit)
                ∙ h.terminated)))
            after (ap (λ (x : Database). x.tenants) m.state)
      kept db h (err e, after) same = subst (IsTerminated id) (sym same) h
      kept db h (hang, after) no_return = absurd no_return

  module _ (is_valid_timezone : String → Bool) where
    handle-IsTerminated :
        (ctx : Context) (actor : Actor) (request : Request)
        → Keeps (IsTerminated id) (handle is_valid_timezone ctx actor request)
    unfolding handle create_tenant update_tenant update_settings Repository.update_settings
    handle-IsTerminated ctx actor (create_one dto) =
        search (keeps_rules, create-IsTerminated, emit_async-IsTerminated) depth 14
    handle-IsTerminated ctx actor (update_one other dto) =
        search (keeps_rules, patch-IsTerminated) depth 14
    handle-IsTerminated ctx actor (change_status other new reason) =
        change_status-IsTerminated ctx other new reason actor
    handle-IsTerminated ctx actor (change_settings other settings) =
        search (keeps_rules, update_found-IsTerminated) depth 14

    -- A tenant that is terminated stays terminated, whatever is asked of the tenants after that.
    pub Reaches-IsTerminated :
        (before after : Database)
        → Reaches is_valid_timezone before after
        → IsTerminated id before
        → IsTerminated id after
    Reaches-IsTerminated before _ start h = h
    Reaches-IsTerminated before _ (step {db} ctx actor request reached) h =
        (handle-IsTerminated ctx actor request).at db (Reaches-IsTerminated before db reached h)
