-- ===== src/Tenants/Lifecycle.antt =====
-- Changes of a tenant's status.
use mathlib.Core.Option.{some-injective}
use hr_saas_platform.Shared.{
  ℕ, String, true, ◌≡◌, refl, sym, ap, ◌∙◌, Option, none, some, List, includes, not-false,
}
use hr_saas_platform.Shared.Table.{update_where, insert}
use hr_saas_platform.Events.{Actor, Payload}
use hr_saas_platform.Database.{Database, Tenant, TenantStatus, EventOutboxRecord}
use hr_saas_platform.Service.{Context, new_event, outbox_row}
use hr_saas_platform.Service.Triple.{
  Triple, Triple-gets, Triple-pure, Triple-found_or, Triple-throw_if, Triple-bind, Triple-weaken,
  Triple-given, Triple-emit_async, Triple-relax, Triple-found, Ends,
}
use hr_saas_platform.Tenants.Status.{
  valid_status_transitions, is_valid_status_transition, status_eq,
}
use hr_saas_platform.Tenants.Repository.{has_id, find_by_id, update, update_status}
use hr_saas_platform.Tenants.Operations.{announced, announce, update_tenant_status}

-- The moves between statuses.
pub data Moves : TenantStatus → TenantStatus → Type 0 where
  activate : Moves TenantStatus.pending TenantStatus.active
  suspend : Moves TenantStatus.active TenantStatus.suspended
  reactivate : Moves TenantStatus.suspended TenantStatus.active
  give_up : Moves TenantStatus.pending TenantStatus.terminated
  close : Moves TenantStatus.active TenantStatus.terminated
  close_suspended : Moves TenantStatus.suspended TenantStatus.terminated

Moves-valid :
    (current new : TenantStatus) → is_valid_status_transition current new ≡ true → Moves current new
unfolding is_valid_status_transition valid_status_transitions includes status_eq
Moves-valid TenantStatus.pending TenantStatus.active h = activate
Moves-valid TenantStatus.pending TenantStatus.terminated h = give_up
Moves-valid TenantStatus.active TenantStatus.suspended h = suspend
Moves-valid TenantStatus.active TenantStatus.terminated h = close
Moves-valid TenantStatus.suspended TenantStatus.active h = reactivate
Moves-valid TenantStatus.suspended TenantStatus.terminated h = close_suspended
Moves-valid TenantStatus.pending TenantStatus.pending h = cc
Moves-valid TenantStatus.pending TenantStatus.suspended h = cc
Moves-valid TenantStatus.active TenantStatus.pending h = cc
Moves-valid TenantStatus.active TenantStatus.active h = cc
Moves-valid TenantStatus.suspended TenantStatus.pending h = cc
Moves-valid TenantStatus.suspended TenantStatus.suspended h = cc
Moves-valid TenantStatus.terminated new h = cc

-- The event that tells of a move, if there is one: that of a suspension, or of the end of one.
abbrev pub event_of :
    {current new : TenantStatus} → Moves current new → Option String → Option Payload
event_of suspend reason = some (Payload.tenant_suspended reason)
event_of reactivate reason = some Payload.tenant_activated
event_of activate reason = none
event_of give_up reason = none
event_of close reason = none
event_of close_suspended reason = none

announced-event_of :
    {current new : TenantStatus} (move : Moves current new) (reason : Option String)
    → announced current new reason ≡ event_of move reason
announced-event_of suspend reason = refl
announced-event_of reactivate reason = refl
announced-event_of activate reason = refl
announced-event_of give_up reason = refl
announced-event_of close reason = refl
announced-event_of close_suspended reason = refl

-- The outbox after the announcement, if there is one.
abbrev pub told :
    Context → ℕ → Actor → Option Payload → List EventOutboxRecord → List EventOutboxRecord
told ctx id actor none rows = rows
told ctx id actor (some payload) rows =
    insert (outbox_row ctx (new_event ctx (some id) actor payload)) rows

abbrev pub with_status : TenantStatus → Tenant → Tenant
with_status new t = record t { status = new }

module _ (ctx : Context) (id : ℕ) (new : TenantStatus) (reason : Option String) (actor : Actor)
    (db : Database) where
  abbrev moved : Option Payload → Database
  moved payload = record db {
    tenants = update_where (has_id id) (with_status new) db.tenants;
    event_outbox = told ctx id actor payload db.event_outbox;
  }

  -- What a change of status that is not refused does: the tenant exists, its status moves as the
  -- lifecycle has it, and the event of the move is written.
  pub record IsMoved (returned : Tenant) (after : Database) : Type 0 where
    pub tenant : Tenant
    pub found : find_by_id id db.tenants ≡ some tenant
    pub moves : Moves tenant.status new
    pub state : after ≡ moved (event_of moves reason)
    pub same : returned ≡ with_status new tenant

  abbrev Unchanged : Database → Type 0
  Unchanged d = d ≡ db

  abbrev Updated : Database
  Updated = record db { tenants = update_where (has_id id) (with_status new) db.tenants }

  update_status-Triple :
      (t : Tenant)
      → find_by_id id db.tenants ≡ some t
      → Triple Unchanged
          (update_status id new)
          (λ r d. (d ≡ Updated) × (r ≡ some (with_status new t)))
          (λ _ _. ⊥)
  unfolding update_status update
  update_status-Triple t found = record {
    at = λ d h. (
      ap
          (λ (x : Database). record x {
            tenants = update_where (has_id id) (with_status new) x.tenants;
          })
          h,
      rw (ap (λ (x : Database). find_by_id id x.tenants) h ∙ found) refl,
    );
  }

  announce-Triple :
      (t : Tenant) (payload : Option Payload)
      → announced t.status new reason ≡ payload
      → Triple
          (λ d. d ≡ Updated)
          (announce ctx id actor payload)
          (λ _ d. d ≡ moved (announced t.status new reason))
          (λ _ _. ⊥)
  announce-Triple t none e =
      Triple-weaken (Triple-pure _) (λ d h. h)
        (λ _ d (h, _).
          h
          ∙ ap (λ p. record Updated { event_outbox = told ctx id actor p db.event_outbox }) (sym e))
  announce-Triple t (some payload) e =
      Triple-weaken (Triple-emit_async ctx _ Updated) (λ d h. h)
        (λ _ d h.
          h
          ∙ ap (λ p. record Updated { event_outbox = told ctx id actor p db.event_outbox }) (sym e))

  -- A change of status either is refused and changes nothing, or returns: then the tenant exists, its
  -- status moves from pending to active, between active and suspended, or to terminated from any
  -- other, no other row changes, and the outbox gets the event of a suspension or a reactivation.
  pub update_tenant_status-IsMoved :
      Ends IsMoved (λ _ after. after ≡ db) (update_tenant_status ctx id new reason actor db)
  unfolding update_tenant_status
  update_tenant_status-IsMoved =
      (Triple-bind _ _
          (Triple-weaken (Triple-gets _) (λ d h. h)
            (λ found d (h, e). (h, e ∙ ap (λ (x : Database). find_by_id id x.tenants) h)))
          (λ found. Triple-given (λ e. Triple-bind _ _ (Triple-found_or found _ (λ d h. h)) (λ t.
            Triple-given (λ is. Triple-bind _ _ (Triple-throw_if _ _ (λ d h. h)) (λ _.
              Triple-given (λ valid.
                Triple-bind _ _
                  (Triple-relax (update_status-Triple t (sym e ∙ is))
                    (λ _ _ no_throw. absurd no_throw))
                  (λ result. Triple-given (λ r.
                    Triple-bind _ _ (Triple-found result _ r) (λ updated. Triple-given (λ u.
                      Triple-bind _ _
                        (Triple-relax (announce-Triple t _ refl) (λ _ _ no_throw. absurd no_throw))
                        (λ _.
                          Triple-weaken (Triple-pure _) (λ d h. h)
                            (λ returned d (h, same). record {
                              tenant = t;
                              found = sym e ∙ is;
                              moves = Moves-valid t.status new (not-false valid);
                              state =
                                  h
                                  ∙ ap moved (
                                      announced-event_of
                                        (Moves-valid t.status new (not-false valid)) reason);
                              same = same ∙ sym (some-injective _ _ (sym r ∙ u));
                            }))))))))))))).at
        db refl
