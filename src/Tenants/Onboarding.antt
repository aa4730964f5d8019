-- ===== src/Tenants/Onboarding.antt =====
-- TenantOnboardingService (src/modules/tenant/services/tenant-onboarding.service.ts), the handler of
-- tenant.created: its four steps are still log lines, so what it does is to note the event.
use hr_saas_platform.Shared.{
  ℕ, ◌+◌, ◌≤◌, ◌<◌, ◌≡◌, refl, Memᴰ, arith, inl, inr, Bool-cases, ==_refl, String, if◌then◌else◌,
  Bool, true, false, ◌&&◌, Option, none, some, List,
}
use hr_saas_platform.Shared.Table.{
  exists_where, exists_where_of_Memᴰ, Memᴰ-insert_old, Memᴰ-insert_new, Memᴰ-delete_where_of,
}
use hr_saas_platform.Events.{Event, event_type}
use hr_saas_platform.Database.{OutboxProcessedEvent, EventOutboxRecord}
use hr_saas_platform.Outbox.Idempotency.{
  is_for, is_older, Processing, is_already_processed, mark_as_processed, cleanup_old_records,
}
use hr_saas_platform.Outbox.Cleanup.{
  Answers, cleanup, cleanup_idempotency_records, idempotency_retention_days,
}

abbrev pub handler_name : String
handler_name = "TenantOnboardingService"

pub data Handling : Type 0 where
  skipped completed : Handling

-- An empty tenantId is no UUID, and the database refuses it.
abbrev pub has_tenant : Option ℕ → Bool
has_tenant none = false
has_tenant (some t) = true

-- `handleTenantCreated`: `checks` and `marks` say whether the database answers its two statements.
unfoldable pub handle_tenant_created :
    Bool → Bool → ℕ → ℕ → Event → List OutboxProcessedEvent → Handling × List OutboxProcessedEvent
unfolding is_already_processed mark_as_processed event_type
handle_tenant_created checks marks now id event rows =
    if is_already_processed checks event.event_id handler_name rows then (skipped, rows) else (
      completed,
      mark_as_processed (marks && has_tenant event.tenant_id) now id
          (record {
            event_id = event.event_id;
            handler_name = handler_name;
            event_type = some (event_type event.payload);
            tenant_id = event.tenant_id;
          })
          rows,
    )

-- What happens to the notes up to a time: deliveries to this handler, and cleanups.
pub data Reaches (last : ℕ) (before : List OutboxProcessedEvent)
    : List OutboxProcessedEvent → Type 0 where
  start : Reaches last before before
  delivery :
      {rows : List OutboxProcessedEvent} (checks marks : Bool) (now id : ℕ) (event : Event)
      → Reaches last before rows
      → Reaches last before (handle_tenant_created checks marks now id event rows).1
  cleaning :
      {rows : List OutboxProcessedEvent} (a : Answers) (now : ℕ) (outbox : List EventOutboxRecord)
      → now ≤ last
      → Reaches last before rows
      → Reaches last before (cleanup a now (outbox, rows)).1

module _ {r : OutboxProcessedEvent} where
  mark_as_processed-keeps :
      (answers : Bool) (now id : ℕ) (given : Processing) (rows : List OutboxProcessedEvent)
      → Memᴰ r rows
      → Memᴰ r (mark_as_processed answers now id given rows)
  unfolding mark_as_processed
  mark_as_processed-keeps false now id given rows m = m
  mark_as_processed-keeps true now id given rows m =
      elim (Bool-cases (exists_where (is_for given.event_id given.handler_name) rows)) [
        | inl there ↦ rw there m
        | inr new ↦ rw new (Memᴰ-insert_old _ rows m)
      ]

  handle_tenant_created-keeps :
      (checks marks : Bool) (now id : ℕ) (event : Event) (rows : List OutboxProcessedEvent)
      → Memᴰ r rows
      → Memᴰ r (handle_tenant_created checks marks now id event rows).1
  unfolding handle_tenant_created
  handle_tenant_created-keeps checks marks now id event rows m =
      elim (Bool-cases (is_already_processed checks event.event_id handler_name rows)) [
        | inl again ↦ rw again m
        | inr first ↦ rw first (mark_as_processed-keeps _ now id _ rows m)
      ]

  -- A cleanup within thirty days of a note leaves it.
  cleanup-keeps :
      (a : Answers) (now : ℕ) (outbox : List EventOutboxRecord) (rows : List OutboxProcessedEvent)
      → now < r.processed_at + 2592000000
      → Memᴰ r rows
      → Memᴰ r (cleanup a now (outbox, rows)).1
  unfolding cleanup cleanup_idempotency_records cleanup_old_records
  cleanup-keeps a now outbox rows young m = elim (Bool-cases a.idempotency_records) [
    | inl runs ↦
        rw runs
          (Memᴰ-delete_where_of (is_older idempotency_retention_days now) rows m (ground arith))
    | inr fails ↦ rw fails m
  ]

  Reaches-keeps :
      (last : ℕ) (before after : List OutboxProcessedEvent)
      → Reaches last before after
      → last < r.processed_at + 2592000000
      → Memᴰ r before
      → Memᴰ r after
  Reaches-keeps last before _ start young m = m
  Reaches-keeps last before _ (delivery {rows} checks marks now id event reached) young m =
      handle_tenant_created-keeps checks marks now id event rows
        (Reaches-keeps last before rows reached young m)
  Reaches-keeps last before _ (cleaning {rows} a now outbox early reached) young m =
      cleanup-keeps a now outbox rows (omega arith) (Reaches-keeps last before rows reached young m)

-- The note of a delivery that was not skipped.
completed_note :
    (now id tenant : ℕ) (event : Event) (rows : List OutboxProcessedEvent)
    → event.tenant_id ≡ some tenant
    → (handle_tenant_created true true now id event rows).0 ≡ completed
    → (r : OutboxProcessedEvent) × Memᴰ r (handle_tenant_created true true now id event rows).1
      × (is_for event.event_id handler_name r ≡ true)
      × (r.processed_at ≡ now)
unfolding handle_tenant_created is_already_processed mark_as_processed
completed_note now id tenant event rows of_tenant first =
    elim (Bool-cases (exists_where (is_for event.event_id handler_name) rows)) [
      | inl again ↦ absurd (cc (rw again at first))
      | inr new ↦
          rw (new, of_tenant) (_, Memᴰ-insert_new _ rows, rw (==_refl event.event_id) refl, refl)
    ]

-- An event of a tenant that the handler has completed and noted, and that is delivered again once the
-- database answers the check, is skipped and changes nothing, whatever deliveries to the handler
-- and cleanups came between, if the last cleanup ran less than thirty days after the first delivery.
pub handle_tenant_created-skipped :
    (now id tenant : ℕ) (event : Event) (rows after : List OutboxProcessedEvent) (last : ℕ)
    → event.tenant_id ≡ some tenant
    → (handle_tenant_created true true now id event rows).0 ≡ completed
    → Reaches last (handle_tenant_created true true now id event rows).1 after
    → last < now + 2592000000
    → (marks : Bool) (later id' : ℕ)
    → handle_tenant_created true marks later id' event after ≡ (skipped, after)
unfolding handle_tenant_created is_already_processed
handle_tenant_created-skipped now id tenant event rows after last of_tenant first reached young
      marks later id' =
    let (r, m, same, at) = completed_note now id tenant event rows of_tenant first in
    let there : exists_where (is_for event.event_id handler_name) after ≡ true =
      exists_where_of_Memᴰ _ after (Reaches-keeps last _ after reached (rw at young) m) same in
    rw there refl
