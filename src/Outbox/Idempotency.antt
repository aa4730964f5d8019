-- ===== src/Outbox/Idempotency.antt =====
-- IdempotencyService (src/modules/outbox/idempotency.service.ts) on the table
-- outbox_processed_events. `answers` says whether the database answers the statement; where it does
-- not, the service catches the error.
use text.Mathlib.Text.{◌==◌ as str_eq}
use hr_saas_platform.Shared.{
  ℕ, ◌+◌, ◌*◌, leb, String, ◌==◌, if◌then◌else◌, Bool, ◌&&◌, Option, List,
}
use hr_saas_platform.Shared.Table.{exists_where, delete_where, insert}
use hr_saas_platform.Database.{OutboxProcessedEvent}

-- `days * 24 * 60 * 60 * 1000`
abbrev pub days_ms : ℕ → ℕ
days_ms days = days * 86400000

-- event_id = … AND handler_name = …, which is also the unique index.
abbrev pub is_for : ℕ → String → OutboxProcessedEvent → Bool
is_for event_id handler r = r.event_id == event_id && str_eq r.handler_name handler

unfoldable pub is_already_processed : Bool → ℕ → String → List OutboxProcessedEvent → Bool
unfolding exists_where
is_already_processed answers event_id handler rows =
    answers && exists_where (is_for event_id handler) rows

-- What `markAsProcessed` is told.
pub record Processing : Type 0 where
  pub event_id : ℕ
  pub handler_name : String
  pub event_type : Option String
  pub tenant_id : Option ℕ

abbrev pub processed_row : ℕ → ℕ → Processing → OutboxProcessedEvent
processed_row now id given = record {
  id = id;
  event_id = given.event_id;
  handler_name = given.handler_name;
  event_type = given.event_type;
  tenant_id = given.tenant_id;
  processed_at = now;
}

-- INSERT … ON CONFLICT DO NOTHING, of a row with the fresh id.
unfoldable pub mark_as_processed :
    Bool → ℕ → ℕ → Processing → List OutboxProcessedEvent → List OutboxProcessedEvent
unfolding exists_where insert
mark_as_processed answers now id given rows =
    if answers
    then (if exists_where (is_for given.event_id given.handler_name) rows
        then rows
        else insert (processed_row now id given) rows)
    else rows

-- processed_at <= now - olderThanDays
abbrev pub is_older : ℕ → ℕ → OutboxProcessedEvent → Bool
is_older days now r = leb (r.processed_at + days_ms days) now

-- The number of deleted rows, which is only logged, is left out.
unfoldable pub cleanup_old_records : ℕ → ℕ → List OutboxProcessedEvent → List OutboxProcessedEvent
unfolding delete_where
cleanup_old_records days now = delete_where (is_older days now)
