-- ===== src/Outbox.antt =====
-- The outbox dispatcher (src/modules/outbox/outbox-dispatcher.service.ts): one poll, from the rows
-- of event_outbox to the rows after it. `publish` is `EventBusService.publishFromOutbox` in the
-- tenant's context: none, or the message of the error that a handler throws. The handlers' own
-- writes are left out, and so is a second dispatcher (the poll's rows are locked).
pub mod Batch
pub mod Pointwise
pub mod Lifecycle
pub mod Delivery
pub mod Idempotency
pub mod Cleanup
mod Tests
use hr_saas_platform.Shared.{
  ℕ, zero, suc, ◌+◌, ◌-◌, ◌*◌, ◌^◌, ◌≤◌, leb, String, ◌==◌, if◌then◌else◌, Bool, true, false, ◌&&◌,
  ◌||◌, Option, none, some, List, [], ◌∷◌,
}
use hr_saas_platform.Shared.Table.{select, update_where}
use hr_saas_platform.Events.{Event}
use hr_saas_platform.Database.{EventOutboxRecord, OutboxStatus}
use hr_saas_platform.Database.OutboxStatus.{pending, processing, processed, failed, dead_letter}

abbrev pub batch_size : ℕ
batch_size = 50

-- 5 * 60 * 1000
abbrev pub stuck_timeout_ms : ℕ
stuck_timeout_ms = 300000

abbrev pub base_retry_delay_ms : ℕ
base_retry_delay_ms = 5000

-- `ts <= now`, which is not true of NULL.
abbrev pub at_or_before : Option ℕ → ℕ → Bool
at_or_before none now = false
at_or_before (some t) now = leb t now

abbrev pub is_status : OutboxStatus → OutboxStatus → Bool
is_status pending pending = true
is_status processing processing = true
is_status processed processed = true
is_status failed failed = true
is_status dead_letter dead_letter = true
is_status _ _ = false

-- `ts <= now - STUCK_TIMEOUT_MS`
abbrev pub is_overdue : Option ℕ → ℕ → Bool
is_overdue none now = false
is_overdue (some t) now = leb (t + stuck_timeout_ms) now

-- WHERE status = 'processing' AND processing_started_at <= threshold
abbrev pub is_stuck : ℕ → EventOutboxRecord → Bool
is_stuck now r = is_status r.status processing && is_overdue r.processing_started_at now

abbrev pub reclaim : EventOutboxRecord → EventOutboxRecord
reclaim r = record r { status = pending; processing_started_at = none }

unfoldable pub reclaim_stuck_events : ℕ → List EventOutboxRecord → List EventOutboxRecord
reclaim_stuck_events now = update_where (is_stuck now) reclaim

-- WHERE status = 'pending' OR (status = 'failed' AND next_retry_at <= NOW())
abbrev pub is_due : ℕ → EventOutboxRecord → Bool
is_due now r =
    is_status r.status pending || (is_status r.status failed && at_or_before r.next_retry_at now)

-- ORDER BY created_at ASC, by insertion.
unfoldable pub insert_by_created :
    EventOutboxRecord → List EventOutboxRecord → List EventOutboxRecord
insert_by_created r [] = r ∷ []
insert_by_created r (x ∷ xs) =
    let rest = insert_by_created r xs in
    if leb r.created_at x.created_at then r ∷ x ∷ xs else x ∷ rest

unfoldable pub order_by_created : List EventOutboxRecord → List EventOutboxRecord
order_by_created [] = []
order_by_created (r ∷ rows) = insert_by_created r (order_by_created rows)

-- LIMIT
unfoldable pub limit : ℕ → List EventOutboxRecord → List EventOutboxRecord
limit zero rows = []
limit (suc n) [] = []
limit (suc n) (r ∷ rows) = r ∷ limit n rows

-- `id IN (…)`
unfoldable pub has_id_in : List EventOutboxRecord → ℕ → Bool
has_id_in [] id = false
has_id_in (r ∷ rows) id = r.id == id || has_id_in rows id

-- The sub-select of the lock.
unfoldable pub selected : ℕ → List EventOutboxRecord → List EventOutboxRecord
selected now rows = limit batch_size (order_by_created (select (is_due now) rows))

abbrev pub lock : ℕ → EventOutboxRecord → EventOutboxRecord
lock now r = record r { status = processing; processing_started_at = some now }

abbrev pub is_selected : ℕ → List EventOutboxRecord → EventOutboxRecord → Bool
is_selected now rows r = has_id_in (selected now rows) r.id

-- UPDATE … SET status = 'processing' … RETURNING *: the rows after it, and those that it returns,
-- in the order of the table.
unfoldable pub lock_pending_events : ℕ → List EventOutboxRecord → List EventOutboxRecord
lock_pending_events now rows = update_where (is_selected now rows) (lock now) rows

unfoldable pub locked_events : ℕ → List EventOutboxRecord → List EventOutboxRecord
unfolding lock_pending_events
locked_events now rows = select (is_selected now rows) (lock_pending_events now rows)

-- BASE_RETRY_DELAY_MS * Math.pow(2, newRetryCount)
abbrev pub retry_delay : ℕ → ℕ
retry_delay new_retry_count = base_retry_delay_ms * 2 ^ new_retry_count

-- `handleEventFailure`: what is set on the row of the record that was read.
unfoldable pub handle_event_failure :
    ℕ → EventOutboxRecord → String → EventOutboxRecord → EventOutboxRecord
handle_event_failure now read message r =
    let new_retry_count = suc read.retry_count in
    if leb read.max_retries new_retry_count
    then record r {
      status = dead_letter;
      retry_count = new_retry_count;
      error_message = some message;
      processing_started_at = none;
    }
    else record r {
      status = failed;
      retry_count = new_retry_count;
      error_message = some message;
      next_retry_at = some (now + retry_delay new_retry_count);
      processing_started_at = none;
    }

abbrev pub mark_processed : ℕ → EventOutboxRecord → EventOutboxRecord
mark_processed now r = record r {
  status = processed;
  processed_at = some now;
  processing_started_at = none;
  error_message = none;
}

unfoldable pub settle :
    ℕ → EventOutboxRecord → Option String → EventOutboxRecord → EventOutboxRecord
unfolding handle_event_failure
settle now read none r = mark_processed now r
settle now read (some message) r = handle_event_failure now read message r

module _ (publish : Event → Option String) where
  -- `processEvent`, on the row of the record's id.
  unfoldable pub process_event :
      ℕ → EventOutboxRecord → List EventOutboxRecord → List EventOutboxRecord
  unfolding settle
  process_event now read =
      update_where (λ r. r.id == read.id) (settle now read (publish read.event))

  -- for (const event of events) await this.processEvent(event)
  unfoldable pub process_events :
      ℕ → List EventOutboxRecord → List EventOutboxRecord → List EventOutboxRecord
  unfolding process_event
  process_events now [] rows = rows
  process_events now (read ∷ events) rows = process_events now events (process_event now read rows)

  -- `processOutbox`, where no poll of this process is running.
  unfoldable pub process_outbox : ℕ → List EventOutboxRecord → List EventOutboxRecord
  unfolding reclaim_stuck_events lock_pending_events locked_events process_events
  process_outbox now rows =
      let reclaimed = reclaim_stuck_events now rows in
      process_events now (locked_events now reclaimed) (lock_pending_events now reclaimed)
