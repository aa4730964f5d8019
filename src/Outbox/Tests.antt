-- ===== src/Outbox/Tests.antt =====
-- A table with an event that waits, one that was delivered and one that is stuck.
use hr_saas_platform.Shared.{
  ℕ, ◌≤◌, length, All, String, true, ◌≡◌, refl, Option, none, some, List, [], ◌∷◌, Memᴰ, arith, ◌⊎◌,
}
use hr_saas_platform.Shared.Table.{count_where, delete_where}
use mathlib.Core.List.{map}
use hr_saas_platform.Events.{Event, Actor, Payload}
use hr_saas_platform.Database.{EventOutboxRecord, OutboxStatus}
use hr_saas_platform.Outbox.{batch_size, is_due, reclaim_stuck_events, selected, process_outbox}
use hr_saas_platform.Outbox.Batch.{IsCutOff, selected-batch}
use hr_saas_platform.Outbox.Pointwise.{UniqueIds, polled, process_outbox-map}
use hr_saas_platform.Outbox.Lifecycle.{IsSound, process_outbox-IsSound}
use hr_saas_platform.Outbox.Delivery.{IsTried, process_outbox-due}
use hr_saas_platform.Outbox.Cleanup.{
  Answers, cleanup, cleanup_processed_events, cleanup_dead_letter_events, IsExpired,
  cleanup-selected,
}

abbrev event : Event
event = record {
  event_id = 1;
  tenant_id = some 1;
  triggered_by = Actor.system;
  occurred_at = 0;
  payload = Payload.department_deactivated 10 "Engineering";
}

abbrev row : ℕ → OutboxStatus → Option ℕ → Option ℕ → EventOutboxRecord
row id status started done = record {
  id = id;
  event = event;
  status = status;
  retry_count = 0;
  max_retries = 3;
  next_retry_at = none;
  processed_at = done;
  processing_started_at = started;
  error_message = none;
  created_at = id;
}

abbrev rows : List EventOutboxRecord
rows =
    row 1 OutboxStatus.pending none none
    ∷ row 2 OutboxStatus.processed none (some 40)
    ∷ row 3 OutboxStatus.processing (some 50) none
    ∷ []

abbrev delivers : Event → Option String
delivers e = none

abbrev fails : Event → Option String
fails e = some "smtp down"

rows-UniqueIds : UniqueIds rows
unfolding count_where
rows-UniqueIds x = ground arith

process_outbox-map_example :
    process_outbox delivers 400000 rows ≡ map (polled delivers 400000 rows) rows
process_outbox-map_example = process_outbox-map delivers 400000 rows rows-UniqueIds

rows-IsSound : All IsSound rows
rows-IsSound = (omega arith, ((40, refl), ((omega arith, (50, refl)), tt)))

process_outbox-IsSound_example : All IsSound (process_outbox fails 400000 rows)
process_outbox-IsSound_example =
    process_outbox-IsSound fails 400000 rows rows-UniqueIds rows-IsSound

-- The stuck row is tried in the same poll.
process_outbox-due_example :
    ((s : EventOutboxRecord) × Memᴰ s (process_outbox delivers 400000 rows)
      × (s.id ≡ 3)
      × IsTried 400000 (row 3 OutboxStatus.processing (some 50) none) none s)
    ⊎ IsCutOff batch_size
        (selected 400000 (reclaim_stuck_events 400000 rows))
        (row 3 OutboxStatus.processing (some 50) none)
process_outbox-due_example =
    process_outbox-due delivers 400000 rows (row 3 OutboxStatus.processing (some 50) none)
      rows-UniqueIds (Memᴰ.tail (Memᴰ.tail (Memᴰ.head refl))) refl

selected-batch_example :
    (length (selected 400000 rows) ≤ batch_size)
    × ((s : EventOutboxRecord)
        → Memᴰ s (selected 400000 rows)
        → Memᴰ s rows × (is_due 400000 s ≡ true))
    × ((r : EventOutboxRecord)
        → Memᴰ r rows
        → is_due 400000 r ≡ true
        → Memᴰ r (selected 400000 rows) ⊎ IsCutOff batch_size (selected 400000 rows) r)
selected-batch_example = selected-batch 400000 rows

abbrev answering : Answers
answering = record {
  processed_events = true;
  dead_letter_events = true;
  idempotency_records = true;
}

-- A week and a little after the delivery at 40, the delivered row goes.
delivered_goes :
    (cleanup answering 604800100 (rows, [])).0
    ≡ row 1 OutboxStatus.pending none none ∷ row 3 OutboxStatus.processing (some 50) none ∷ []
unfolding cleanup cleanup_processed_events cleanup_dead_letter_events delete_where
delivered_goes = refl

cleanup-selected_example :
    ((r : EventOutboxRecord) → Memᴰ r (cleanup answering 604800100 (rows, [])).0 → Memᴰ r rows)
    × ((r : EventOutboxRecord)
        → Memᴰ r rows
        → Memᴰ r (cleanup answering 604800100 (rows, [])).0 ⊎ IsExpired 604800100 r)
    × (selected 604800200
          (reclaim_stuck_events 604800200 (cleanup answering 604800100 (rows, [])).0)
        ≡ selected 604800200 (reclaim_stuck_events 604800200 rows))
cleanup-selected_example = cleanup-selected answering 604800100 604800200 rows []
