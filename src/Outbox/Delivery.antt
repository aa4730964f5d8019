-- ===== src/Outbox/Delivery.antt =====
-- What a poll does for a row that is due: it is tried, unless the batch is full of older rows.
use mathlib.Core.List.{map}
use hr_saas_platform.Shared.{
  ℕ, suc, ◌+◌, ◌*◌, ◌^◌, ◌≤◌, ◌<◌, leb, String, if◌then◌else◌, Bool, true, false, ◌||◌, ◌≡◌, refl,
  subst, Option, none, some, List, Memᴰ, arith, inl, inr, ◌⊎◌, Bool-cases,
}
use hr_saas_platform.Events.{Event}
use hr_saas_platform.Database.{EventOutboxRecord}
use hr_saas_platform.Database.OutboxStatus.{processed, failed, dead_letter}
use hr_saas_platform.Outbox.{
  batch_size, is_stuck, reclaim, reclaim_stuck_events, is_due, selected, is_selected, lock,
  handle_event_failure, settle, process_outbox,
}
use hr_saas_platform.Outbox.Batch.{selected-batch, IsCutOff}
use hr_saas_platform.Outbox.Pointwise.{UniqueIds, polled, settle-id, process_outbox-map}
use hr_saas_platform.Outbox.Lifecycle.{Memᴰ-has_id_in, Memᴰ-map, current-Memᴰ}

-- The row `s` that a try of `r` leaves, by the outcome of the publication.
abbrev pub IsTried : ℕ → EventOutboxRecord → Option String → EventOutboxRecord → Type 0
IsTried now r none s = (s.status ≡ processed) × (s.processed_at ≡ some now)
IsTried now r (some message) s =
    (s.retry_count ≡ suc r.retry_count)
    × (s.error_message ≡ some message)
    × (((s.status ≡ failed)
          × (suc r.retry_count < r.max_retries)
          × (s.next_retry_at ≡ some (now + 5000 * 2 ^ suc r.retry_count)))
        ⊎ ((s.status ≡ dead_letter) × (r.max_retries ≤ suc r.retry_count)))

settle-IsTried :
    (now : ℕ) (r : EventOutboxRecord) (outcome : Option String)
    → IsTried now r outcome (settle now (lock now r) outcome (lock now r))
unfolding settle handle_event_failure
settle-IsTried now r none = (refl, refl)
settle-IsTried now r (some message) = elim (Bool-cases (leb r.max_retries (suc r.retry_count))) [
  | inl last ↦ rw last (refl, refl, inr (refl, ground arith))
  | inr more ↦ rw more (refl, refl, inl (refl, ground arith, refl))
]

-- A stuck row is due once it is reclaimed, and a row that is due is not stuck.
current_due :
    (now : ℕ) (r : EventOutboxRecord)
    → (is_due now r || is_stuck now r) ≡ true
    → is_due now (if is_stuck now r then reclaim r else r) ≡ true
current_due now r ready = elim (Bool-cases (is_stuck now r)) [
  | inl stuck ↦ rw stuck refl
  | inr calm ↦ rw calm (ground (arith, calm, ready))
]

-- Where ids are distinct, a row that is pending, or failed with its time come, or stuck, is tried in
-- the poll, and a row with the outcome stands in its place; or the batch holds fifty rows that are
-- no newer.
pub process_outbox-due :
    (publish : Event → Option String) (now : ℕ) (rows : List EventOutboxRecord)
    (r : EventOutboxRecord)
    → UniqueIds rows
    → Memᴰ r rows
    → (is_due now r || is_stuck now r) ≡ true
    → ((s : EventOutboxRecord) × Memᴰ s (process_outbox publish now rows)
        × (s.id ≡ r.id)
        × IsTried now r (publish r.event) s)
      ⊎ IsCutOff batch_size (selected now (reclaim_stuck_events now rows)) r
process_outbox-due publish now rows r unique m ready =
    let cur = if is_stuck now r then reclaim r else r in
    let batch = reclaim_stuck_events now rows in
    let place = current-Memᴰ publish now rows unique r m in
    elim ((selected-batch now batch).2 cur place (current_due now r ready)) [
      | inl chosen ↦
          let s = settle now (lock now r) (publish r.event) (lock now r) in
          let hit : is_selected now batch cur ≡ true = Memᴰ-has_id_in (selected now batch) chosen in
          inl (
            s,
            rw (process_outbox-map publish now rows unique) (
                subst (λ x. Memᴰ x (map (polled publish now rows) rows))
                  (rw hit (tried_current r (is_stuck now r)))
                  (Memᴰ-map (polled publish now rows) rows m)),
            settle-id now (lock now r) (publish r.event) (lock now r),
            settle-IsTried now r (publish r.event),
          )
      | inr cut ↦ inr (cut_current batch (is_stuck now r) cut)
    ]
  where
    tried_current :
        (r : EventOutboxRecord) (stuck : Bool)
        → settle now
            (lock now (if stuck then reclaim r else r))
            (publish (if stuck then reclaim r else r).event)
            (lock now (if stuck then reclaim r else r))
          ≡ settle now (lock now r) (publish r.event) (lock now r)
    tried_current r true = refl
    tried_current r false = refl

    cut_current :
        (batch : List EventOutboxRecord) (stuck : Bool)
        → IsCutOff batch_size (selected now batch) (if stuck then reclaim r else r)
        → IsCutOff batch_size (selected now batch) r
    cut_current batch true cut = cut
    cut_current batch false cut = cut
