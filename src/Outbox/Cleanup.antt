-- ===== src/Outbox/Cleanup.antt =====
-- OutboxCleanupService (src/modules/outbox/outbox-cleanup.service.ts): the hourly deletion of what is
-- past its retention. The three statements start together and commute; here they run in turn.
use hr_saas_platform.Shared.{
  ℕ, ◌+◌, ◌≤◌, leb, if◌then◌else◌, and_cases, Bool, true, false, ◌&&◌, ◌≡◌, refl, Option, none,
  some, ap, ◌∙◌, List, [], ◌∷◌, Memᴰ, arith, inl, inr, ◌⊎◌, Bool-cases,
}
use hr_saas_platform.Shared.Table.{
  select, update_where, delete_where, Memᴰ-delete_where, Memᴰ-delete_where_of,
}
use hr_saas_platform.Database.{EventOutboxRecord, OutboxProcessedEvent, OutboxStatus}
use hr_saas_platform.Database.OutboxStatus.{pending, processing, processed, failed, dead_letter}
use hr_saas_platform.Outbox.{
  is_status, is_stuck, reclaim, reclaim_stuck_events, is_due, selected, limit, batch_size,
  order_by_created,
}
use hr_saas_platform.Outbox.Idempotency.{days_ms, cleanup_old_records}

abbrev pub processed_retention_days : ℕ
processed_retention_days = 7

abbrev pub dead_letter_retention_days : ℕ
dead_letter_retention_days = 30

abbrev pub idempotency_retention_days : ℕ
idempotency_retention_days = 30

-- `ts <= now - days`, which is not true of NULL.
abbrev pub is_past : Option ℕ → ℕ → ℕ → Bool
is_past none days now = false
is_past (some t) days now = leb (t + days_ms days) now

-- WHERE status = 'processed' AND processed_at <= cutoff
abbrev pub is_old_processed : ℕ → EventOutboxRecord → Bool
is_old_processed now r =
    is_status r.status processed && is_past r.processed_at processed_retention_days now

-- WHERE status = 'dead_letter' AND created_at <= cutoff
abbrev pub is_old_dead_letter : ℕ → EventOutboxRecord → Bool
is_old_dead_letter now r =
    is_status r.status dead_letter && leb (r.created_at + days_ms dead_letter_retention_days) now

unfoldable pub cleanup_processed_events : ℕ → List EventOutboxRecord → List EventOutboxRecord
unfolding delete_where
cleanup_processed_events now = delete_where (is_old_processed now)

unfoldable pub cleanup_dead_letter_events : ℕ → List EventOutboxRecord → List EventOutboxRecord
unfolding delete_where
cleanup_dead_letter_events now = delete_where (is_old_dead_letter now)

unfoldable pub cleanup_idempotency_records :
    ℕ → List OutboxProcessedEvent → List OutboxProcessedEvent
unfolding cleanup_old_records
cleanup_idempotency_records = cleanup_old_records idempotency_retention_days

-- Which of the three statements the database answers; the error of another is caught.
pub record Answers : Type 0 where
  pub processed_events : Bool
  pub dead_letter_events : Bool
  pub idempotency_records : Bool

unfoldable pub cleanup :
    Answers
    → ℕ
    → List EventOutboxRecord × List OutboxProcessedEvent
    → List EventOutboxRecord × List OutboxProcessedEvent
unfolding cleanup_processed_events cleanup_dead_letter_events cleanup_idempotency_records
cleanup a now (rows, records) =
    let kept = if a.processed_events then cleanup_processed_events now rows else rows in
    (
      if a.dead_letter_events then cleanup_dead_letter_events now kept else kept,
      if a.idempotency_records then cleanup_idempotency_records now records else records,
    )

-- A row whose retention is over: a week after its delivery, or thirty days after a dead letter was
-- created.
abbrev pub IsExpired : ℕ → EventOutboxRecord → Type 0
IsExpired now r =
    ((r.status ≡ processed) × ((t : ℕ) × (r.processed_at ≡ some t) × (t + 604800000 ≤ now)))
    ⊎ ((r.status ≡ dead_letter) × (r.created_at + 2592000000 ≤ now))

status_processed : (s : OutboxStatus) → is_status s processed ≡ true → s ≡ processed
status_processed pending h = cc
status_processed processing h = cc
status_processed processed h = refl
status_processed failed h = cc
status_processed dead_letter h = cc

status_dead_letter : (s : OutboxStatus) → is_status s dead_letter ≡ true → s ≡ dead_letter
status_dead_letter pending h = cc
status_dead_letter processing h = cc
status_dead_letter processed h = cc
status_dead_letter failed h = cc
status_dead_letter dead_letter h = refl

is_old_processed-IsExpired :
    (now : ℕ) (r : EventOutboxRecord) → is_old_processed now r ≡ true → IsExpired now r
is_old_processed-IsExpired now r h =
    let (done, old) = and_cases _ _ h in
    inl (status_processed r.status done, past r.processed_at old)
  where
    past :
        (o : Option ℕ)
        → is_past o processed_retention_days now ≡ true
        → (t : ℕ) × (o ≡ some t) × (t + 604800000 ≤ now)
    past none k = cc
    past (some t) k = (t, refl, ground arith)

is_old_dead_letter-IsExpired :
    (now : ℕ) (r : EventOutboxRecord) → is_old_dead_letter now r ≡ true → IsExpired now r
is_old_dead_letter-IsExpired now r h =
    let (dead, old) = and_cases _ _ h in inr (status_dead_letter r.status dead, ground arith)

-- A row whose retention is over is none that a poll takes, nor one that it takes back.
expired_not_due :
    (now later : ℕ) (r : EventOutboxRecord)
    → IsExpired now r
    → is_due later (if is_stuck later r then reclaim r else r) ≡ false
expired_not_due now later r (inl (done, _)) = rw done refl
expired_not_due now later r (inr (dead, _)) = rw dead refl

-- The deletion of rows that a query does not find after an update leaves its answer alone.
module _ {Row : Type 0} (p q e : Row → Bool) (f : Row → Row) where
  select-update_where-delete_where :
      (rows : List Row)
      → ((r : Row) → e r ≡ true → p (if q r then f r else r) ≡ false)
      → select p (update_where q f (delete_where e rows)) ≡ select p (update_where q f rows)
  unfolding select update_where delete_where
  select-update_where-delete_where [] unseen = refl
  select-update_where-delete_where (x ∷ rows) unseen = elim (Bool-cases (e x)) [
    | inl gone ↦ rw (gone, unseen x gone) (select-update_where-delete_where rows unseen)
    | inr kept ↦ rw kept (
        ap (λ rest. if p (if q x then f x else x) then (if q x then f x else x) ∷ rest else rest)
          (select-update_where-delete_where rows unseen))
  ]

  select-update_where-attempt :
      (b : Bool) (rows : List Row)
      → ((r : Row) → e r ≡ true → p (if q r then f r else r) ≡ false)
      → select p (update_where q f (if b then delete_where e rows else rows))
        ≡ select p (update_where q f rows)
  select-update_where-attempt true rows unseen = select-update_where-delete_where rows unseen
  select-update_where-attempt false rows unseen = refl

-- A deletion that may have failed leaves rows from before it, and all that its test does not see.
module _ {Row : Type 0} (e : Row → Bool) (rows : List Row) {r : Row} where
  Memᴰ-attempt : (b : Bool) → Memᴰ r (if b then delete_where e rows else rows) → Memᴰ r rows
  Memᴰ-attempt true m = (Memᴰ-delete_where e rows m).0
  Memᴰ-attempt false m = m

  Memᴰ-attempt_of :
      (b : Bool) → Memᴰ r rows → Memᴰ r (if b then delete_where e rows else rows) ⊎ (e r ≡ true)
  Memᴰ-attempt_of true m = elim (Bool-cases (e r)) [
    | inl gone ↦ inr gone
    | inr kept ↦ inl (Memᴰ-delete_where_of e rows m kept)
  ]
  Memᴰ-attempt_of false m = inl m

-- Whichever of its statements fail, a cleanup adds no row to the outbox, takes only processed rows a
-- week after their delivery and dead letters thirty days after their creation, and leaves the batch
-- of the next poll, whenever that is, as it was.
pub cleanup-selected :
    (a : Answers) (now later : ℕ) (rows : List EventOutboxRecord)
    (records : List OutboxProcessedEvent)
    → ((r : EventOutboxRecord) → Memᴰ r (cleanup a now (rows, records)).0 → Memᴰ r rows)
      × ((r : EventOutboxRecord)
          → Memᴰ r rows
          → Memᴰ r (cleanup a now (rows, records)).0 ⊎ IsExpired now r)
      × (selected later (reclaim_stuck_events later (cleanup a now (rows, records)).0)
          ≡ selected later (reclaim_stuck_events later rows))
unfolding cleanup cleanup_processed_events cleanup_dead_letter_events selected reclaim_stuck_events
cleanup-selected a now later rows records =
    let kept = if a.processed_events then delete_where (is_old_processed now) rows else rows in
    (
      λ r m.
          Memᴰ-attempt (is_old_processed now) rows a.processed_events
            (Memᴰ-attempt (is_old_dead_letter now) kept a.dead_letter_events m),
      λ r m. elim (Memᴰ-attempt_of (is_old_processed now) rows a.processed_events m) [
        | inl left ↦
            elim (Memᴰ-attempt_of (is_old_dead_letter now) kept a.dead_letter_events left) [
              | inl stays ↦ inl stays
              | inr old ↦ inr (is_old_dead_letter-IsExpired now r old)
            ]
        | inr old ↦ inr (is_old_processed-IsExpired now r old)
      ],
      ap (λ found. limit batch_size (order_by_created found))
          (select-update_where-attempt (is_due later) (is_stuck later) (is_old_dead_letter now)
              reclaim a.dead_letter_events kept
              (λ r old. expired_not_due now later r (is_old_dead_letter-IsExpired now r old))
            ∙ select-update_where-attempt (is_due later) (is_stuck later) (is_old_processed now)
                reclaim a.processed_events rows
                (λ r old. expired_not_due now later r (is_old_processed-IsExpired now r old))),
    )
