-- ===== src/Outbox/Lifecycle.antt =====
-- The states of an outbox row: what holds in each, and how a poll leaves them.
use mathlib.Core.List.{map}
use hr_saas_platform.Shared.{
  ℕ, suc, ◌<◌, leb, ◌==◌, ==_refl, String, All, All-Memᴰ, if◌then◌else◌, true, false, ◌&&◌, ◌||◌,
  ◌≡◌, refl, sym, ap, subst, ◌∙◌, Option, none, some, List, [], ◌∷◌, Memᴰ, arith, inl, inr, ◌⊎◌,
  Bool-cases,
}
use hr_saas_platform.Shared.Table.{update_where, count_where-update_where, Memᴰ-unique}
use hr_saas_platform.Events.{Event}
use hr_saas_platform.Database.{EventOutboxRecord, OutboxStatus}
use hr_saas_platform.Database.OutboxStatus.{pending, processing, processed, failed, dead_letter}
use hr_saas_platform.Outbox.{
  is_status, is_overdue, at_or_before, is_stuck, reclaim, reclaim_stuck_events, is_due, selected,
  has_id_in, is_selected, lock, handle_event_failure, settle, process_outbox,
}
use hr_saas_platform.Outbox.Batch.{selected-batch}
use hr_saas_platform.Outbox.Pointwise.{UniqueIds, polled, process_outbox-map}

-- What holds of a row in each state.
abbrev SoundAt : OutboxStatus → EventOutboxRecord → Type 0
SoundAt pending r = r.retry_count < r.max_retries
SoundAt processing r =
    (r.retry_count < r.max_retries) × ((t : ℕ) × (r.processing_started_at ≡ some t))
SoundAt processed r = (t : ℕ) × (r.processed_at ≡ some t)
SoundAt failed r =
    (0 < r.retry_count) × (r.retry_count < r.max_retries) × ((t : ℕ) × (r.next_retry_at ≡ some t))
SoundAt dead_letter r = r.retry_count ≡ r.max_retries

abbrev pub IsSound : EventOutboxRecord → Type 0
IsSound r = SoundAt r.status r

-- A row that is to be published has retries left.
due-retries :
    (now : ℕ) (r : EventOutboxRecord)
    → IsSound r
    → is_due now r ≡ true
    → r.retry_count < r.max_retries
due-retries now r h due = go r.status h due
  where
    go :
        (s : OutboxStatus)
        → SoundAt s r
        → (is_status s pending || (is_status s failed && at_or_before r.next_retry_at now)) ≡ true
        → r.retry_count < r.max_retries
    go pending h due = h
    go processing h due = h.0
    go processed h due = absurd (cc due)
    go failed h due = h.1
    go dead_letter h due = absurd (cc due)

settle-IsSound :
    (now : ℕ) (r : EventOutboxRecord) (error : Option String)
    → r.retry_count < r.max_retries
    → IsSound (settle now r error r)
unfolding settle handle_event_failure
settle-IsSound now r none h = (now, refl)
settle-IsSound now r (some message) h = elim (Bool-cases (leb r.max_retries (suc r.retry_count))) [
  | inl last ↦ rw last (ground arith)
  | inr more ↦ rw more (omega arith, ground arith, (_, refl))
]

reclaim-IsSound :
    (now : ℕ) (r : EventOutboxRecord) → IsSound r → is_stuck now r ≡ true → IsSound (reclaim r)
reclaim-IsSound now r h stuck = go r.status h stuck
  where
    go :
        (s : OutboxStatus)
        → SoundAt s r
        → (is_status s processing && is_overdue r.processing_started_at now) ≡ true
        → r.retry_count < r.max_retries
    go pending h e = h
    go processing h e = h.0
    go processed h e = absurd (cc e)
    go failed h e = h.1
    go dead_letter h e = absurd (cc e)

has_id_in-Memᴰ :
    (rows : List EventOutboxRecord) (id : ℕ)
    → has_id_in rows id ≡ true
    → (s : EventOutboxRecord) × Memᴰ s rows × (s.id ≡ id)
unfolding has_id_in
has_id_in-Memᴰ [] id h = absurd (cc h)
has_id_in-Memᴰ (x ∷ rows) id h = elim (Bool-cases (x.id == id)) [
  | inl hit ↦ (x, Memᴰ.head refl, ground arith)
  | inr miss ↦
      let (s, m, same) = has_id_in-Memᴰ rows id (rw (miss, has_id_in) at h) in
      (s, Memᴰ.tail m, same)
]

pub Memᴰ-has_id_in :
    (rows : List EventOutboxRecord) {s : EventOutboxRecord}
    → Memᴰ s rows
    → has_id_in rows s.id ≡ true
unfolding has_id_in
Memᴰ-has_id_in [] m = elim m [ ]
Memᴰ-has_id_in (x ∷ rows) (Memᴰ.head e) = ground (arith, ap (λ (r : EventOutboxRecord). r.id) e)
Memᴰ-has_id_in (x ∷ rows) (Memᴰ.tail m) = ground (arith, Memᴰ-has_id_in rows m)

-- Where ids are distinct, a row whose id is in the batch is due.
selected-is_due :
    (now : ℕ) (rows : List EventOutboxRecord) (r : EventOutboxRecord)
    → UniqueIds rows
    → Memᴰ r rows
    → is_selected now rows r ≡ true
    → is_due now r ≡ true
selected-is_due now rows r unique m hit =
    let (s, n, same) = has_id_in-Memᴰ (selected now rows) r.id hit in
    let (k, due) = (selected-batch now rows).1 s n in
    let one : s ≡ r =
      Memᴰ-unique (λ e. e.id == r.id) rows (unique r.id) k (ground arith) m (==_refl r.id) in
    ap (is_due now) (sym one) ∙ due

pub Memᴰ-map : {A B : Type 0} (f : A → B) (xs : List A) {a : A} → Memᴰ a xs → Memᴰ (f a) (map f xs)
Memᴰ-map f [] m = elim m [ ]
Memᴰ-map f (x ∷ xs) (Memᴰ.head e) = Memᴰ.head (ap f e)
Memᴰ-map f (x ∷ xs) (Memᴰ.tail m) = Memᴰ.tail (Memᴰ-map f xs m)

All-map :
    {A B : Type 0} (P : B → Type 0) (f : A → B) (xs : List A)
    → ((x : A) → Memᴰ x xs → P (f x))
    → All P (map f xs)
All-map P f [] h = tt
All-map P f (x ∷ xs) h = (h x (Memᴰ.head refl), All-map P f xs (λ y m. h y (Memᴰ.tail m)))

module _ (publish : Event → Option String) (now : ℕ) (rows : List EventOutboxRecord)
    (unique : UniqueIds rows) where
  abbrev pub reclaimed : List EventOutboxRecord
  reclaimed = reclaim_stuck_events now rows

  abbrev pub current : EventOutboxRecord → EventOutboxRecord
  current r = if is_stuck now r then reclaim r else r

  reclaimed-UniqueIds : UniqueIds reclaimed
  unfolding reclaim_stuck_events
  reclaimed-UniqueIds x =
      rw (count_where-update_where (λ r. r.id == x) (is_stuck now) reclaim rows (λ r. refl))
        (unique x)

  pub current-Memᴰ : (r : EventOutboxRecord) → Memᴰ r rows → Memᴰ (current r) reclaimed
  unfolding reclaim_stuck_events update_where
  current-Memᴰ r m = Memᴰ-map current rows m

  current-IsSound : (r : EventOutboxRecord) → IsSound r → IsSound (current r)
  current-IsSound r h = elim (Bool-cases (is_stuck now r)) [
    | inl stuck ↦ rw stuck (reclaim-IsSound now r h stuck)
    | inr calm ↦ rw calm h
  ]

  polled-IsSound :
      (r : EventOutboxRecord) → Memᴰ r rows → IsSound r → IsSound (polled publish now rows r)
  polled-IsSound r m h = elim (Bool-cases (is_selected now reclaimed (current r))) [
    | inl hit ↦ rw hit (
        settle-IsSound now (lock now (current r)) (publish (current r).event) (
          due-retries now (current r) (current-IsSound r h)
            (selected-is_due now reclaimed (current r) reclaimed-UniqueIds (current-Memᴰ r m) hit)))
    | inr miss ↦ rw miss (current-IsSound r h)
  ]

-- A poll keeps the invariant of every row: what is pending or being processed has retries left; what
-- failed was tried, has retries left and a time for the next; what is processed has its time; and a
-- dead letter has used up its retries exactly.
pub process_outbox-IsSound :
    (publish : Event → Option String) (now : ℕ) (rows : List EventOutboxRecord)
    → UniqueIds rows
    → All IsSound rows
    → All IsSound (process_outbox publish now rows)
process_outbox-IsSound publish now rows unique sound =
    rw (process_outbox-map publish now rows unique) (
      All-map IsSound (polled publish now rows) rows
        (λ r m. polled-IsSound publish now rows unique r m (All-Memᴰ IsSound rows sound m)))

abbrev pub IsEnded : EventOutboxRecord → Type 0
IsEnded r = (r.status ≡ processed) ⊎ (r.status ≡ dead_letter)

-- A processed row and a dead letter are the same row after a poll: no event is delivered again once
-- it is marked.
pub process_outbox-ended :
    (publish : Event → Option String) (now : ℕ) (rows : List EventOutboxRecord)
    (r : EventOutboxRecord)
    → UniqueIds rows
    → Memᴰ r rows
    → IsEnded r
    → Memᴰ r (process_outbox publish now rows)
process_outbox-ended publish now rows r unique m ended =
    rw (process_outbox-map publish now rows unique) (
      subst (λ x. Memᴰ x (map (polled publish now rows) rows)) unchanged
        (Memᴰ-map (polled publish now rows) rows m))
  where
    calm : is_stuck now r ≡ false
    calm = elim ended [ inl e ↦ rw e refl | inr e ↦ rw e refl ]

    not_due : is_due now r ≡ false
    not_due = elim ended [ inl e ↦ rw e refl | inr e ↦ rw e refl ]

    same_row : current publish now rows unique r ≡ r
    same_row = rw calm refl

    out : is_selected now (reclaim_stuck_events now rows) r ≡ false
    out = elim (Bool-cases (is_selected now (reclaim_stuck_events now rows) r)) [
      | inl hit ↦ absurd (
          cc (
            sym not_due
            ∙ selected-is_due now (reclaim_stuck_events now rows) r
                (reclaimed-UniqueIds publish now rows unique)
                (subst (λ x. Memᴰ x (reclaim_stuck_events now rows)) same_row
                  (current-Memᴰ publish now rows unique r m))
                hit))
      | inr miss ↦ miss
    ]

    unchanged : polled publish now rows r ≡ r
    unchanged = rw (calm, out) refl
