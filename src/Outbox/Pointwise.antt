-- ===== src/Outbox/Pointwise.antt =====
-- One poll changes each row by itself: an independent description of the loop over the batch.
use mathlib.Core.List.{map}
use hr_saas_platform.Shared.{
  ℕ, ◌==◌, ==_refl, ◌≤◌, String, if◌then◌else◌, Bool, false, ◌≡◌, refl, sym, ap, ◌∙◌, Option, none,
  some, List, [], ◌∷◌, Memᴰ, arith, inl, inr, Bool-cases, Option-cases,
}
use hr_saas_platform.Shared.Table.{
  find_first, select, update_where, count_where, find_first-Memᴰ, find_first_of_Memᴰ, Memᴰ-select,
  Memᴰ-select_of, Memᴰ-unique, count_where-update_where,
}
use hr_saas_platform.Events.{Event}
use hr_saas_platform.Database.{EventOutboxRecord}
use hr_saas_platform.Outbox.{
  is_stuck, reclaim, reclaim_stuck_events, is_selected, lock, lock_pending_events, locked_events,
  handle_event_failure, settle, process_event, process_events, process_outbox,
}

abbrev pub UniqueIds : List EventOutboxRecord → Type 0
UniqueIds rows = (x : ℕ) → count_where (λ r. r.id == x) rows ≤ 1

-- Functions that agree on the rows map them alike.
map-agree :
    {A B : Type 0} (f g : A → B) (xs : List A)
    → ((x : A) → Memᴰ x xs → f x ≡ g x)
    → map f xs ≡ map g xs
map-agree f g [] same = refl
map-agree f g (x ∷ xs) same =
    cc (same x (Memᴰ.head refl), map-agree f g xs (λ y m. same y (Memᴰ.tail m)))

map-twice :
    {A B C : Type 0} (f : B → C) (g : A → B) (xs : List A)
    → map f (map g xs) ≡ map (λ x. f (g x)) xs
map-twice f g [] = refl
map-twice f g (x ∷ xs) = cc (map-twice f g xs)

count_where-select :
    {Row : Type 0} (p q : Row → Bool) (rows : List Row)
    → count_where p (select q rows) ≤ count_where p rows
unfolding count_where select
count_where-select p q [] = omega arith
count_where-select p q (x ∷ rows) = ground (arith, count_where-select p q rows)

map_self : {A : Type 0} (xs : List A) → map (λ x. x) xs ≡ xs
map_self [] = refl
map_self (x ∷ xs) = cc (map_self xs)

find_first-absent :
    {Row : Type 0} (p : Row → Bool) (rows : List Row)
    → count_where p rows ≡ 0
    → find_first p rows ≡ none
unfolding count_where find_first
find_first-absent p [] zero = refl
find_first-absent p (x ∷ rows) zero = ground (arith, find_first-absent p rows)

-- Where ids are distinct, a query by id among the selected rows finds the row itself.
find_first-selected :
    (q : EventOutboxRecord → Bool) (rows : List EventOutboxRecord) (r : EventOutboxRecord)
    → UniqueIds rows
    → Memᴰ r rows
    → find_first (λ e. e.id == r.id) (select q rows) ≡ (if q r then some r else none)
find_first-selected q rows r unique m = elim (Bool-cases (q r)) [
  | inl hit ↦
      let (s, found) =
        find_first_of_Memᴰ (λ e. e.id == r.id) (select q rows) (Memᴰ-select_of q rows m hit)
          (==_refl r.id) in
      let (n, same) = find_first-Memᴰ (λ e. e.id == r.id) (select q rows) {r = s} found in
      let one : s ≡ r =
        Memᴰ-unique (λ e. e.id == r.id) rows (unique r.id) (Memᴰ-select q rows n).0 same m
          (==_refl r.id) in
      found ∙ rw hit (ap some one)
  | inr miss ↦ elim (Option-cases (find_first (λ e. e.id == r.id) (select q rows))) [
    | inl gone ↦ gone ∙ rw miss refl
    | inr (s, found) ↦
        let (n, same) = find_first-Memᴰ (λ e. e.id == r.id) (select q rows) {r = s} found in
        let (n', hit) = Memᴰ-select q rows n in
        let one : s ≡ r =
          Memᴰ-unique (λ e. e.id == r.id) rows (unique r.id) n' same m (==_refl r.id) in
        absurd (cc (sym hit ∙ ap q one ∙ miss))
  ]
]

pub settle-id :
    (now : ℕ) (read : EventOutboxRecord) (error : Option String) (r : EventOutboxRecord)
    → (settle now read error r).id ≡ r.id
unfolding settle handle_event_failure
settle-id now read none r = refl
settle-id now read (some message) r = ground arith

module _ (publish : Event → Option String) (now : ℕ) where
  abbrev settle_found : Option EventOutboxRecord → EventOutboxRecord → EventOutboxRecord
  settle_found none r = r
  settle_found (some read) r = settle now read (publish read.event) r

  -- The row after the events of a list are settled.
  settled_by : List EventOutboxRecord → EventOutboxRecord → EventOutboxRecord
  settled_by events r = settle_found (find_first (λ e. e.id == r.id) events) r

  settled_by-cons :
      (read : EventOutboxRecord) (events : List EventOutboxRecord)
      → count_where (λ e. e.id == read.id) events ≡ 0
      → (r : EventOutboxRecord)
      → settled_by events (if r.id == read.id then settle now read (publish read.event) r else r)
        ≡ settled_by (read ∷ events) r
  unfolding settled_by find_first settle
  settled_by-cons read events absent r = elim (Bool-cases (r.id == read.id)) [
    | inl hit ↦
        let same : r.id ≡ read.id = ground arith in
        let gone : find_first (λ e. e.id == read.id) events ≡ none =
          find_first-absent _ events absent in
        rw (hit, settle-id now read (publish read.event) r, same, gone, ==_refl read.id) refl
    | inr miss ↦ let other : (read.id == r.id) ≡ false = ground arith in rw (miss, other) refl
  ]

  process_events-map :
      (events rows : List EventOutboxRecord)
      → UniqueIds events
      → process_events publish now events rows ≡ map (settled_by events) rows
  unfolding process_events process_event update_where count_where settled_by find_first
  process_events-map [] rows unique = sym (map_self rows)
  process_events-map (read ∷ events) rows unique =
      process_events-map events _ (λ x. ground (arith, unique x))
      ∙ (map-twice _ _ rows
          ∙ map-agree _ _ rows
              (λ r m. settled_by-cons read events (ground (arith, unique read.id)) r))

  -- The rows after the lock, and what a poll makes of one of them.
  settled_batch : List EventOutboxRecord → EventOutboxRecord → EventOutboxRecord
  settled_batch reclaimed r =
      if is_selected now reclaimed r
      then settle now (lock now r) (publish r.event) (lock now r)
      else r

  lock-UniqueIds :
      (rows : List EventOutboxRecord) → UniqueIds rows → UniqueIds (lock_pending_events now rows)
  unfolding lock_pending_events
  lock-UniqueIds rows unique x =
      rw
        (count_where-update_where (λ r. r.id == x) (is_selected now rows) (lock now) rows
          (λ r. refl))
        (unique x)

  locked : List EventOutboxRecord → EventOutboxRecord → EventOutboxRecord
  locked rows r = if is_selected now rows r then lock now r else r

  -- A row of the batch is found in it, locked; the others are not found.
  settled_by-locked :
      (rows : List EventOutboxRecord) (r : EventOutboxRecord)
      → UniqueIds rows
      → Memᴰ r (lock_pending_events now rows)
      → settled_by (locked_events now rows) r
        ≡ settle_found (if is_selected now rows r then some r else none) r
  unfolding settled_by locked_events
  settled_by-locked rows r unique m =
      ap (λ o. settle_found o r)
        (find_first-selected (is_selected now rows) (lock_pending_events now rows) r
          (lock-UniqueIds rows unique) m)

  settle-locked :
      (rows : List EventOutboxRecord) (r : EventOutboxRecord)
      → settle_found
          (if is_selected now rows (locked rows r) then some (locked rows r) else none)
          (locked rows r)
        ≡ settled_batch rows r
  unfolding locked settled_batch
  settle-locked rows r = elim (Bool-cases (is_selected now rows r)) [
    | inl hit ↦ rw (hit, hit) refl
    | inr miss ↦ rw (miss, miss) refl
  ]

  batch-map :
      (rows : List EventOutboxRecord)
      → UniqueIds rows
      → process_events publish now (locked_events now rows) (lock_pending_events now rows)
        ≡ map (settled_batch rows) rows
  unfolding locked_events lock_pending_events update_where locked
  batch-map rows unique =
      process_events-map (locked_events now rows) (lock_pending_events now rows) (λ x. omega (
        arith,
        count_where-select (λ r. r.id == x) (is_selected now rows) (lock_pending_events now rows),
        lock-UniqueIds rows unique x,
      ))
      ∙ (map-agree _ _ (lock_pending_events now rows) (λ r m. settled_by-locked rows r unique m)
          ∙ (map-twice _ (locked rows) rows ∙ map-agree _ _ rows (λ r m. settle-locked rows r)))

-- What one poll makes of a row: it is reclaimed if it was stuck, and then settled, with the outcome
-- of its publication, if it is in the batch.
abbrev pub polled :
    (Event → Option String) → ℕ → List EventOutboxRecord → EventOutboxRecord → EventOutboxRecord
polled publish now rows r =
    let current = if is_stuck now r then reclaim r else r in
    if is_selected now (reclaim_stuck_events now rows) current
    then settle now (lock now current) (publish current.event) (lock now current)
    else current

-- Where ids are distinct, a poll is the map of `polled`: every row of the batch is settled once,
-- with the outcome of its own publication, and no row is lost, doubled or moved.
pub process_outbox-map :
    (publish : Event → Option String) (now : ℕ) (rows : List EventOutboxRecord)
    → UniqueIds rows
    → process_outbox publish now rows ≡ map (polled publish now rows) rows
unfolding process_outbox reclaim_stuck_events update_where settled_batch
process_outbox-map publish now rows unique =
    batch-map publish now (reclaim_stuck_events now rows) (λ x.
      rw (count_where-update_where (λ r. r.id == x) (is_stuck now) reclaim rows (λ r. refl))
        (unique x))
    ∙ map-twice (settled_batch publish now (reclaim_stuck_events now rows)) _ rows
