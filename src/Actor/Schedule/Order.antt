-- ===== src/Actor/Schedule/Order.antt =====
-- The schedule is kept in the order of time, and a new event goes behind those of its time.
use rivetkit.Base.{
  ℕ, ◌≤◌, ◌<◌, ◌≡◌, refl, ap, List, [], ◌∷◌, ◌++◌, arith, tests, ltb, All, if◌then◌else◌,
  Bool-cases, inl, inr,
}
use rivetkit.Actor.Schedule.{ScheduleEvent, insert_event}

-- Each event is no later than all behind it.
abbrev pub IsSorted : List ScheduleEvent → Type 0
IsSorted [] = Unit
IsSorted (e ∷ es) = All (λ x. e.timestamp ≤ x.timestamp) es × IsSorted es

pub insert_event-cons :
    (e x : ScheduleEvent) (xs : List ScheduleEvent)
    → insert_event e (x ∷ xs)
      ≡ (if ltb e.timestamp x.timestamp then e ∷ x ∷ xs else x ∷ insert_event e xs)
unfolding insert_event
insert_event-cons e x xs = ground arith

All-le_trans :
    (n m : ℕ) (es : List ScheduleEvent)
    → n ≤ m
    → All (λ x. m ≤ x.timestamp) es
    → All (λ x. n ≤ x.timestamp) es
All-le_trans n m [] h hs = tt
All-le_trans n m (x ∷ es) h hs = (omega arith, All-le_trans n m es h hs.1)

All-lt_trans :
    (n m : ℕ) (es : List ScheduleEvent)
    → n < m
    → All (λ x. m ≤ x.timestamp) es
    → All (λ x. n < x.timestamp) es
All-lt_trans n m [] h hs = tt
All-lt_trans n m (x ∷ es) h hs = (omega arith, All-lt_trans n m es h hs.1)

All-insert_event :
    (n : ℕ) (e : ScheduleEvent) (es : List ScheduleEvent)
    → n ≤ e.timestamp
    → All (λ x. n ≤ x.timestamp) es
    → All (λ x. n ≤ x.timestamp) (insert_event e es)
All-insert_event n e [] h hs = unfold insert_event in (h, tt)
All-insert_event n e (x ∷ es) h hs = elim (Bool-cases (ltb e.timestamp x.timestamp)) [
  | inl p ↦ rw (insert_event-cons, p) (h, hs)
  | inr p ↦ rw (insert_event-cons, p) (hs.0, All-insert_event n e es h hs.1)
]

-- Insertion keeps the order of the schedule.
pub insert_event-IsSorted :
    (e : ScheduleEvent) (es : List ScheduleEvent) → IsSorted es → IsSorted (insert_event e es)
insert_event-IsSorted e [] h = unfold insert_event in (tt, tt)
insert_event-IsSorted e (x ∷ es) h = elim (Bool-cases (ltb e.timestamp x.timestamp)) [
  | inl p ↦
      rw (insert_event-cons, p)
        ((omega (tests, p), All-le_trans e.timestamp x.timestamp es (omega (tests, p)) h.0), h)
  | inr p ↦
      rw (insert_event-cons, p)
        (All-insert_event x.timestamp e es (omega (tests, p)) h.0, insert_event-IsSorted e es h.1)
]

-- Into events that are in order, a new event goes behind those that are no later than it and in
-- front of those that are later; the others stay as they were.
pub insert_event_place :
    (e : ScheduleEvent) (es : List ScheduleEvent)
    → IsSorted es
    → (before : List ScheduleEvent) × (behind : List ScheduleEvent) × (es ≡ before ++ behind)
      × (insert_event e es ≡ before ++ e ∷ behind)
      × All (λ x. x.timestamp ≤ e.timestamp) before
      × All (λ x. e.timestamp < x.timestamp) behind
insert_event_place e [] h = ([], [], refl, unfold insert_event in refl, tt, tt)
insert_event_place e (x ∷ es) h = elim (Bool-cases (ltb e.timestamp x.timestamp)) [
  | inl p ↦ (
    [],
    x ∷ es,
    refl,
    rw (insert_event-cons, p),
    tt,
    (omega (tests, p), All-lt_trans e.timestamp x.timestamp es (omega (tests, p)) h.0),
  )
  | inr p ↦
      let (before, behind, split, placed, early, late) = insert_event_place e es h.1 in
      (
        x ∷ before,
        behind,
        ap (λ l. x ∷ l) split,
        rw (insert_event-cons, p) (ap (λ l. x ∷ l) placed),
        (omega (tests, p), early),
        late,
      )
]
