-- ===== src/Actor/Schedule/Alarms.antt =====
-- The alarm that was requested last is the time of the first event, and what an alarm runs.
use rivetkit.Base.{
  ℕ, zero, suc, ◌+◌, ◌≤◌, ◌<◌, Bool, ◌≡◌, refl, ap, ◌∙◌, none, List, [], ◌∷◌, ◌++◌, arith, leb, All,
  find_index, drop, inl, inr, take-append-drop, length, Option-cases, le→leb,
}
use rivetkit.Actor.Schedule.{
  ScheduleEvent, Scheduler, insert_event, schedule_event_inner, on_alarm, set_next_alarm,
}
use rivetkit.Actor.Schedule.Order.{IsSorted, insert_event-cons, insert_event-IsSorted}

-- The latest request is for the first event.
abbrev IsHead : List ScheduleEvent → List ℕ → Type 0
IsHead [] alarms = Unit
IsHead (e ∷ es) [] = ⊥
IsHead (e ∷ es) (a ∷ alarms) = a ≡ e.timestamp

pub record IsValid (s : Scheduler) : Type 0 where
  pub sorted : IsSorted s.scheduled_events
  pub armed : IsHead s.scheduled_events s.alarms

length-insert_event :
    (e : ScheduleEvent) (es : List ScheduleEvent) → length (insert_event e es) ≡ suc (length es)
length-insert_event e [] = unfold insert_event in refl
length-insert_event e (x ∷ es) = rw insert_event-cons (ground (arith, length-insert_event e es))

schedule_armed :
    (e : ScheduleEvent) (es : List ScheduleEvent) (alarms : List ℕ)
    → IsHead es alarms
    → let s = schedule_event_inner e (record { scheduled_events = es; alarms = alarms }) in
      IsHead s.scheduled_events s.alarms
unfolding schedule_event_inner
schedule_armed e [] alarms h = refl
schedule_armed e (x ∷ es) [] h = absurd h
schedule_armed e (x ∷ es) (a ∷ alarms) h = ground (arith, length-insert_event e es)

schedule_events :
    (e : ScheduleEvent) (s : Scheduler)
    → (schedule_event_inner e s).scheduled_events ≡ insert_event e s.scheduled_events
unfolding schedule_event_inner
schedule_events e s = ground arith

-- From a schedule that is in order and whose latest requested alarm is that of its first event,
-- scheduling an event leads to one that is so again.
pub schedule_event_inner-IsValid :
    (e : ScheduleEvent) (s : Scheduler) → IsValid s → IsValid (schedule_event_inner e s)
schedule_event_inner-IsValid e s v = record {
  sorted = rw schedule_events (insert_event-IsSorted e s.scheduled_events v.sorted);
  armed = schedule_armed e s.scheduled_events s.alarms v.armed;
}

abbrev due : ℕ → ScheduleEvent → Bool
due now x = leb x.timestamp now

set_next_alarm_events : (s : Scheduler) → (set_next_alarm s).scheduled_events ≡ s.scheduled_events
unfolding set_next_alarm
set_next_alarm_events s = ground arith

set_next_alarm_armed : (s : Scheduler) → IsHead s.scheduled_events (set_next_alarm s).alarms
set_next_alarm_armed s = go s.scheduled_events s.alarms
  where
    go :
        (es : List ScheduleEvent) (alarms : List ℕ)
        → IsHead es (set_next_alarm (record { scheduled_events = es; alarms = alarms })).alarms
    go [] alarms = tt
    go (e ∷ es) alarms = unfold set_next_alarm in refl

-- `start` requests an alarm for the first event of a schedule that was restored.
pub set_next_alarm-IsValid :
    (s : Scheduler) → IsSorted s.scheduled_events → IsValid (set_next_alarm s)
set_next_alarm-IsValid s h = record {
  sorted = rw set_next_alarm_events h;
  armed = rw set_next_alarm_events (set_next_alarm_armed s);
}

IsSorted-drop : (n : ℕ) (es : List ScheduleEvent) → IsSorted es → IsSorted (drop n es)
IsSorted-drop zero es h = h
IsSorted-drop (suc n) [] h = tt
IsSorted-drop (suc n) (e ∷ es) h = IsSorted-drop n es h.1

-- An alarm loses no event: those that it runs and those that it leaves are the schedule, in its
-- order.
pub on_alarm_splits :
    (now : ℕ) (s : Scheduler)
    → (on_alarm now s).1 ++ (on_alarm now s).0.scheduled_events ≡ s.scheduled_events
unfolding on_alarm
on_alarm_splits now s = elim (Option-cases (find_index (due now) s.scheduled_events)) [
  | inl e ↦ rw (e, on_alarm) (set_next_alarm_events s)
  | inr (i, e) ↦
      rw (e, on_alarm, set_next_alarm_events) (take-append-drop (i + 1) s.scheduled_events)
]

-- From a schedule that is in order and whose latest requested alarm is that of its first event,
-- an alarm at any time leaves one that is so again.
pub on_alarm-IsValid : (now : ℕ) (s : Scheduler) → IsValid s → IsValid (on_alarm now s).0
unfolding on_alarm
on_alarm-IsValid now s v = elim (Option-cases (find_index (due now) s.scheduled_events)) [
  | inl e ↦ rw (e, on_alarm) (set_next_alarm-IsValid s v.sorted)
  | inr (i, e) ↦
      rw (e, on_alarm)
        (set_next_alarm-IsValid _ (IsSorted-drop (i + 1) s.scheduled_events v.sorted))
]

-- Where the first event is due, an alarm runs that event alone, whatever else is due, and
-- requests the alarm of the event behind it, if there is one.
pub on_alarm_first :
    (now : ℕ) (e : ScheduleEvent) (es : List ScheduleEvent) (alarms : List ℕ)
    → e.timestamp ≤ now
    → on_alarm now (record { scheduled_events = e ∷ es; alarms = alarms })
      ≡ (set_next_alarm (record { scheduled_events = es; alarms = alarms }), e ∷ [])
unfolding on_alarm
on_alarm_first now e es alarms h = rw (le→leb e.timestamp now h, on_alarm)

on_alarm_head :
    (now : ℕ) (e : ScheduleEvent) (es : List ScheduleEvent) (s : Scheduler)
    → s.scheduled_events ≡ e ∷ es
    → e.timestamp ≤ now
    → on_alarm now s ≡ (set_next_alarm (record s { scheduled_events = es }), e ∷ [])
on_alarm_head now e es s p h =
    ap (λ l. on_alarm now (record s { scheduled_events = l })) p
    ∙ on_alarm_first now e es s.alarms h

find_index-none :
    (now : ℕ) (es : List ScheduleEvent)
    → All (λ x. now < x.timestamp) es
    → find_index (due now) es ≡ none
find_index-none now [] h = refl
find_index-none now (e ∷ es) h = ground (arith, find_index-none now es h.1)

-- An alarm that fires before the first event is due runs nothing, and is requested again.
pub on_alarm_early :
    (now : ℕ) (s : Scheduler)
    → All (λ x. now < x.timestamp) s.scheduled_events
    → on_alarm now s ≡ (set_next_alarm s, [])
unfolding on_alarm
on_alarm_early now s h = rw (find_index-none now s.scheduled_events h, on_alarm)

-- Alarms that fire one after the other, at one time; the events that they run.
pub alarm_rounds : ℕ → ℕ → Scheduler → Scheduler × List ScheduleEvent
alarm_rounds zero now s = (s, [])
alarm_rounds (suc n) now s =
    let (s', ran) = on_alarm now s in let (s'', more) = alarm_rounds n now s' in (s'', ran ++ more)

alarm_rounds-suc :
    (n now : ℕ) (s s' : Scheduler) (ran : List ScheduleEvent)
    → on_alarm now s ≡ (s', ran)
    → alarm_rounds (suc n) now s ≡ ((alarm_rounds n now s').0, ran ++ (alarm_rounds n now s').1)
unfolding alarm_rounds
alarm_rounds-suc n now s s' ran e =
    λ i. ((alarm_rounds n now (e i).0).0, (e i).1 ++ (alarm_rounds n now (e i).0).1)

-- Where the schedule begins with events that are due, as many alarms as there are of them, at
-- one time, run just them, in the order of the schedule, and leave the others scheduled.
pub alarm_rounds_run_due :
    (now : ℕ) (ready later : List ScheduleEvent) (s : Scheduler)
    → s.scheduled_events ≡ ready ++ later
    → All (λ x. x.timestamp ≤ now) ready
    → let (s', ran) = alarm_rounds (length ready) now s in
      (ran ≡ ready) × (s'.scheduled_events ≡ later)
unfolding alarm_rounds
alarm_rounds_run_due now [] later s e h = (refl, e)
alarm_rounds_run_due now (r ∷ ready) later s e h =
    let left : Scheduler = record s { scheduled_events = ready ++ later } in
    let (ran, rest) =
      alarm_rounds_run_due now ready later (set_next_alarm left) (set_next_alarm_events left) h.1 in
    let step =
      alarm_rounds-suc (length ready) now s _ _ (on_alarm_head now r (ready ++ later) s e h.0) in
    (ap (λ p. p.1) step ∙ ap (λ l. r ∷ l) ran, ap (λ p. p.0.scheduled_events) step ∙ rest)
