-- ===== src/Actor/Schedule.antt =====
-- Scheduled events: `Schedule` of packages/rivetkit/src/actor/schedule.ts, and `scheduleEvent`,
-- `#scheduleEventInner`, `_onAlarm` and `#queueSetAlarm` of packages/rivetkit/src/actor/instance.ts.
-- The clock's value is an argument `now`. The requests that `#queueSetAlarm` hands to its queue are
-- kept in order; what the queue makes of them is in PromiseQueue.antt. An action is a parameter.
pub mod Order
pub mod Alarms
use rivetkit.Base.{
  ℕ, suc, ◌+◌, Bool, true, false, ◌||◌, ◌==◌, Option, none, some, List, [], ◌∷◌, ◌++◌, ltb, leb,
  is_empty, length, if◌then◌else◌, find_index, insert_at, take, drop,
}

-- `PersistedScheduleEvent`, with its `kind.generic`.
pub record ScheduleEvent : Type 0 where
  pub event_id : ℕ
  pub timestamp : ℕ
  pub action_name : ℕ
  pub args : Option (List ℕ)

pub record Scheduler : Type 0 where
  -- `#persist.scheduledEvents`
  pub scheduled_events : List ScheduleEvent
  -- The timestamps given to `#queueSetAlarm`, the latest one first.
  pub alarms : List ℕ

unfoldable pub queue_set_alarm : ℕ → Scheduler → Scheduler
queue_set_alarm timestamp s = record s { alarms = timestamp ∷ s.alarms }

-- The index of the insertion, `none` for -1.
abbrev pub insert_index : ScheduleEvent → List ScheduleEvent → Option ℕ
insert_index event events = find_index (λ x. ltb event.timestamp x.timestamp) events

-- `push` or `splice`.
unfoldable pub insert_event : ScheduleEvent → List ScheduleEvent → List ScheduleEvent
insert_event event events = elim (insert_index event events) [
  | none ↦ events ++ event ∷ []
  | some i ↦ insert_at i event events
]

-- `insertIndex === 0`
abbrev pub is_first : Option ℕ → Bool
is_first none = false
is_first (some i) = i == 0

unfoldable pub schedule_event_inner : ScheduleEvent → Scheduler → Scheduler
unfolding insert_event queue_set_alarm
schedule_event_inner event s =
    let inserted : Scheduler = record s {
      scheduled_events = insert_event event s.scheduled_events;
    } in
    if is_first (insert_index event s.scheduled_events) || length inserted.scheduled_events == 1
    then queue_set_alarm event.timestamp inserted
    else inserted

-- `scheduleEvent`; the identifier comes from `crypto.randomUUID` and the bytes from the encoder.
unfoldable pub schedule_event : ℕ → ℕ → ℕ → List ℕ → Scheduler → Scheduler
unfolding schedule_event_inner
schedule_event event_id timestamp action encoded s =
    schedule_event_inner
      (record {
        event_id = event_id;
        timestamp = timestamp;
        action_name = action;
        args = some encoded;
      })
      s

-- `Schedule.after` and `Schedule.at`
unfoldable pub after : ℕ → ℕ → ℕ → ℕ → List ℕ → Scheduler → Scheduler
unfolding schedule_event
after now event_id duration fn encoded s = schedule_event event_id (now + duration) fn encoded s

unfoldable pub at : ℕ → ℕ → ℕ → List ℕ → Scheduler → Scheduler
unfolding schedule_event
at event_id timestamp fn encoded s = schedule_event event_id timestamp fn encoded s

-- Sets the alarm for the first event, if there is one: at the end of `start`, and in `_onAlarm`.
unfoldable pub set_next_alarm : Scheduler → Scheduler
unfolding queue_set_alarm
set_next_alarm s = elim s.scheduled_events [
  | [] ↦ s
  | event ∷ events ↦ queue_set_alarm event.timestamp s
]

-- `_onAlarm` up to its loop: the new state, and the events that the loop runs.
unfoldable pub on_alarm : ℕ → Scheduler → Scheduler × List ScheduleEvent
on_alarm now s = elim (find_index (λ (x : ScheduleEvent). leb x.timestamp now) s.scheduled_events) [
  | none ↦ (set_next_alarm s, [])
  | some run_index ↦ (
    set_next_alarm (record s { scheduled_events = drop (run_index + 1) s.scheduled_events }),
    take (run_index + 1) s.scheduled_events,
  )
]

-- How the run of one event ends.
pub data Outcome : Type 0 where
  completed : Outcome
  -- The action threw, or its arguments did not decode; the error was logged.
  action_failed : Outcome
  -- No action has the name; the error was logged.
  internal_error : Outcome

-- The loop of `_onAlarm`. `call` is the lookup of the action with its run on the actor's state: no
-- action of the name, or the new state and whether the action threw.
module _ {S : Type 0} (call : ScheduleEvent → S → Option (S × Bool)) where
  unfoldable pub run_event : ScheduleEvent → S → S × Outcome
  run_event event s = elim (call event s) [
    | none ↦ (s, internal_error)
    | some (s', threw) ↦ (s', if threw then action_failed else completed)
  ]

  unfoldable pub run_events : List ScheduleEvent → S → S × List (ℕ × Outcome)
  unfolding run_event
  run_events [] s = (s, [])
  run_events (event ∷ events) s =
      let (s', outcome) = run_event event s in
      let (s'', outcomes) = run_events events s' in (s'', (event.event_id, outcome) ∷ outcomes)
