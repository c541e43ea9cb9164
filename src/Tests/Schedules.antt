-- ===== src/Tests/Schedules.antt =====
-- Scheduled events: packages/rivetkit/src/actor/schedule.ts and instance.ts; long timers:
-- packages/rivetkit/src/utils.ts.
use rivetkit.Base.{ℕ, suc, ◌≡◌, ◌≤◌, refl, none, some, List, [], ◌∷◌, arith}
use rivetkit.Actor.Schedule.{ScheduleEvent, Scheduler, insert_event}
use rivetkit.Actor.Schedule.Order.{IsSorted}
use rivetkit.Actor.Schedule.Alarms.{IsValid, alarm_rounds, alarm_rounds_run_due}
use rivetkit.Timers.{fire_all, set_long_timeout}
use rivetkit.Timers.Laws.{rounds, set_long_timeout_calls}

abbrev at_time : ℕ → ℕ → ScheduleEvent
at_time id timestamp = record { event_id = id; timestamp = timestamp; action_name = 4; args = none }

abbrev two_due : List ScheduleEvent
two_due = at_time 1 10 ∷ at_time 2 20 ∷ []

abbrev scheduler : Scheduler
scheduler = record {
  scheduled_events = at_time 1 10 ∷ at_time 2 20 ∷ at_time 3 90 ∷ [];
  alarms = 10 ∷ [];
}

events-IsSorted : IsSorted scheduler.scheduled_events
events-IsSorted = ((omega arith, (omega arith, tt)), ((omega arith, tt), (tt, tt)))

scheduler-IsValid : IsValid scheduler
scheduler-IsValid = record { sorted = events-IsSorted; armed = refl }

alarm_rounds_run_due_example :
    let (s', ran) = alarm_rounds 2 50 scheduler in
    (ran ≡ two_due) × (s'.scheduled_events ≡ at_time 3 90 ∷ [])
alarm_rounds_run_due_example =
    alarm_rounds_run_due 50 two_due (at_time 3 90 ∷ []) scheduler refl
      (omega arith, (omega arith, tt))

-- An event at the time of another goes behind it.
insert_event_run :
    insert_event (at_time 4 20) scheduler.scheduled_events
    ≡ at_time 1 10 ∷ at_time 2 20 ∷ at_time 4 20 ∷ at_time 3 90 ∷ []
unfolding insert_event
insert_event_run = refl

set_long_timeout_calls_example :
    fire_all (suc (rounds 5000000000)) (set_long_timeout 5000000000)
    ≡ record { timeout = none; elapsed = 5000000000; called_at = some 5000000000 }
set_long_timeout_calls_example = set_long_timeout_calls 5000000000

rounds_run : rounds 5000000000 ≡ 2
unfolding rounds
rounds_run = refl

one_le_rounds : 1 ≤ rounds 5000000000
unfolding rounds
one_le_rounds = omega arith
