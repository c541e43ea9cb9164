-- ===== src/Tests/Queues.antt =====
-- `SinglePromiseQueue` of packages/rivetkit/src/utils.ts.
use rivetkit.Base.{ℕ, ◌≡◌, refl, List, [], ◌∷◌}
use rivetkit.PromiseQueue.{new}
use rivetkit.PromiseQueue.Laws.{idle, queue_of}
use rivetkit.PromiseQueue.Callers.{all_waiters}
use rivetkit.PromiseQueue.Refinement.{
  Event, calls, settles, run_events, spec_events, callers_of, run_events-new,
}

-- Callers 2 and 3 come while the operation of caller 1 runs, and caller 4 behind it.
abbrev events : List (Event ℕ)
events = calls 1 10 ∷ calls 2 20 ∷ calls 3 30 ∷ settles ∷ calls 4 40 ∷ []

run_events-new_example :
    (run_events events new
      ≡ queue_of (spec_events events (idle, [])).0 (spec_events events (idle, [])).1)
    × (all_waiters (run_events events new) ≡ callers_of events)
run_events-new_example = run_events-new events

callers_run : callers_of events ≡ 1 ∷ 2 ∷ 3 ∷ 4 ∷ []
callers_run = refl
