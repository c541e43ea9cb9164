-- ===== src/Tests/Life.antt =====
-- Sleeping and stopping: packages/rivetkit/src/actor/instance.ts.
use rivetkit.Base.{◌≡◌, refl, true, false, not, ◌&&◌, []}
use rivetkit.Actor.Life.{
  LifeConfig, Life, can_sleep, become_ready, create_conn, remove_conn, reset_sleep_timer,
  sleep_timeout_fires,
}
use rivetkit.Actor.Life.Timing.{starting, Step, AnyStep, Reset, Since, ReachAny, Since-IsTimed}

abbrev sleepy : LifeConfig
sleepy = record { no_sleep = false; sleeping_supported = true }

abbrev awake : Life
awake = become_ready sleepy starting

abbrev visited : Life
visited = create_conn sleepy 1 awake

abbrev left : Life
left = remove_conn sleepy 1 visited

left-Since : Since sleepy false left
left-Since =
    Since.resets
      (Since.resets (Since.resets (Since.here []) (Reset.readies starting)) (Reset.opens 1 awake))
      (Reset.closes 1 visited)

left_called : left.sleep_called ≡ false
unfolding become_ready create_conn remove_conn reset_sleep_timer
left_called = refl

Since-IsTimed_example :
    left.sleep_timeout ≡ (not sleepy.no_sleep && sleepy.sleeping_supported && can_sleep left)
Since-IsTimed_example = Since-IsTimed sleepy left-Since left_called

-- The timer is pending only behind the connection.
timer_run : (visited.sleep_timeout ≡ false) × (left.sleep_timeout ≡ true)
unfolding become_ready create_conn remove_conn reset_sleep_timer
timer_run = (refl, refl)

abbrev asleep : Life
asleep = sleep_timeout_fires sleepy awake

asleep-ReachAny : ReachAny sleepy asleep
asleep-ReachAny =
    ReachAny.next (ReachAny.next ReachAny.here (AnyStep.step (Step.readies starting)))
      (AnyStep.step (Step.fires awake))

visited_state :
    (visited.ready ≡ true)
    × (visited.sleep_called ≡ false)
    × (visited.active_raw_fetch_count ≡ 0)
    × (visited.active_raw_websockets ≡ [])
unfolding become_ready create_conn reset_sleep_timer
visited_state = (refl, refl, refl, refl)
