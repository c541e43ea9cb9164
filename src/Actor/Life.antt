-- ===== src/Actor/Life.antt =====
-- When an actor sleeps and stops: `#resetSleepTimer`, `#canSleep`, `_sleep`, `_stop`, `handleFetch`,
-- `handleWebSocket` and the end of `start` of packages/rivetkit/src/actor/instance.ts. Of a
-- connection this part reads the status. A timer is pending or not; the time that it waits is not
-- modelled. The handlers of requests and the hook `onStop` are the user's code: what follows their
-- `await` is a step.
pub mod Timing
pub mod Stopping
use rivetkit.Base.{
  ℕ, ◌+◌, ◌-◌, Bool, true, false, not, ◌&&◌, ◌||◌, Option, none, some, List, [], ◌∷◌, ◌==◌,
  if◌then◌else◌, is_empty, Dict, lookup, insert, erase, add, remove,
}
use rivetkit.Actor.Conns.{ConnectionStatus, connected, reconnecting}

-- Whether the option `noSleep` is set, and whether the driver has `sleep`.
pub record LifeConfig : Type 0 where
  pub no_sleep : Bool
  pub sleeping_supported : Bool

pub record Life : Type 0 where
  pub ready : Bool
  pub sleep_called : Bool
  pub stop_called : Bool
  -- The statuses of `#connections`.
  pub conns : Dict ConnectionStatus
  pub active_raw_fetch_count : ℕ
  pub active_raw_websockets : List ℕ
  -- Whether the timer of `#sleepTimeout` is pending.
  pub sleep_timeout : Bool
  -- The `setImmediate` calls of `_sleep` that have not run, and the calls of the driver's `sleep`.
  pub sleeps_due : ℕ
  pub sleeps_called : ℕ

abbrev pub no_connected : Dict ConnectionStatus → Bool
no_connected [] = true
no_connected ((id, connected) ∷ conns) = false
no_connected ((id, reconnecting) ∷ conns) = no_connected conns

-- `#canSleep`
abbrev pub can_sleep : Life → Bool
can_sleep s =
    s.ready
    && no_connected s.conns
    && s.active_raw_fetch_count == 0
    && is_empty s.active_raw_websockets

-- `#assertReady()`
abbrev pub is_running : Life → Bool
is_running s = s.ready && not s.sleep_called && not s.stop_called

-- `_sleep`; where sleeping is not supported it throws.
unfoldable pub sleep : LifeConfig → Life → Life × Bool
sleep config s =
    if not config.sleeping_supported
    then (s, false)
    else if s.sleep_called
    then (s, true)
    else (record s { sleep_called = true; sleeps_due = s.sleeps_due + 1 }, true)

-- The callback of `setImmediate` in `_sleep`.
unfoldable pub immediate_runs : Life → Life
immediate_runs s =
    if s.sleeps_due == 0
    then s
    else record s { sleeps_due = s.sleeps_due - 1; sleeps_called = s.sleeps_called + 1 }

-- The timer of `#sleepTimeout` fires.
unfoldable pub sleep_timeout_fires : LifeConfig → Life → Life
unfolding sleep
sleep_timeout_fires config s =
    if s.sleep_timeout then (sleep config (record s { sleep_timeout = false })).0 else s

module _ (config : LifeConfig) where
  -- `#resetSleepTimer`
  unfoldable pub reset_sleep_timer : Life → Life
  reset_sleep_timer s =
      if config.no_sleep || not config.sleeping_supported
      then s
      else if s.sleep_called
      then record s { sleep_timeout = false }
      else record s { sleep_timeout = can_sleep s }

  -- The end of `start`.
  unfoldable pub become_ready : Life → Life
  unfolding reset_sleep_timer
  become_ready s = reset_sleep_timer (record s { ready = true })

  -- `createConn` and `__removeConn`, as far as the timer goes.
  unfoldable pub create_conn : ℕ → Life → Life
  unfolding reset_sleep_timer
  create_conn id s = reset_sleep_timer (record s { conns = insert id connected s.conns })

  unfoldable pub remove_conn : ℕ → Life → Life
  unfolding reset_sleep_timer
  remove_conn id s = reset_sleep_timer (record s { conns = erase id s.conns })

  -- `handleFetch` up to the handler, and whether it gets there; `defined` says whether `onFetch` is.
  unfoldable pub begin_fetch : Bool → Life → Life × Bool
  unfolding reset_sleep_timer
  begin_fetch defined s =
      if is_running s && defined
      then (
        reset_sleep_timer (record s { active_raw_fetch_count = s.active_raw_fetch_count + 1 }),
        true,
      )
      else (s, false)

  -- The `finally` of `handleFetch`; the subtraction stops at 0 as its `Math.max` does.
  unfoldable pub end_fetch : Life → Life
  unfolding reset_sleep_timer
  end_fetch s =
      reset_sleep_timer (record s { active_raw_fetch_count = s.active_raw_fetch_count - 1 })

  -- `handleWebSocket` up to the handler, and whether it gets there.
  unfoldable pub begin_websocket : Bool → ℕ → Life → Life × Bool
  unfolding reset_sleep_timer
  begin_websocket defined websocket s =
      if is_running s && defined
      then (
        reset_sleep_timer
            (record s { active_raw_websockets = add websocket s.active_raw_websockets }),
        true,
      )
      else (s, false)

  -- `onSocketClosed`
  unfoldable pub socket_closed : ℕ → Life → Life
  unfolding reset_sleep_timer
  socket_closed websocket s =
      reset_sleep_timer
        (record s { active_raw_websockets = remove websocket s.active_raw_websockets })

  -- The beginning of `_onAlarm`.
  unfoldable pub alarm : Life → Life
  unfolding reset_sleep_timer
  alarm s = reset_sleep_timer s

-- A change of a connection's status, by `disconnect` or by the liveness check, resets no timer.
unfoldable pub set_status : ℕ → ConnectionStatus → Life → Life
set_status id status s = elim (lookup id s.conns) [
  | none ↦ s
  | some old ↦ record s { conns = insert id status s.conns }
]

-- `_stop` up to `onStop`, and whether it goes on.
unfoldable pub begin_stop : Life → Life × Bool
begin_stop s = if s.stop_called then (s, false) else (record s { stop_called = true }, true)

abbrev pub disconnected : Dict ConnectionStatus → Dict ConnectionStatus
disconnected [] = []
disconnected ((id, status) ∷ conns) = (id, reconnecting) ∷ disconnected conns

-- `_stop` behind `onStop`: every connection is told to disconnect.
unfoldable pub disconnect_all : Life → Life
disconnect_all s = record s { conns = disconnected s.conns }

-- `_stop` behind the wait for the background promises: the timers are cleared.
unfoldable pub clear_timeouts : Life → Life
clear_timeouts s = record s { sleep_timeout = false }
