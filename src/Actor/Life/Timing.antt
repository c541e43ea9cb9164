-- ===== src/Actor/Life/Timing.antt =====
-- The timer of `#sleepTimeout`, and when the actor may sleep.
use rivetkit.Base.{
  ℕ, if_elim, ◌+◌, ◌≡◌, refl, Bool, true, false, not, ◌&&◌, ◌||◌, Dict, [], if◌then◌else◌, arith,
}
use rivetkit.Actor.Conns.{ConnectionStatus}
use rivetkit.Actor.Life.{
  LifeConfig, Life, can_sleep, sleep, immediate_runs, sleep_timeout_fires, reset_sleep_timer,
  become_ready, create_conn, remove_conn, begin_fetch, end_fetch, begin_websocket, socket_closed,
  alarm, set_status, begin_stop, disconnect_all, clear_timeouts, is_running,
}

-- An actor before `start` ends.
abbrev pub starting : Life
starting = record {
  ready = false;
  sleep_called = false;
  stop_called = false;
  conns = [];
  active_raw_fetch_count = 0;
  active_raw_websockets = [];
  sleep_timeout = false;
  sleeps_due = 0;
  sleeps_called = 0;
}

module _ (config : LifeConfig) where
  -- The steps that change what `#canSleep` reads together with the timer.
  pub data Step : Life → Life → Type 0 where
    readies : (s : Life) → Step s (become_ready config s)
    opens : (id : ℕ) (s : Life) → Step s (create_conn config id s)
    closes : (id : ℕ) (s : Life) → Step s (remove_conn config id s)
    fetches : (defined : Bool) (s : Life) → Step s (begin_fetch config defined s).0
    fetched : (s : Life) → Step s (end_fetch config s)
    upgrades : (defined : Bool) (ws : ℕ) (s : Life) → Step s (begin_websocket config defined ws s).0
    hangs_up : (ws : ℕ) (s : Life) → Step s (socket_closed config ws s)
    alarms : (s : Life) → Step s (alarm config s)
    sleeps : (s : Life) → Step s (sleep config s).0
    fires : (s : Life) → Step s (sleep_timeout_fires config s)
    runs : (s : Life) → Step s (immediate_runs s)

  -- All steps: those, and the changes of a status and the parts of `_stop`.
  pub data AnyStep : Life → Life → Type 0 where
    step : {s t : Life} → Step s t → AnyStep s t
    changes : (id : ℕ) (status : ConnectionStatus) (s : Life) → AnyStep s (set_status id status s)
    stops : (s : Life) → AnyStep s (begin_stop s).0
    disconnects : (s : Life) → AnyStep s (disconnect_all s)
    clears : (s : Life) → AnyStep s (clear_timeouts s)

  pub data ReachAny : Life → Type 0 where
    here : ReachAny starting
    next : {s t : Life} → ReachAny s → AnyStep s t → ReachAny t

  -- The steps that reset the timer.
  pub data Reset : Life → Life → Type 0 where
    readies : (s : Life) → Reset s (become_ready config s)
    opens : (id : ℕ) (s : Life) → Reset s (create_conn config id s)
    closes : (id : ℕ) (s : Life) → Reset s (remove_conn config id s)
    fetches : (s : Life) → is_running s ≡ true → Reset s (begin_fetch config true s).0
    fetched : (s : Life) → Reset s (end_fetch config s)
    upgrades :
        (ws : ℕ) (s : Life) → is_running s ≡ true → Reset s (begin_websocket config true ws s).0
    hangs_up : (ws : ℕ) (s : Life) → Reset s (socket_closed config ws s)
    alarms : (s : Life) → Reset s (alarm config s)

  -- The steps that reset no timer and change nothing that `#canSleep` reads, until sleep begins.
  pub data Keep : Life → Life → Type 0 where
    refuses_fetch :
        (defined : Bool) (s : Life)
        → (is_running s && defined) ≡ false
        → Keep s (begin_fetch config defined s).0
    refuses_socket :
        (defined : Bool) (ws : ℕ) (s : Life)
        → (is_running s && defined) ≡ false
        → Keep s (begin_websocket config defined ws s).0
    sleeps : (s : Life) → Keep s (sleep config s).0
    fires : (s : Life) → Keep s (sleep_timeout_fires config s)
    runs : (s : Life) → Keep s (immediate_runs s)
    stops : (s : Life) → Keep s (begin_stop s).0

  -- The steps that change a status, or clear the timers, and reset no timer.
  pub data Change : Life → Life → Type 0 where
    changes : (id : ℕ) (status : ConnectionStatus) (s : Life) → Change s (set_status id status s)
    disconnects : (s : Life) → Change s (disconnect_all s)
    clears : (s : Life) → Change s (clear_timeouts s)

  -- The states that an actor reaches by all its steps, from a start with any restored connections,
  -- and whether a step of the last kind was taken since the timer was reset last.
  pub data Since : Bool → Life → Type 0 where
    here : (conns : Dict ConnectionStatus) → Since false (record starting { conns = conns })
    resets : {b : Bool} {s t : Life} → Since b s → Reset s t → Since false t
    keeps : {b : Bool} {s t : Life} → Since b s → Keep s t → Since b t
    changes : {b : Bool} {s t : Life} → Since b s → Change s t → Since true t

  abbrev IsTimed : Life → Type 0
  IsTimed s =
      s.sleep_called ≡ false
      → s.sleep_timeout ≡ (not config.no_sleep && config.sleeping_supported && can_sleep s)

  -- Without sleep there is no timer.
  abbrev IsQuiet : Life → Type 0
  IsQuiet s = (config.no_sleep || not config.sleeping_supported) ≡ true → s.sleep_timeout ≡ false

  -- Resetting the timer sets it right, whatever the fields that `#canSleep` reads have become.
  reset-IsTimed :
      (s : Life)
      → IsQuiet s
      → IsQuiet (reset_sleep_timer config s) × IsTimed (reset_sleep_timer config s)
  unfolding reset_sleep_timer
  reset-IsTimed s h = ground arith

  Reset-IsTimed : {s t : Life} → Reset s t → IsQuiet s → IsQuiet t × IsTimed t
  Reset-IsTimed (readies s) h = unfold become_ready in reset-IsTimed _ h
  Reset-IsTimed (opens id s) h = unfold create_conn in reset-IsTimed _ h
  Reset-IsTimed (closes id s) h = unfold remove_conn in reset-IsTimed _ h
  Reset-IsTimed (fetches s e) h = unfold begin_fetch in rw e (reset-IsTimed _ h)
  Reset-IsTimed (fetched s) h = unfold end_fetch in reset-IsTimed _ h
  Reset-IsTimed (upgrades ws s e) h = unfold begin_websocket in rw e (reset-IsTimed _ h)
  Reset-IsTimed (hangs_up ws s) h = unfold socket_closed in reset-IsTimed _ h
  Reset-IsTimed (alarms s) h = unfold alarm in reset-IsTimed s h

  Keep-IsTimed :
      {s t : Life} (b : Bool)
      → Keep s t
      → IsQuiet s × (b ≡ false → IsTimed s)
      → IsQuiet t × (b ≡ false → IsTimed t)
  Keep-IsTimed b (refuses_fetch defined s e) h = unfold begin_fetch in rw e h
  Keep-IsTimed b (refuses_socket defined ws s e) h = unfold begin_websocket in rw e h
  Keep-IsTimed b (sleeps s) h = unfold sleep in ground arith
  Keep-IsTimed b (fires s) h = unfold sleep_timeout_fires sleep in ground arith
  Keep-IsTimed b (runs s) h = unfold immediate_runs in ground arith
  Keep-IsTimed b (stops s) h = unfold begin_stop in ground arith

  Change-IsQuiet : {s t : Life} → Change s t → IsQuiet s → IsQuiet t
  Change-IsQuiet (changes id status s) h = unfold set_status in ground arith
  Change-IsQuiet (disconnects s) h = unfold disconnect_all in h
  Change-IsQuiet (clears s) h = λ e. unfold clear_timeouts in refl

  steps-IsTimed : {b : Bool} {s : Life} → Since b s → IsQuiet s × (b ≡ false → IsTimed s)
  steps-IsTimed (here conns) = (λ e. refl, λ e h. ground arith)
  steps-IsTimed (resets r st) =
      let (quiet, timed) = Reset-IsTimed st (steps-IsTimed r).0 in (quiet, λ e. timed)
  steps-IsTimed (keeps {b = b} r st) = Keep-IsTimed b st (steps-IsTimed r)
  steps-IsTimed (changes r st) = (Change-IsQuiet st (steps-IsTimed r).0, λ e. cc)

  -- From a start with any restored connections, whatever steps an actor takes, its stop included:
  -- where no status of a connection changed and no timer was cleared since the last step that
  -- resets the timer, and until sleep has begun, the timer is pending exactly if the actor may
  -- sleep, that is, it is ready, has no connection that is connected, no raw request and no raw
  -- socket, and sleeping is supported and not switched off.
  pub Since-IsTimed :
      {s : Life}
      → Since false s
      → s.sleep_called ≡ false
      → s.sleep_timeout ≡ (not config.no_sleep && config.sleeping_supported && can_sleep s)
  Since-IsTimed r h = (steps-IsTimed r).1 refl h

  abbrev SleepsOnce : Life → Type 0
  SleepsOnce s = s.sleeps_due + s.sleeps_called ≡ (if s.sleep_called then 1 else 0)

  reset-SleepsOnce : (s : Life) → SleepsOnce s → SleepsOnce (reset_sleep_timer config s)
  unfolding reset_sleep_timer
  reset-SleepsOnce s h = ground arith

  Step-SleepsOnce : {s t : Life} → Step s t → SleepsOnce s → SleepsOnce t
  Step-SleepsOnce (readies s) h = unfold become_ready in reset-SleepsOnce _ h
  Step-SleepsOnce (opens id s) h = unfold create_conn in reset-SleepsOnce _ h
  Step-SleepsOnce (closes id s) h = unfold remove_conn in reset-SleepsOnce _ h
  Step-SleepsOnce (fetches defined s) h =
      unfold begin_fetch in
      if_elim (λ (r : Life × Bool). SleepsOnce r.0) (is_running s && defined) _ _
        (λ e. reset-SleepsOnce _ h) (λ e. h)
  Step-SleepsOnce (fetched s) h = unfold end_fetch in reset-SleepsOnce _ h
  Step-SleepsOnce (upgrades defined ws s) h =
      unfold begin_websocket in
      if_elim (λ (r : Life × Bool). SleepsOnce r.0) (is_running s && defined) _ _
        (λ e. reset-SleepsOnce _ h) (λ e. h)
  Step-SleepsOnce (hangs_up ws s) h = unfold socket_closed in reset-SleepsOnce _ h
  Step-SleepsOnce (alarms s) h = unfold alarm in reset-SleepsOnce s h
  Step-SleepsOnce (sleeps s) h = unfold sleep in ground arith
  Step-SleepsOnce (fires s) h = unfold sleep_timeout_fires sleep in ground arith
  Step-SleepsOnce (runs s) h = unfold immediate_runs in ground arith

  AnyStep-SleepsOnce : {s t : Life} → AnyStep s t → SleepsOnce s → SleepsOnce t
  AnyStep-SleepsOnce (step st) h = Step-SleepsOnce st h
  AnyStep-SleepsOnce (changes id status s) h = unfold set_status in ground arith
  AnyStep-SleepsOnce (stops s) h = unfold begin_stop in ground arith
  AnyStep-SleepsOnce (disconnects s) h = unfold disconnect_all in h
  AnyStep-SleepsOnce (clears s) h = unfold clear_timeouts in h

  -- Whatever happens to an actor, its stop included: the driver is asked for sleep once at most, by
  -- then or later, and exactly if `_sleep` was called.
  pub Reach-SleepsOnce :
      {s : Life} → ReachAny s → s.sleeps_due + s.sleeps_called ≡ (if s.sleep_called then 1 else 0)
  Reach-SleepsOnce here = refl
  Reach-SleepsOnce (next r st) = AnyStep-SleepsOnce st (Reach-SleepsOnce r)
