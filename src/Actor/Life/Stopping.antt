-- ===== src/Actor/Life/Stopping.antt =====
-- What `_stop` leaves behind: a connection that closes once the timers were cleared sets the sleep
-- timer again.
use rivetkit.Base.{ℕ, ◌+◌, ◌≡◌, refl, true, false, [], ◌∷◌, arith, erase, Dict}
use rivetkit.Actor.Conns.{ConnectionStatus}
use rivetkit.Actor.Life.{
  LifeConfig, Life, no_connected, disconnected, sleep, sleep_timeout_fires, reset_sleep_timer,
  remove_conn, begin_stop, disconnect_all, clear_timeouts,
}

disconnected-no_connected :
    (id : ℕ) (conns : Dict ConnectionStatus) → no_connected (erase id (disconnected conns)) ≡ true
disconnected-no_connected id [] = refl
disconnected-no_connected id ((j, status) ∷ conns) =
    ground (arith, disconnected-no_connected id conns)

-- Where sleeping is supported and the actor is ready, not asleep and without raw requests and raw
-- sockets: when a connection closes after `_stop` has cleared the timers, the sleep timer is pending
-- again, and when it fires the stopped actor begins to sleep.
pub stop_rearms :
    (config : LifeConfig) (id : ℕ) (s : Life)
    → config.no_sleep ≡ false
    → config.sleeping_supported ≡ true
    → s.ready ≡ true
    → s.sleep_called ≡ false
    → s.active_raw_fetch_count ≡ 0
    → s.active_raw_websockets ≡ []
    → let stopped = clear_timeouts (disconnect_all (begin_stop s).0) in
      let closed = remove_conn config id stopped in
      (stopped.sleep_timeout ≡ false)
      × (closed.stop_called ≡ true)
      × (closed.sleep_timeout ≡ true)
      × ((sleep_timeout_fires config closed).sleeps_due ≡ s.sleeps_due + 1)
unfolding begin_stop disconnect_all clear_timeouts remove_conn reset_sleep_timer sleep_timeout_fires
    sleep
stop_rearms config id s n u r c f w = ground (arith, disconnected-no_connected id s.conns)
