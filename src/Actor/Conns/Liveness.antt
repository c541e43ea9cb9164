-- ===== src/Actor/Conns/Liveness.antt =====
-- `[CONNECTION_CHECK_LIVENESS_SYMBOL]` of packages/rivetkit/src/actor/connection.ts and
-- `#checkConnectionsLiveness` of packages/rivetkit/src/actor/instance.ts. The ready states that the
-- drivers report and the clock are arguments.
use rivetkit.Base.{
  ℕ, ◌+◌, ◌≡◌, ap, ◌∙◌, Bool, true, false, not, ◌&&◌, ◌||◌, Option, none, some, List, [], ◌∷◌,
  arith, ◌==◌, ltb, if◌then◌else◌, lookup, lookup-insert, has, has-remove, Option-cases, inl, inr,
  Bool-cases,
}
use rivetkit.Actor.Conns.State.{
  Conn, ActorState, ReadyState, connecting, opened, closing, closed, connected, reconnecting,
  update_conn, remove_conn,
}
use rivetkit.Actor.Conns.Invariant.{IsConsistent, update_conn-IsConsistent, update_conn_rest}
use rivetkit.Actor.Conns.Lifecycle.{remove_conn-IsConsistent, removed_connections, removed_objects}

-- `isConnectionClosed`; `none` is an undefined ready state.
unfoldable pub is_connection_closed : Option ReadyState → Bool
is_connection_closed none = true
is_connection_closed (some connecting) = false
is_connection_closed (some opened) = false
is_connection_closed (some closing) = true
is_connection_closed (some closed) = true

-- The liveness probe of one connection.
unfoldable pub check_liveness : ℕ → Option ReadyState → Conn → Conn
unfolding is_connection_closed
check_liveness now ready_state c =
    if is_connection_closed ready_state
    then record c { status = reconnecting }
    else record c { persist = record (c.persist) { last_seen = now }; status = connected }

abbrev last_seen : ℕ → ActorState → ℕ
last_seen id s = elim (lookup id s.objects) [ none ↦ 0 | some c ↦ c.persist.last_seen ]

module _ (now timeout : ℕ) (ready_state : ℕ → Option ReadyState) (hooked : Bool) where
  -- One round of the loop. The source subtracts: `now - lastSeen < timeout`.
  unfoldable pub check_conn : ℕ → ActorState → ActorState
  unfolding check_liveness
  check_conn id s =
      let probed = update_conn id (check_liveness now (ready_state id)) s in
      if is_connection_closed (ready_state id) && not (ltb now (last_seen id probed + timeout))
      then remove_conn hooked id probed
      else probed

  unfoldable pub check_conns : List ℕ → ActorState → ActorState
  unfolding check_conn
  check_conns [] s = s
  check_conns (id ∷ ids) s = check_conns ids (check_conn id s)

  -- `#checkConnectionsLiveness`
  unfoldable pub check_connections_liveness : ActorState → ActorState
  unfolding check_conns
  check_connections_liveness s = check_conns s.connections s

  -- A connection is kept unless its driver reports it closed and it was last seen too long ago.
  abbrev pub is_kept : ℕ → ActorState → Bool
  is_kept id s = not (is_connection_closed (ready_state id)) || ltb now (last_seen id s + timeout)

  probe_subscriptions :
      (id : ℕ) (c : Conn) → (check_liveness now (ready_state id) c).subscriptions ≡ c.subscriptions
  unfolding check_liveness
  probe_subscriptions id c = ground arith

  check_conn-IsConsistent :
      (id : ℕ) (s : ActorState) → IsConsistent s → IsConsistent (check_conn id s)
  check_conn-IsConsistent id s v =
      let f : Conn → Conn = check_liveness now (ready_state id) in
      let probed : ActorState = update_conn id f s in
      let kept = update_conn-IsConsistent id f s (probe_subscriptions id) v in
      elim (Bool-cases
        (is_connection_closed (ready_state id) && not (ltb now (last_seen id probed + timeout)))) [
          | inl e ↦ unfold check_conn in rw e (remove_conn-IsConsistent hooked id probed kept)
          | inr e ↦ unfold check_conn in rw e kept
        ]

  check_conns-IsConsistent :
      (ids : List ℕ) (s : ActorState) → IsConsistent s → IsConsistent (check_conns ids s)
  unfolding check_conns
  check_conns-IsConsistent [] s v = v
  check_conns-IsConsistent (id ∷ ids) s v =
      check_conns-IsConsistent ids (check_conn id s) (check_conn-IsConsistent id s v)

  -- The time at which a connection was last seen changes only for one that is not closed.
  probed_last_seen :
      (id x : ℕ) (s : ActorState)
      → is_kept x (update_conn id (check_liveness now (ready_state id)) s) ≡ is_kept x s
  unfolding update_conn check_liveness
  probed_last_seen id x s = elim (Option-cases (lookup id s.objects)) [
    | inl e ↦ ground arith
    | inr (c, e) ↦
        ground (arith, lookup-insert x id (check_liveness now (ready_state id) c) s.objects)
  ]

  removed_last_seen :
      (id x : ℕ) (s : ActorState) → is_kept x (remove_conn hooked id s) ≡ is_kept x s
  removed_last_seen id x s = rw (removed_objects hooked id s)

  check_conn_kept : (id x : ℕ) (s : ActorState) → is_kept x (check_conn id s) ≡ is_kept x s
  unfolding check_conn
  check_conn_kept id x s =
      let probed : ActorState = update_conn id (check_liveness now (ready_state id)) s in
      ground (arith, removed_last_seen id x probed, probed_last_seen id x s)

  check_conn_connections :
      (id x : ℕ) (s : ActorState)
      → has x (check_conn id s).connections
        ≡ (has x s.connections && (not (id == x) || is_kept x s))
  unfolding check_conn
  check_conn_connections id x s =
      let f : Conn → Conn = check_liveness now (ready_state id) in
      let probed : ActorState = update_conn id f s in
      ground (
        arith,
        probed_last_seen id id s,
        ap (has x) (removed_connections hooked id probed),
        ap (has x) (update_conn_rest id f s).0,
        has-remove x id probed.connections,
      )

  check_conns_connections :
      (ids : List ℕ) (x : ℕ) (s : ActorState)
      → has x (check_conns ids s).connections
        ≡ (has x s.connections && (not (has x ids) || is_kept x s))
  unfolding check_conns
  check_conns_connections [] x s = ground arith
  check_conns_connections (id ∷ ids) x s = ground (
    arith,
    check_conns_connections ids x (check_conn id s),
    check_conn_kept id x s,
    check_conn_connections id x s,
  )

  -- In a state that is consistent, the liveness check removes exactly the open connections that
  -- are closed at their driver and were last seen the timeout ago or longer, and leaves the
  -- state consistent.
  pub check_connections_liveness_removes :
      (s : ActorState)
      → IsConsistent s
      → IsConsistent (check_connections_liveness s)
        × ((x : ℕ)
            → has x (check_connections_liveness s).connections
              ≡ (has x s.connections && is_kept x s))
  unfolding check_connections_liveness
  check_connections_liveness_removes s v = (
    check_conns-IsConsistent s.connections s v,
    λ x. check_conns_connections s.connections x s ∙ ground arith,
  )
