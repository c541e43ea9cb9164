-- ===== src/Actor/Endpoints/Requests.antt =====
-- What requests leave behind: an action over HTTP, a message behind the end of its connection, and
-- a connection that the actor refuses.
use rivetkit.Base.{
  ℕ, Bool, true, false, ◌≡◌, refl, ap, arith, has, has-remove, inl, inr, ==→eq, ==_refl,
}
use rivetkit.Actor.Conns.{PersistedConn, ActorState, ConnConfig, create_conn, remove_conn}
use rivetkit.Actor.Conns.Invariant.{IsConsistent}
use rivetkit.Actor.Conns.Lifecycle.{removed_connections, remove_conn-IsConsistent}
use rivetkit.Actor.Conns.Opening.{create_conn-IsConsistent}
use rivetkit.Actor.Endpoints.{
  Server, resolved, websocket_close, handle_action, conn_not_found, handle_connection_message,
}
use rivetkit.Actor.Endpoints.Registered.{Result-cases, create_conn_inv, created_driver}

-- Whatever an action returns or throws, and also where `prepareConn` or the creation of the
-- connection fails: if the action itself opens and closes no connection, then the open connections
-- are those that were open before the request; and if it keeps the subscription index consistent,
-- then so does the request.
pub handle_action_leaves :
    {B : Type 0} (config : ConnConfig) (prepared : Bool) (p : PersistedConn)
    (execute : ℕ → ActorState → ActorState × B) (s : ActorState)
    → ((id x : ℕ) (t : ActorState) → has x (execute id t).0.connections ≡ has x t.connections)
    → ((id : ℕ) (t : ActorState) → IsConsistent t → IsConsistent (execute id t).0)
    → IsConsistent s
    → ((x : ℕ)
        → has x (handle_action config prepared p execute s).0.connections ≡ has x s.connections)
      × IsConsistent (handle_action config prepared p execute s).0
unfolding handle_action
handle_action_leaves config false p execute s keeps consistent v = ((λ x. refl), v)
handle_action_leaves config true p execute s keeps consistent v =
    elim (Result-cases (create_conn config p s)) [
      | inl (t, e) ↦
          let acted = (execute p.conn_id t).0 in
          rw e (
            (λ x. ground (
              arith,
              ap (has x) (removed_connections config.on_disconnect p.conn_id acted),
              has-remove x p.conn_id acted.connections,
              keeps p.conn_id x t,
              created_driver config p s t x e,
              (create_conn_inv config p s t e).1,
              ==→eq p.conn_id x,
            )),
            remove_conn-IsConsistent config.on_disconnect p.conn_id acted
                (consistent p.conn_id t (create_conn-IsConsistent config p s t e v)),
          )
      | inr (f, e) ↦ rw e ((λ x. refl), v)
    ]

-- Once the web socket of a connection has closed, a message for that connection is not processed,
-- whatever its token: the connection is not found, and the actor stays as it was.
pub message_after_close :
    (process : ℕ → ActorState → ActorState) (hooked : Bool) (id token : ℕ) (s : Server)
    → handle_connection_message process id token (websocket_close hooked (resolved id) s).actor
      ≡ ((websocket_close hooked (resolved id) s).actor, conn_not_found id)
unfolding handle_connection_message websocket_close
message_after_close process hooked id token s = rw (gone) refl
  where
    gone : has id (remove_conn hooked id s.actor).connections ≡ false
    gone = ground (
      arith,
      ap (has id) (removed_connections hooked id s.actor),
      has-remove id id s.actor.connections,
      ==_refl id,
    )
