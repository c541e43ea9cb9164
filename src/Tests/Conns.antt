-- ===== src/Tests/Conns.antt =====
-- Connections: packages/rivetkit/src/actor/instance.ts and connection.ts.
use rivetkit.Base.{
  ℕ, true, false, ◌&&◌, ◌≡◌, refl, Option, none, some, List, [], ◌∷◌, ◌++◌, map, has,
}
use rivetkit.Actor.Index.{subscribers, index_add}
use rivetkit.Actor.Conns.{
  PersistedConn, ActorState, ConnConfig, web_socket, event, init, send, on_connect, save,
  reset_sleep_timer, ok, connected, remove_conn, remove_subscription, assert_ready, create_conn,
  open_conn, add_subscription, broadcast, is_subscribed, send_all, ReadyState, closed,
}
use rivetkit.Actor.Conns.Invariant.{IsConsistent}
use rivetkit.Actor.Conns.Broadcast.{
  persisting, fresh, Reach, here, next, opens, subscribes, Reach-IsConsistent, broadcast_recipients,
}
use rivetkit.Actor.Conns.Restoring.{restore_conns}
use rivetkit.Actor.Conns.Liveness.{
  check_connections_liveness, is_kept, check_connections_liveness_removes,
}

abbrev config : ConnConfig
config = record { has_driver = λ d. true; on_connect = some false; on_disconnect = true }

abbrev conn : PersistedConn
conn = record {
  conn_id = 1;
  token = 99;
  conn_driver = web_socket;
  conn_driver_state = [];
  params = [];
  state = [];
  auth_data = none;
  last_seen = 500;
  subscriptions = [];
}

abbrev opened : ActorState
opened = open_conn config conn fresh

abbrev subscribed : ActorState
subscribed = add_subscription 7 1 false opened

opened_run : create_conn config conn fresh ≡ ok opened
unfolding create_conn assert_ready
opened_run = refl

opened_has : has 1 opened.connections ≡ true
unfolding open_conn
opened_has = refl

subscribed-Reach : Reach subscribed
subscribed-Reach =
    next (next here (opens config conn fresh opened opened_run)) (subscribes 7 1 opened opened_has)

Reach-IsConsistent_example : IsConsistent subscribed
Reach-IsConsistent_example = Reach-IsConsistent subscribed-Reach

abbrev sent : ActorState
sent = send_all (subscribers 7 subscribed.subscription_index) (event 7 (4 ∷ [])) subscribed

sent_run : broadcast 7 (4 ∷ []) subscribed ≡ ok sent
unfolding broadcast add_subscription open_conn assert_ready
sent_run = refl

broadcast_recipients_example :
    (ids : List ℕ) × (sent ≡ record subscribed {
      effects = subscribed.effects ++ map (λ id. send id (event 7 (4 ∷ []))) ids;
    })
    × ((x : ℕ) → has x ids ≡ (has x subscribed.connections && is_subscribed x 7 subscribed))
broadcast_recipients_example =
    broadcast_recipients 7 (4 ∷ []) subscribed sent subscribed-Reach sent_run

-- The one subscriber gets the event, behind what its opening and its subscription did.
broadcast_effects :
    sent.effects
    ≡ reset_sleep_timer
      ∷ save false
      ∷ on_connect 1
      ∷ send 1 (init 1 99)
      ∷ save false
      ∷ send 1 (event 7 (4 ∷ []))
      ∷ []
unfolding send_all add_subscription open_conn subscribers index_add
broadcast_effects = refl

abbrev closed_at_driver : ℕ → Option ReadyState
closed_at_driver id = some closed

check_connections_liveness_removes_example :
    IsConsistent (check_connections_liveness 3000 2500 closed_at_driver true subscribed)
    × ((x : ℕ)
        → has x (check_connections_liveness 3000 2500 closed_at_driver true subscribed).connections
          ≡ (has x subscribed.connections && is_kept 3000 2500 closed_at_driver true x subscribed))
check_connections_liveness_removes_example =
    check_connections_liveness_removes 3000 2500 closed_at_driver true subscribed
      (Reach-IsConsistent subscribed-Reach)

-- The connection was last seen the whole timeout ago.
liveness_run :
    (check_connections_liveness 3000 2500 closed_at_driver true subscribed).connections ≡ []
unfolding check_connections_liveness add_subscription open_conn remove_conn remove_subscription
liveness_run = refl

-- A connection that was persisted with its subscription is restored with it.
abbrev persisted : PersistedConn
persisted = record conn { subscriptions = 7 ∷ [] }

restored_run :
    restore_conns config.has_driver (persisted ∷ []) (persisting (persisted ∷ []))
    ≡ ok (record fresh {
      ready = false;
      objects =
          (1, record { persist = persisted; subscriptions = 7 ∷ []; status = connected }) ∷ [];
      connections = 1 ∷ [];
      persisted = 1 ∷ [];
      subscription_index = (7, 1 ∷ []) ∷ [];
    })
unfolding restore_conns add_subscription index_add
restored_run = refl
