-- ===== src/Tests/Endpoints.antt =====
-- Endpoints of an actor: packages/rivetkit/src/actor/router-endpoints.ts and generic-conn-driver.ts.
use rivetkit.Base.{ℕ, ◌≡◌, ◌≢◌, refl, true, false, none, [], has}
use rivetkit.Actor.Conns.{
  PersistedConn, ActorState, ConnConfig, web_socket, opened, create_conn, open_conn, assert_ready,
}
use rivetkit.Actor.Conns.Broadcast.{fresh}
use rivetkit.Actor.Endpoints.{Server, websocket_open, connection_ready_state}
use rivetkit.Actor.Endpoints.Registered.{Step, Reach, ready_state_defined}

abbrev config : ConnConfig
config = record { has_driver = λ d. true; on_connect = none; on_disconnect = true }

abbrev conn : PersistedConn
conn = record {
  conn_id = 3;
  token = 8;
  conn_driver = web_socket;
  conn_driver_state = [];
  params = [];
  state = [];
  auth_data = none;
  last_seen = 100;
  subscriptions = [];
}

abbrev idle : Server
idle = record { actor = fresh; websockets = []; sse_streams = [] }

abbrev served : Server
served = (websocket_open config true conn idle).0

served-Reach : Reach served
served-Reach = Reach.next (Reach.starts idle refl) (Step.opens_websocket config true conn idle refl)

served_has : has 3 served.actor.connections ≡ true
unfolding websocket_open create_conn open_conn assert_ready
served_has = refl

ready_state_defined_example : connection_ready_state (λ id. opened) (λ id. false) 3 served ≢ none
ready_state_defined_example =
    ready_state_defined (λ id. opened) (λ id. false) 3 served-Reach served_has

abbrev execute : ℕ → ActorState → ActorState × ℕ
execute id s = (s, 42)

abbrev starting : Server
starting = record { actor = record fresh { ready = false }; websockets = []; sse_streams = [] }
