-- ===== src/Actor/Endpoints.antt =====
-- The endpoints of an actor and the drivers of its connections: `handleWebSocketConnect`,
-- `handleSseConnect`, `handleAction` and `handleConnectionMessage` of
-- packages/rivetkit/src/actor/router-endpoints.ts, and `GenericConnGlobalState` and the ready
-- states of packages/rivetkit/src/actor/generic-conn-driver.ts. The actor is loaded, and a message
-- or a request is parsed, before these steps. Whether `prepareConn` threw, the ready state of a raw
-- socket and what an action or a message does to the actor are arguments.
pub mod Registered
pub mod Requests
use rivetkit.Base.{
  ℕ, Bool, true, false, Option, none, some, List, ◌==◌, if◌then◌else◌, lookup, has, add, remove,
}
use rivetkit.Actor.Conns.{
  ConnectionDriver, web_socket, sse, http, PersistedConn, ActorState, ActorError, ok, err,
  ConnConfig, create_conn, remove_conn, ReadyState, opened, closed,
}

-- The actor, with the keys of the maps of `GenericConnGlobalState`.
pub record Server : Type 0 where
  pub actor : ActorState
  pub websockets : List ℕ
  pub sse_streams : List ℕ

-- `handlersPromise` of a web socket: once `onOpen` has run, it has the connection's id, or it is
-- rejected and the socket is closed with 1011.
pub data Handlers : Type 0 where
  resolved : ℕ → Handlers
  rejected : Handlers

-- `onOpen`, with the connection that it makes.
unfoldable pub websocket_open : ConnConfig → Bool → PersistedConn → Server → Server × Handlers
websocket_open config prepared p s =
    if prepared
    then (let registered : Server = record s { websockets = add p.conn_id s.websockets } in
        elim (create_conn config p s.actor) [
          | ok actor ↦ (record registered { actor = actor }, resolved p.conn_id)
          | err e ↦ (registered, rejected)
        ])
    else (s, rejected)

-- `onClose`
unfoldable pub websocket_close : Bool → Handlers → Server → Server
websocket_close hooked rejected s = s
websocket_close hooked (resolved id) s = record s {
  websockets = remove id s.websockets;
  actor = remove_conn hooked id s.actor;
}

-- `handleSseConnect` up to its wait for the stream's end, and whether it gets there; its `catch`
-- removes the stream.
unfoldable pub sse_open : ConnConfig → Bool → PersistedConn → Server → Server × Bool
sse_open config prepared p s =
    if prepared
    then (let registered : Server = record s { sse_streams = add p.conn_id s.sse_streams } in
        elim (create_conn config p s.actor) [
          | ok actor ↦ (record registered { actor = actor }, true)
          | err e ↦
              (record registered { sse_streams = remove p.conn_id registered.sse_streams }, false)
        ])
    else (record s { sse_streams = remove p.conn_id s.sse_streams }, false)

-- The `onAbort` of the stream.
unfoldable pub sse_abort : Bool → ℕ → Server → Server
sse_abort hooked id s = record s {
  sse_streams = remove id s.sse_streams;
  actor = remove_conn hooked id s.actor;
}

-- What became of the request of an action: no connection was made, or what the action returned.
pub data ActionOutcome (B : Type 0) : Type 0 where
  not_prepared : ActionOutcome B
  not_created : ActorError → ActionOutcome B
  executed : B → ActionOutcome B

-- `handleAction`; `execute` is `executeAction` for the connection, its errors among the results.
unfoldable pub handle_action :
    {B : Type 0}
    → ConnConfig
    → Bool
    → PersistedConn
    → (ℕ → ActorState → ActorState × B)
    → ActorState
    → ActorState × ActionOutcome B
handle_action config prepared p execute s =
    if prepared
    then (elim (create_conn config p s) [
      | err e ↦ (s, not_created e)
      | ok created ↦
          let (acted, output) = execute p.conn_id created in
          (remove_conn config.on_disconnect p.conn_id acted, executed output)
    ])
    else (s, not_prepared)

pub data MessageOutcome : Type 0 where
  conn_not_found : ℕ → MessageOutcome
  incorrect_conn_token : MessageOutcome
  processed : MessageOutcome

-- `handleConnectionMessage`
unfoldable pub handle_connection_message :
    (ℕ → ActorState → ActorState) → ℕ → ℕ → ActorState → ActorState × MessageOutcome
handle_connection_message process id token s =
    if has id s.connections
    then (elim (lookup id s.objects) [
      | none ↦ (s, conn_not_found id)
      | some conn ↦
          if conn.persist.token == token
          then (process id s, processed)
          else (s, incorrect_conn_token)
    ])
    else (s, conn_not_found id)

-- The driver of a connection.
abbrev pub driver_of : ℕ → ActorState → Option ConnectionDriver
driver_of id s = elim (lookup id s.objects) [ none ↦ none | some c ↦ some c.persist.conn_driver ]

-- `getConnectionReadyState` of the three generic drivers: `raw_ready_state` is that of a web
-- socket, `is_done` says whether a stream is aborted or closed. `none` is undefined.
abbrev pub web_socket_ready_state : (ℕ → ReadyState) → ℕ → Server → Option ReadyState
web_socket_ready_state raw_ready_state id s =
    if has id s.websockets then some (raw_ready_state id) else none

abbrev pub sse_ready_state : (ℕ → Bool) → ℕ → Server → Option ReadyState
sse_ready_state is_done id s =
    if has id s.sse_streams then some (if is_done id then closed else opened) else none

abbrev pub http_ready_state : Option ReadyState
http_ready_state = some opened

-- The ready state that the driver of a connection reports.
unfoldable pub connection_ready_state :
    (ℕ → ReadyState) → (ℕ → Bool) → ℕ → Server → Option ReadyState
connection_ready_state raw_ready_state is_done id s = elim (driver_of id s.actor) [
  | none ↦ none
  | some web_socket ↦ web_socket_ready_state raw_ready_state id s
  | some sse ↦ sse_ready_state is_done id s
  | some http ↦ http_ready_state
]
