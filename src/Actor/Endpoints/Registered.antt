-- ===== src/Actor/Endpoints/Registered.antt =====
-- Every open connection has its socket or stream at its driver.
use rivetkit.Base.{
  ℕ, Bool, true, false, ◌≡◌, ◌≢◌, refl, ap, ◌∙◌, Option, none, some, [], ◌||◌, ◌==◌, if◌then◌else◌,
  arith, lookup, lookup-insert, has, add, has-add, has-remove, Option-cases, ◌⊎◌, inl, inr, ==→eq,
}
use rivetkit.Actor.Conns.{
  ConnectionDriver, web_socket, sse, http, PersistedConn, ActorState, ConnConfig, Result,
  ActorError, ok, err, create_conn, open_conn, run_on_connect, new_conn, remove_conn, ReadyState,
  reconnecting,
}
use rivetkit.Actor.Conns.Lifecycle.{removed_connections, removed_objects}
use rivetkit.Actor.Endpoints.{
  Server, resolved, websocket_open, websocket_close, sse_open, sse_abort, driver_of,
  connection_ready_state,
}

-- Whether the driver has what it sends to.
abbrev is_registered : Option ConnectionDriver → ℕ → Server → Bool
is_registered none id s = false
is_registered (some web_socket) id s = has id s.websockets
is_registered (some sse) id s = has id s.sse_streams
is_registered (some http) id s = true

abbrev pub IsRegistered : Server → Type 0
IsRegistered s =
    (id : ℕ) → has id s.actor.connections ≡ true → is_registered (driver_of id s.actor) id s ≡ true

hook_driver :
    (hook : Option Bool) (id x : ℕ) (s : ActorState)
    → driver_of x (run_on_connect hook id s) ≡ driver_of x s
unfolding run_on_connect
hook_driver none id x s = refl
hook_driver (some false) id x s = refl
hook_driver (some true) id x s = elim (Option-cases (lookup id s.objects)) [
  | inl e ↦ ground arith
  | inr (c, e) ↦ ground (arith, lookup-insert x id (record c { status = reconnecting }) s.objects)
]

module _ (config : ConnConfig) (p : PersistedConn) (s : ActorState) where
  opened_driver :
      (x : ℕ)
      → driver_of x (open_conn config p s)
        ≡ (if p.conn_id == x then some p.conn_driver else driver_of x s)
  unfolding open_conn new_conn
  opened_driver x =
      hook_driver config.on_connect p.conn_id x _
      ∙ ground (arith, lookup-insert x p.conn_id (new_conn p) s.objects)

  opened_connections : (open_conn config p s).connections ≡ add p.conn_id s.connections
  unfolding open_conn run_on_connect
  opened_connections = ground arith

  pub create_conn_inv :
      (t : ActorState)
      → create_conn config p s ≡ ok t
      → (open_conn config p s ≡ t) × (has p.conn_id s.connections ≡ false)
  unfolding create_conn
  create_conn_inv t h = ground arith

  pub created_driver :
      (t : ActorState) (x : ℕ)
      → create_conn config p s ≡ ok t
      → (driver_of x t ≡ (if p.conn_id == x then some p.conn_driver else driver_of x s))
        × (has x t.connections ≡ ((p.conn_id == x) || has x s.connections))
  created_driver t x h =
      let (e, _) = create_conn_inv t h in
      rw (← e) (opened_driver x, ap (has x) opened_connections ∙ has-add x p.conn_id s.connections)

pub Result-cases :
    {A : Type 0} (r : Result A) → ((a : A) × (r ≡ ok a)) ⊎ ((e : ActorError) × (r ≡ err e))
Result-cases (ok a) = inl (a, refl)
Result-cases (err e) = inr (e, refl)

-- The steps of a server. A connection has a driver of its endpoint; the id of a new event stream is
-- new. Whatever else the actor does opens no connection and changes no connection's driver.
pub data Step : Server → Server → Type 0 where
  opens_websocket :
      (config : ConnConfig) (prepared : Bool) (p : PersistedConn) (s : Server)
      → p.conn_driver ≡ web_socket
      → Step s (websocket_open config prepared p s).0
  closes_websocket :
      (hooked : Bool) (id : ℕ) (s : Server) → Step s (websocket_close hooked (resolved id) s)
  opens_sse :
      (config : ConnConfig) (prepared : Bool) (p : PersistedConn) (s : Server)
      → p.conn_driver ≡ sse
      → has p.conn_id s.actor.connections ≡ false
      → Step s (sse_open config prepared p s).0
  aborts_sse : (hooked : Bool) (id : ℕ) (s : Server) → Step s (sse_abort hooked id s)
  opens_http :
      (config : ConnConfig) (p : PersistedConn) (s : Server) (t : ActorState)
      → p.conn_driver ≡ http
      → create_conn config p s.actor ≡ ok t
      → Step s (record s { actor = t })
  acts :
      (s : Server) (t : ActorState)
      → ((x : ℕ)
          → has x t.connections ≡ true
          → (has x s.actor.connections ≡ true) × (driver_of x t ≡ driver_of x s.actor))
      → Step s (record s { actor = t })

pub data Reach : Server → Type 0 where
  starts : (s : Server) → s.actor.connections ≡ [] → Reach s
  next : {s t : Server} → Reach s → Step s t → Reach t

removed_driver :
    (hooked : Bool) (id : ℕ) (s : ActorState) (x : ℕ)
    → driver_of x (remove_conn hooked id s) ≡ driver_of x s
removed_driver hooked id s x = rw (removed_objects hooked id s)

removed-IsRegistered :
    (hooked : Bool) (id : ℕ) (s t : Server)
    → t.actor ≡ remove_conn hooked id s.actor
    → ((x : ℕ) → (id == x) ≡ false → has x t.websockets ≡ has x s.websockets)
    → ((x : ℕ) → (id == x) ≡ false → has x t.sse_streams ≡ has x s.sse_streams)
    → IsRegistered s
    → IsRegistered t
removed-IsRegistered hooked id s t e w v h x o = ground (
  arith,
  ap (λ a. has x a.connections) e,
  ap (λ a. driver_of x a) e,
  ap (has x) (removed_connections hooked id s.actor),
  removed_driver hooked id s.actor x,
  has-remove x id s.actor.connections,
  w x,
  v x,
  h x,
)

websocket_open-IsRegistered :
    (config : ConnConfig) (prepared : Bool) (p : PersistedConn) (s : Server)
    → p.conn_driver ≡ web_socket
    → IsRegistered s
    → IsRegistered (websocket_open config prepared p s).0
unfolding websocket_open
websocket_open-IsRegistered config false p s d h x = h x
websocket_open-IsRegistered config true p s d h x =
    elim (Result-cases (create_conn config p s.actor)) [
      | inl (t, e) ↦ rw e (λ o.
          ground
            (arith, created_driver config p s.actor t x e, has-add x p.conn_id s.websockets, h x))
      | inr (f, e) ↦ rw e (λ o. ground (arith, has-add x p.conn_id s.websockets, h x))
    ]

sse_open-IsRegistered :
    (config : ConnConfig) (prepared : Bool) (p : PersistedConn) (s : Server)
    → p.conn_driver ≡ sse
    → has p.conn_id s.actor.connections ≡ false
    → IsRegistered s
    → IsRegistered (sse_open config prepared p s).0
unfolding sse_open
sse_open-IsRegistered config false p s d new h x =
    λ o. ground (arith, has-remove x p.conn_id s.sse_streams, h x, ==→eq p.conn_id x)
sse_open-IsRegistered config true p s d new h x =
    elim (Result-cases (create_conn config p s.actor)) [
      | inl (t, e) ↦ rw e (λ o.
          ground
            (arith, created_driver config p s.actor t x e, has-add x p.conn_id s.sse_streams, h x))
      | inr (f, e) ↦ rw e (λ o. ground (
        arith,
        has-remove x p.conn_id (add p.conn_id s.sse_streams),
        has-add x p.conn_id s.sse_streams,
        h x,
        ==→eq p.conn_id x,
      ))
    ]

Step-IsRegistered : {s t : Server} → Step s t → IsRegistered s → IsRegistered t
Step-IsRegistered (opens_websocket config prepared p s d) h =
    websocket_open-IsRegistered config prepared p s d h
Step-IsRegistered (closes_websocket hooked id s) h =
    unfold websocket_close in
    removed-IsRegistered hooked id s _ refl (λ x n. ground (arith, has-remove x id s.websockets))
      (λ x n. refl) h
Step-IsRegistered (opens_sse config prepared p s d new) h =
    sse_open-IsRegistered config prepared p s d new h
Step-IsRegistered (aborts_sse hooked id s) h =
    unfold sse_abort in
    removed-IsRegistered hooked id s _ refl (λ x n. refl)
      (λ x n. ground (arith, has-remove x id s.sse_streams)) h
Step-IsRegistered (opens_http config p s t d e) h =
    λ x o. ground (arith, created_driver config p s.actor t x e, h x)
Step-IsRegistered (acts s t k) h = λ x o. ground (arith, k x, h x)

pub Reach-IsRegistered : {s : Server} → Reach s → IsRegistered s
Reach-IsRegistered (starts s e) = λ x o. ground arith
Reach-IsRegistered (next r st) = Step-IsRegistered st (Reach-IsRegistered r)

-- In every state that the endpoints reach from one without connections, the driver of an open
-- connection has its socket or stream: the ready state that the liveness check reads is defined.
pub ready_state_defined :
    (raw_ready_state : ℕ → ReadyState) (is_done : ℕ → Bool) (id : ℕ) {s : Server}
    → Reach s
    → has id s.actor.connections ≡ true
    → connection_ready_state raw_ready_state is_done id s ≢ none
unfolding connection_ready_state
ready_state_defined raw_ready_state is_done id {s = s} r o e =
    let h = Reach-IsRegistered r id o in
    elim (Option-cases (driver_of id s.actor)) [ inl n ↦ ground arith | inr (d, f) ↦ ground arith ]
