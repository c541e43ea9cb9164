-- ===== src/Actor/Conns/State.antt =====
-- The state of the connections and the operations on it.
use rivetkit.Base.{
  ℕ, Bool, true, false, not, ◌&&◌, Option, none, some, List, [], ◌∷◌, ◌++◌, ◌==◌, if◌then◌else◌,
  Dict, lookup, insert, has, add, remove,
}
use rivetkit.Actor.Index.{Index, index_add, index_remove, subscribers}

pub data ConnectionStatus : Type 0 where
  connected reconnecting : ConnectionStatus

-- `ConnectionReadyState`
pub data ReadyState : Type 0 where
  connecting opened closing closed : ReadyState

-- The names of connection drivers.
pub data ConnectionDriver : Type 0 where
  web_socket sse http : ConnectionDriver

-- Values that this part only passes on, by their encoding.
abbrev pub Value : Type 0
Value = List ℕ

-- `PersistedConn`
pub record PersistedConn : Type 0 where
  pub conn_id : ℕ
  pub token : ℕ
  pub conn_driver : ConnectionDriver
  pub conn_driver_state : Value
  pub params : Value
  pub state : Value
  pub auth_data : Option Value
  pub last_seen : ℕ
  -- The event names of `PersistedSubscription[]`.
  pub subscriptions : List ℕ

-- `Conn`, with `__persist`, `subscriptions` and `#status`.
pub record Conn : Type 0 where
  pub persist : PersistedConn
  pub subscriptions : List ℕ
  pub status : ConnectionStatus

-- The constructor of `Conn`.
unfoldable pub new_conn : PersistedConn → Conn
new_conn persist = record { persist = persist; subscriptions = []; status = connected }

pub data Message : Type 0 where
  -- `Init`, with the connection's id and token
  init : ℕ → ℕ → Message
  -- `Event`, with its name and arguments
  event : ℕ → Value → Message
  -- `ActionResponse`, with the action's id and output
  action_response : ℕ → Value → Message
  -- `Error`, with the code and the action's id
  error : ℕ → Option ℕ → Message

pub data Effect : Type 0 where
  -- `_sendMessage` to a connection
  send : ℕ → Message → Effect
  -- the driver's `disconnect` for a connection
  close : ℕ → Effect
  -- `saveState({ immediate: true })`, and whether stopping is allowed
  save : Bool → Effect
  reset_sleep_timer : Effect
  on_connect on_disconnect : ℕ → Effect

pub data ActorError : Type 0 where
  not_ready going_to_sleep stopping : ActorError
  connection_exists : ℕ → ActorError
  no_connection_driver : ConnectionDriver → ActorError

pub data Result (A : Type 0) : Type 0 where
  ok : A → Result A
  err : ActorError → Result A

pub record ActorState : Type 0 where
  pub ready : Bool
  pub sleep_called : Bool
  pub stop_called : Bool
  -- All `Conn` objects, by their id.
  pub objects : Dict Conn
  -- The keys of `#connections`.
  pub connections : List ℕ
  -- The ids of the objects of `#persist.connections`, which are those of the `Conn` objects.
  pub persisted : List ℕ
  pub subscription_index : Index
  pub effects : List Effect

unfoldable pub perform : Effect → ActorState → ActorState
perform effect s = record s { effects = s.effects ++ effect ∷ [] }

-- `#assertReady(allowStoppingState)`: the error that it throws.
unfoldable pub assert_ready : Bool → ActorState → Option ActorError
assert_ready allow_stopping s =
    if not s.ready
    then some not_ready
    else if not allow_stopping && s.sleep_called
    then some going_to_sleep
    else if not allow_stopping && s.stop_called
    then some stopping
    else none

-- The object of a connection, changed.
unfoldable pub update_conn : ℕ → (Conn → Conn) → ActorState → ActorState
update_conn id f s = elim (lookup id s.objects) [
  | none ↦ s
  | some conn ↦ record s { objects = insert id (f conn) s.objects }
]

-- `Conn.disconnect`
unfoldable pub disconnect : ℕ → ActorState → ActorState
unfolding perform update_conn
disconnect id s = perform (close id) (update_conn id (λ c. record c { status = reconnecting }) s)

unfoldable pub is_subscribed : ℕ → ℕ → ActorState → Bool
is_subscribed id name s = elim (lookup id s.objects) [
  | none ↦ false
  | some conn ↦ has name conn.subscriptions
]

-- `connection.subscriptions.add(name)`, and the entry of the persisted array unless the
-- subscription comes from there.
unfoldable pub subscribe_conn : Bool → ℕ → Conn → Conn
subscribe_conn from_persist name c = record c {
  persist =
      (if from_persist
        then c.persist
        else record (c.persist) { subscriptions = c.persist.subscriptions ++ name ∷ [] });
  subscriptions = add name c.subscriptions;
}

-- `#addSubscription(name, connection, fromPersist)`
unfoldable pub add_subscription : ℕ → ℕ → Bool → ActorState → ActorState
unfolding perform update_conn is_subscribed subscribe_conn
add_subscription name id from_persist s =
    if is_subscribed id name s
    then s
    else (let subscribed =
          update_conn id (subscribe_conn from_persist name)
            (if from_persist then s else perform (save false) s) in
        record subscribed { subscription_index = index_add name id subscribed.subscription_index })

-- The first entry of a name is taken out of the persisted array.
unfoldable pub remove_first : ℕ → List ℕ → List ℕ
remove_first a [] = []
remove_first a (x ∷ xs) = if x == a then xs else x ∷ remove_first a xs

unfoldable pub unsubscribe_conn : ℕ → Conn → Conn
unfolding remove_first
unsubscribe_conn name c = record c {
  persist = record (c.persist) { subscriptions = remove_first name c.persist.subscriptions };
  subscriptions = remove name c.subscriptions;
}

-- `#removeSubscription(name, connection, fromRemoveConn)`
unfoldable pub remove_subscription : ℕ → ℕ → Bool → ActorState → ActorState
unfolding perform update_conn is_subscribed unsubscribe_conn
remove_subscription name id from_remove_conn s =
    if not (is_subscribed id name s)
    then s
    else (let left =
          (if from_remove_conn
            then s
            else perform (save false) (update_conn id (unsubscribe_conn name) s)) in
        record left { subscription_index = index_remove name id left.subscription_index })

-- The loop of `__removeConn` over the connection's subscriptions.
unfoldable pub remove_subscriptions : List ℕ → ℕ → ActorState → ActorState
remove_subscriptions [] id s = s
remove_subscriptions (name ∷ names) id s =
    remove_subscriptions names id (remove_subscription name id true s)

abbrev pub subscriptions_of : ℕ → ActorState → List ℕ
subscriptions_of id s = elim (lookup id s.objects) [ none ↦ [] | some c ↦ c.subscriptions ]

-- `__removeConn(conn)`; `hooked` says whether `onDisconnect` is configured.
unfoldable pub remove_conn : Bool → ℕ → ActorState → ActorState
unfolding perform remove_subscriptions remove_first
remove_conn hooked id s =
    let unpersisted =
      (if has id s.persisted
        then perform (save true) (record s { persisted = remove_first id s.persisted })
        else s) in
    let dropped =
      remove_subscriptions (subscriptions_of id s) id
        (record unpersisted { connections = remove id unpersisted.connections }) in
    perform reset_sleep_timer (if hooked then perform (on_disconnect id) dropped else dropped)

-- Which connection drivers there are, and the hook `onConnect`: not configured, or configured with
-- whether it throws.
pub record ConnConfig : Type 0 where
  pub has_driver : ConnectionDriver → Bool
  pub on_connect : Option Bool
  pub on_disconnect : Bool

-- The hook `onConnect` and what follows its failure.
unfoldable pub run_on_connect : Option Bool → ℕ → ActorState → ActorState
unfolding perform disconnect
run_on_connect none id s = s
run_on_connect (some threw) id s =
    let called = perform (on_connect id) s in if threw then disconnect id called else called

-- `createConn` behind its checks.
unfoldable pub open_conn : ConnConfig → PersistedConn → ActorState → ActorState
unfolding new_conn perform run_on_connect
open_conn config persist s =
    let id = persist.conn_id in
    let connected : ActorState = perform reset_sleep_timer (record s {
      objects = insert id (new_conn persist) s.objects;
      connections = add id s.connections;
    }) in
    let saved : ActorState =
      perform (save false) (record connected { persisted = connected.persisted ++ id ∷ [] }) in
    perform (send id (init id persist.token)) (run_on_connect config.on_connect id saved)

-- `createConn`. The new persisted object comes with an empty list of subscriptions and with the
-- current time in `last_seen`.
unfoldable pub create_conn : ConnConfig → PersistedConn → ActorState → Result ActorState
create_conn config persist s = elim (assert_ready false s) [
  | some e ↦ err e
  | none ↦
      if has persist.conn_id s.connections
      then err (connection_exists persist.conn_id)
      else if not (config.has_driver persist.conn_driver)
      then err (no_connection_driver persist.conn_driver)
      else ok (open_conn config persist s)
]

-- The recipients of `_broadcast`, each sent the same event.
unfoldable pub send_all : List ℕ → Message → ActorState → ActorState
unfolding perform
send_all [] message s = s
send_all (id ∷ ids) message s = send_all ids message (perform (send id message) s)

-- `_broadcast(name, ...args)`
unfoldable pub broadcast : ℕ → Value → ActorState → Result ActorState
broadcast name args s = elim (assert_ready false s) [
  | some e ↦ err e
  | none ↦ ok (send_all (subscribers name s.subscription_index) (event name args) s)
]
