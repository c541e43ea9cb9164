-- ===== src/Client/Conn/State.antt =====
-- The state of a client's connection and the operations on it.
use rivetkit.Base.{
  ℕ, zero, suc, ◌+◌, Bool, true, false, not, ◌&&◌, ◌||◌, Option, none, some, List, [], ◌∷◌, ◌++◌,
  map, ◌==◌, if◌then◌else◌, is_empty, Dict, lookup, insert, erase,
}

-- Arguments and outputs, by their encoding.
abbrev pub Value : Type 0
Value = List ℕ

-- `protocol.ToServer`
pub data ToServer : Type 0 where
  action_request : ℕ → ℕ → Value → ToServer
  subscription_request : ℕ → Bool → ToServer

-- `protocol.ToClient`
pub data ToClient : Type 0 where
  -- the actor's id, the connection's id and its token
  init : ℕ → ℕ → ℕ → ToClient
  -- the code, and the action's id
  error : ℕ → Option ℕ → ToClient
  action_response : ℕ → Value → ToClient
  event : ℕ → Value → ToClient

-- `ConnTransport`, each with `readyState === 1`.
pub data Transport : Type 0 where
  websocket sse : Bool → Transport

-- `EventSubscriptions`: an identifier of the object, which tells it and its callback apart.
pub record Listener : Type 0 where
  pub callback : ℕ
  pub once : Bool

-- How the promise of an action is settled: with an output, or with an error of a code.
pub data Settled : Type 0 where
  resolved : Value → Settled
  rejected : ℕ → Settled

-- `#onOpenPromise`
pub data OpenPromise : Type 0 where
  undefined pending open_resolved : OpenPromise
  -- rejected, by the code of an error or by a close
  open_rejected : Option ℕ → OpenPromise

pub record ConnState : Type 0 where
  pub disposed : Bool
  pub connecting : Bool
  -- `#actorId`, `#connectionId` and `#connectionToken`
  pub identity : Option (ℕ × ℕ × ℕ)
  pub transport : Option Transport
  pub on_open_promise : OpenPromise
  pub message_queue : List ToServer
  -- The names of the actions in flight, by their ids.
  pub actions_in_flight : Dict ℕ
  pub event_subscriptions : Dict (List Listener)
  pub action_id_counter : ℕ
  -- The messages that the transport took.
  pub sent : List ToServer
  -- The promises of actions that were settled, by the ids of the actions.
  pub settled : List (ℕ × Settled)
  -- The listeners called, with the arguments.
  pub called : List (ℕ × Value)
  -- The codes that the error handlers were called with.
  pub actor_errors : List ℕ

pub data ConnError : Type 0 where
  conn_disposed : ConnError
  no_in_flight : ℕ → ConnError

-- The state comes back after a throw too, since what was written stays written.
pub data Thrown : Type 0 where
  returned : Thrown
  threw : ConnError → Thrown

abbrev pub Step : Type 0
Step = ConnState × Thrown

-- The transport takes the message, `some` with the outcome, or there is none that is open. An
-- event stream takes it into a request of its own, which may fail later.
abbrev pub takes : Bool → Option Transport → Bool
takes sends none = false
takes sends (some (websocket ready)) = ready && sends
takes sends (some (sse ready)) = ready

-- `#sendMessage(message, { ephemeral })`; `sends` says whether a send on the socket returns.
unfoldable pub send_message : Bool → Bool → ToServer → ConnState → Step
send_message sends ephemeral message s =
    if s.disposed
    then (s, threw conn_disposed)
    else if takes sends s.transport
    then (record s { sent = s.sent ++ message ∷ [] }, returned)
    else if ephemeral
    then (s, returned)
    else (record s { message_queue = s.message_queue ++ message ∷ [] }, returned)

-- The `catch` of `#sendHttpMessage`: a request of an event stream failed.
unfoldable pub http_message_fails : Bool → ToServer → ConnState → ConnState
http_message_fails ephemeral message s =
    if ephemeral then s else record s { message_queue = message ∷ s.message_queue }

-- `action(opts)` up to its `await`.
unfoldable pub action : Bool → ℕ → Value → ConnState → Step
unfolding send_message
action sends name args s =
    let id = s.action_id_counter in
    send_message sends false (action_request id name args) (record s {
      action_id_counter = id + 1;
      actions_in_flight = insert id name s.actions_in_flight;
    })

-- `#sendSubscription(eventName, subscribe)`
unfoldable pub send_subscription : Bool → ℕ → Bool → ConnState → Step
unfolding send_message
send_subscription sends name subscribe s =
    send_message sends true (subscription_request name subscribe) s

-- Messages sent one after the other, up to one that throws.
unfoldable pub send_messages : Bool → Bool → List ToServer → ConnState → Step
send_messages sends ephemeral [] s = (s, returned)
send_messages sends ephemeral (m ∷ ms) s = elim (send_message sends ephemeral m s).1 [
  | returned ↦ send_messages sends ephemeral ms (send_message sends ephemeral m s).0
  | threw e ↦ ((send_message sends ephemeral m s).0, threw e)
]

abbrev pub resubscriptions : Dict (List Listener) → List ToServer
resubscriptions [] = []
resubscriptions ((name, listeners) ∷ subs) = subscription_request name true ∷ resubscriptions subs

abbrev pub resolve_open : OpenPromise → OpenPromise
resolve_open pending = open_resolved
resolve_open p = p

abbrev pub reject_open : Option ℕ → OpenPromise → OpenPromise
reject_open code pending = open_rejected code
reject_open code p = p

-- The queue is taken out and its messages are sent.
unfoldable pub flush_queue : Bool → ConnState → Step
flush_queue sends s = send_messages sends false s.message_queue (record s { message_queue = [] })

-- `#handleOnOpen`
unfoldable pub handle_on_open : Bool → ConnState → Step
unfolding flush_queue
handle_on_open sends s =
    let opened : ConnState = record s { on_open_promise = resolve_open s.on_open_promise } in
    let resubscribed = send_messages sends true (resubscriptions s.event_subscriptions) opened in
    elim resubscribed.1 [ returned ↦ flush_queue sends resubscribed.0 | threw e ↦ resubscribed ]

-- `#takeActionInFlight` with what the caller does with the promise.
unfoldable pub settle_action : ℕ → Settled → ConnState → Step
settle_action id how s = elim (lookup id s.actions_in_flight) [
  | none ↦ (s, threw (no_in_flight id))
  | some name ↦ (
    record s {
      actions_in_flight = erase id s.actions_in_flight;
      settled = s.settled ++ (id, how) ∷ [];
    },
    returned,
  )
]

abbrev pub reject_all : ℕ → Dict ℕ → List (ℕ × Settled)
reject_all code [] = []
reject_all code ((id, name) ∷ actions) = (id, rejected code) ∷ reject_all code actions

-- An error that is not about one action.
unfoldable pub connection_error : ℕ → ConnState → ConnState
connection_error code s = record s {
  on_open_promise = reject_open (some code) s.on_open_promise;
  actions_in_flight = [];
  settled = s.settled ++ reject_all code s.actions_in_flight;
  actor_errors = s.actor_errors ++ code ∷ [];
}

-- The branch on `if (actionId)`: an id that is null or zero is false.
unfoldable pub handle_error : ℕ → Option ℕ → ConnState → Step
unfolding settle_action connection_error
handle_error code none s = (connection_error code s, returned)
handle_error code (some zero) s = (connection_error code s, returned)
handle_error code (some (suc n)) s = settle_action (suc n) (rejected code) s

-- The loop of `#dispatchEvent`: the listeners that stay, those called are all.
abbrev pub kept_listeners : List Listener → List Listener
kept_listeners [] = []
kept_listeners (l ∷ ls) = let rest = kept_listeners ls in if l.once then rest else l ∷ rest

-- `#dispatchEvent`; the callbacks are the user's code, which is called and returns.
unfoldable pub dispatch_event : ℕ → Value → ConnState → ConnState
dispatch_event name args s = elim (lookup name s.event_subscriptions) [
  | none ↦ s
  | some listeners ↦
      let kept = kept_listeners listeners in
      record s {
        event_subscriptions =
            (if is_empty kept
              then erase name s.event_subscriptions
              else insert name kept s.event_subscriptions);
        called = s.called ++ map (λ (l : Listener). (l.callback, args)) listeners;
      }
]

-- `#handleOnMessage`, of a message that parsed.
unfoldable pub handle_on_message : Bool → ToClient → ConnState → Step
unfolding handle_on_open handle_error settle_action dispatch_event
handle_on_message sends (init actor conn token) s =
    handle_on_open sends (record s { identity = some (actor, conn, token) })
handle_on_message sends (error code id) s = handle_error code id s
handle_on_message sends (action_response id output) s = settle_action id (resolved output) s
handle_on_message sends (event name args) s = (dispatch_event name args s, returned)

-- `#handleOnClose`: whether it connects again is in `connecting`.
unfoldable pub handle_on_close : ConnState → ConnState
handle_on_close s = record s {
  on_open_promise = reject_open none s.on_open_promise;
  transport = none;
  connecting = s.connecting || not s.disposed;
}

-- `#addEventSubscription`
unfoldable pub add_event_subscription : Bool → ℕ → Listener → ConnState → Step
unfolding send_subscription
add_event_subscription sends name listener s = elim (lookup name s.event_subscriptions) [
  | some listeners ↦ (
    record s {
      event_subscriptions = insert name (listeners ++ listener ∷ []) s.event_subscriptions;
    },
    returned,
  )
  | none ↦
      let sent =
        send_subscription sends name true
          (record s { event_subscriptions = insert name [] s.event_subscriptions }) in
      elim sent.1 [
        | threw e ↦ sent
        | returned ↦ (
          record (sent.0) {
            event_subscriptions = insert name (listener ∷ []) sent.0.event_subscriptions;
          },
          returned,
        )
      ]
]

-- A listener is one object, so its identifier tells it apart.
abbrev pub remove_listener : ℕ → List Listener → List Listener
remove_listener callback [] = []
remove_listener callback (l ∷ ls) =
    let rest = remove_listener callback ls in if l.callback == callback then rest else l ∷ rest

-- The function that `#addEventSubscription` returns.
unfoldable pub unsubscribe : Bool → ℕ → ℕ → ConnState → Step
unfolding send_subscription
unsubscribe sends name callback s = elim (lookup name s.event_subscriptions) [
  | none ↦ (s, returned)
  | some listeners ↦
      let left = remove_listener callback listeners in
      if is_empty left
      then send_subscription sends name false
          (record s { event_subscriptions = erase name s.event_subscriptions })
      else (record s { event_subscriptions = insert name left s.event_subscriptions }, returned)
]

-- `dispose` up to its `await`: whether it did anything.
unfoldable pub dispose : ConnState → ConnState
dispose s = if s.disposed then s else record s { disposed = true; transport = none }
