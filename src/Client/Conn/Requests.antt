-- ===== src/Client/Conn/Requests.antt =====
-- The requests of a connection: those in flight, and those whose promise was settled.
use rivetkit.Base.{
  ℕ, zero, suc, ◌+◌, ◌<◌, ◌≡◌, refl, Bool, true, false, none, some, List, [], ◌∷◌, ◌++◌, arith, ltb,
  ◌==◌, if◌then◌else◌, Dict, lookup, insert, erase, Option-cases, inl, inr,
}
use rivetkit.Client.Conn.State.{
  Value, ToServer, action_request, subscription_request, ToClient, init, error, action_response,
  event, Listener, Settled, resolved, rejected, ConnState, send_message, action, send_messages,
  handle_on_open, settle_action, reject_all, connection_error, handle_error, dispatch_event,
  handle_on_message, add_event_subscription, unsubscribe, send_subscription, resubscriptions,
  resolve_open,
}

-- How often an id is in flight, and how often a promise of it was settled.
abbrev pub in_flight : ℕ → Dict ℕ → ℕ
in_flight i [] = 0
in_flight i ((j, name) ∷ m) = (if j == i then 1 else 0) + in_flight i m

abbrev pub times_settled : ℕ → List (ℕ × Settled) → ℕ
times_settled i [] = 0
times_settled i ((j, how) ∷ l) = (if j == i then 1 else 0) + times_settled i l

-- Each id given out is in flight or settled, once, and no other is.
abbrev pub IsAccounted : ConnState → Type 0
IsAccounted s =
    (i : ℕ)
    → in_flight i s.actions_in_flight + times_settled i s.settled
      ≡ (if ltb i s.action_id_counter then 1 else 0)

times_settled-append :
    (i : ℕ) (l k : List (ℕ × Settled))
    → times_settled i (l ++ k) ≡ times_settled i l + times_settled i k
times_settled-append i [] k = omega arith
times_settled-append i ((j, how) ∷ l) k = omega (arith, times_settled-append i l k)

times_settled-reject_all :
    (i code : ℕ) (m : Dict ℕ) → times_settled i (reject_all code m) ≡ in_flight i m
times_settled-reject_all i code [] = refl
times_settled-reject_all i code ((j, name) ∷ m) = omega (arith, times_settled-reject_all i code m)

in_flight-insert :
    (i k v : ℕ) (m : Dict ℕ)
    → in_flight k m ≡ 0
    → in_flight i (insert k v m) ≡ (if k == i then 1 else 0) + in_flight i m
in_flight-insert i k v [] h = refl
in_flight-insert i k v ((j, w) ∷ m) h = ground (arith, in_flight-insert i k v m)

in_flight-erase :
    (i k : ℕ) (m : Dict ℕ) → in_flight i (erase k m) ≡ (if k == i then 0 else in_flight i m)
in_flight-erase i k [] = ground arith
in_flight-erase i k ((j, w) ∷ m) = ground (arith, in_flight-erase i k m)

in_flight-lookup : (k : ℕ) (m : Dict ℕ) (v : ℕ) → lookup k m ≡ some v → 0 < in_flight k m
in_flight-lookup k [] v h = cc
in_flight-lookup k ((j, w) ∷ m) v h = ground (arith, in_flight-lookup k m v)

-- The requests stay as they are.
abbrev pub SameRequests : ConnState → ConnState → Type 0
SameRequests s t =
    (t.action_id_counter ≡ s.action_id_counter)
    × (t.actions_in_flight ≡ s.actions_in_flight)
    × (t.settled ≡ s.settled)

pub same-IsAccounted : (s t : ConnState) → SameRequests s t → IsAccounted s → IsAccounted t
same-IsAccounted s t (a, b, c) h i = rw (a, b, c) (h i)

send_message_same :
    (sends ephemeral : Bool) (m : ToServer) (s : ConnState)
    → SameRequests s (send_message sends ephemeral m s).0
unfolding send_message
send_message_same sends ephemeral m s = ground arith

send_messages_same :
    (sends ephemeral : Bool) (ms : List ToServer) (s : ConnState)
    → SameRequests s (send_messages sends ephemeral ms s).0
unfolding send_messages
send_messages_same sends ephemeral [] s = (refl, refl, refl)
send_messages_same sends ephemeral (m ∷ ms) s = ground (
  arith,
  send_message_same sends ephemeral m s,
  send_messages_same sends ephemeral ms (send_message sends ephemeral m s).0,
)

pub action-IsAccounted :
    (sends : Bool) (name : ℕ) (args : Value) (s : ConnState)
    → IsAccounted s
    → IsAccounted (action sends name args s).0
unfolding action
action-IsAccounted sends name args s h =
    let id = s.action_id_counter in
    let s' : ConnState = record s {
      action_id_counter = id + 1;
      actions_in_flight = insert id name s.actions_in_flight;
    } in
    let issued : IsAccounted s' =
      λ i. ground (arith, h i, h id, in_flight-insert i id name s.actions_in_flight) in
    let message : ToServer = action_request id name args in
    same-IsAccounted s' (send_message sends false message s').0
      (send_message_same sends false message s') issued

settle_action-IsAccounted :
    (id : ℕ) (how : Settled) (s : ConnState)
    → IsAccounted s
    → IsAccounted (settle_action id how s).0
settle_action-IsAccounted id how s h i = elim (Option-cases (lookup id s.actions_in_flight)) [
  | inl e ↦ unfold settle_action in ground (arith, h i)
  | inr (name, e) ↦
      unfold settle_action in
      ground (
        arith,
        h i,
        h id,
        in_flight-erase i id s.actions_in_flight,
        in_flight-lookup id s.actions_in_flight name e,
        times_settled-append i s.settled ((id, how) ∷ []),
      )
]

connection_error-IsAccounted :
    (code : ℕ) (s : ConnState) → IsAccounted s → IsAccounted (connection_error code s)
unfolding connection_error
connection_error-IsAccounted code s h i = omega (
  arith,
  h i,
  times_settled-append i s.settled (reject_all code s.actions_in_flight),
  times_settled-reject_all i code s.actions_in_flight,
)

handle_on_open_same : (sends : Bool) (s : ConnState) → SameRequests s (handle_on_open sends s).0
unfolding handle_on_open
handle_on_open_same sends s =
    let opened : ConnState = record s { on_open_promise = resolve_open s.on_open_promise } in
    let subs = resubscriptions s.event_subscriptions in
    let t : ConnState = (send_messages sends true subs opened).0 in
    ground (
      arith,
      send_messages_same sends true subs opened,
      send_messages_same sends false t.message_queue (record t { message_queue = [] }),
    )

dispatch_event_same :
    (name : ℕ) (args : Value) (s : ConnState) → SameRequests s (dispatch_event name args s)
unfolding dispatch_event
dispatch_event_same name args s = ground arith

send_subscription_same :
    (sends : Bool) (name : ℕ) (subscribe : Bool) (s : ConnState)
    → SameRequests s (send_subscription sends name subscribe s).0
unfolding send_subscription
send_subscription_same sends name subscribe s =
    send_message_same sends true (subscription_request name subscribe) s

pub add_event_subscription_same :
    (sends : Bool) (name : ℕ) (l : Listener) (s : ConnState)
    → SameRequests s (add_event_subscription sends name l s).0
unfolding add_event_subscription
add_event_subscription_same sends name l s = ground (
  arith,
  send_subscription_same sends name true
      (record s { event_subscriptions = insert name [] s.event_subscriptions }),
)

pub unsubscribe_same :
    (sends : Bool) (name callback : ℕ) (s : ConnState)
    → SameRequests s (unsubscribe sends name callback s).0
unfolding unsubscribe
unsubscribe_same sends name callback s = ground (
  arith,
  send_subscription_same sends name false
      (record s { event_subscriptions = erase name s.event_subscriptions }),
)

pub handle_on_message-IsAccounted :
    (sends : Bool) (m : ToClient) (s : ConnState)
    → IsAccounted s
    → IsAccounted (handle_on_message sends m s).0
unfolding handle_on_message handle_error
handle_on_message-IsAccounted sends (init a c t) s h =
    let known : ConnState = record s { identity = some (a, c, t) } in
    same-IsAccounted s (handle_on_open sends known).0 (handle_on_open_same sends known) h
handle_on_message-IsAccounted sends (error code none) s h = connection_error-IsAccounted code s h
handle_on_message-IsAccounted sends (error code (some zero)) s h =
    connection_error-IsAccounted code s h
handle_on_message-IsAccounted sends (error code (some (suc n))) s h =
    settle_action-IsAccounted (suc n) (rejected code) s h
handle_on_message-IsAccounted sends (action_response id output) s h =
    settle_action-IsAccounted id (resolved output) s h
handle_on_message-IsAccounted sends (event name args) s h =
    same-IsAccounted s (dispatch_event name args s) (dispatch_event_same name args s) h
