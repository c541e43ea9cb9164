-- ===== src/Client/Conn/Queue.antt =====
-- What the queue of messages keeps, and what errors for an action settle.
use rivetkit.Base.{
  ℕ, suc, ◌+◌, ◌≡◌, refl, ap, ◌∙◌, Bool, true, false, ◌&&◌, ◌||◌, none, some, List, [], ◌∷◌, ◌++◌,
  arith, ◌==◌, Dict, lookup, insert, erase, append_assoc, append-nil,
}
use rivetkit.Client.Conn.State.{
  Value, ToServer, action_request, init, error, Transport, Settled, resolved, rejected, ConnState,
  returned, threw, send_message, takes, action, send_messages, flush_queue, handle_on_open,
  settle_action, reject_all, connection_error, handle_error, handle_on_message, Step,
  resubscriptions, resolve_open,
}

-- On an open transport messages are sent in their order.
send_messages_open :
    (ephemeral : Bool) (ms : List ToServer) (s : ConnState)
    → s.disposed ≡ false
    → takes true s.transport ≡ true
    → send_messages true ephemeral ms s ≡ (record s { sent = s.sent ++ ms }, returned)
unfolding send_messages send_message
send_messages_open ephemeral [] s d t = rw append-nil
send_messages_open ephemeral (m ∷ ms) s d t = ground (
  arith,
  send_messages_open ephemeral ms (record s { sent = s.sent ++ m ∷ [] }),
  append_assoc s.sent (m ∷ []) ms,
)

-- Without a transport that is open, messages that are not ephemeral are queued in their order.
send_messages_closed :
    (sends : Bool) (ms : List ToServer) (s : ConnState)
    → s.disposed ≡ false
    → takes sends s.transport ≡ false
    → send_messages sends false ms s
      ≡ (record s { message_queue = s.message_queue ++ ms }, returned)
unfolding send_messages send_message
send_messages_closed sends [] s d t = rw append-nil
send_messages_closed sends (m ∷ ms) s d t = ground (
  arith,
  send_messages_closed sends ms (record s { message_queue = s.message_queue ++ m ∷ [] }),
  append_assoc s.message_queue (m ∷ []) ms,
)

-- When the server's `Init` arrives on a transport that is open and takes what is sent, and the
-- connection is not disposed, it sends a subscription for each event that is listened to, then
-- all that was queued, in order, and the queue is empty.
pub init_flushes :
    (actor conn token : ℕ) (s : ConnState)
    → s.disposed ≡ false
    → takes true s.transport ≡ true
    → handle_on_message true (init actor conn token) s ≡ (
      record s {
        identity = some (actor, conn, token);
        on_open_promise = resolve_open s.on_open_promise;
        message_queue = [];
        sent = (s.sent ++ resubscriptions s.event_subscriptions) ++ s.message_queue;
      },
      returned,
    )
unfolding handle_on_message handle_on_open flush_queue
init_flushes actor conn token s d t =
    let opened : ConnState = record s {
      identity = some (actor, conn, token);
      on_open_promise = resolve_open s.on_open_promise;
    } in
    let subs = resubscriptions s.event_subscriptions in
    let behind : Step → Step = λ r. elim r.1 [ returned ↦ flush_queue true r.0 | threw e ↦ r ] in
    ap behind (send_messages_open true subs opened d t)
    ∙ send_messages_open false s.message_queue
        (record opened { sent = s.sent ++ subs; message_queue = [] }) d t

action_queued :
    (name : ℕ) (args : Value) (s : ConnState)
    → s.disposed ≡ false
    → s.transport ≡ none
    → action true name args s ≡ (
      record s {
        action_id_counter = s.action_id_counter + 1;
        actions_in_flight = insert s.action_id_counter name s.actions_in_flight;
        message_queue = s.message_queue ++ action_request s.action_id_counter name args ∷ [];
      },
      returned,
    )
unfolding action
action_queued name args s d n = ground arith

-- The promise of the id is among those rejected with the code.
abbrev pub rejects : ℕ → ℕ → List (ℕ × Settled) → Bool
rejects code id [] = false
rejects code id ((j, resolved output) ∷ l) = rejects code id l
rejects code id ((j, rejected c) ∷ l) = (j == id) && (c == code) || rejects code id l

reject_all_lem :
    (code id name : ℕ) (m : Dict ℕ)
    → lookup id m ≡ some name
    → rejects code id (reject_all code m) ≡ true
reject_all_lem code id name [] h = cc
reject_all_lem code id name ((j, w) ∷ m) h = ground (arith, reject_all_lem code id name m)

-- An action that is called while there is no transport, on a connection that is not disposed,
-- is sent when the `Init` of an open transport arrives: after the subscriptions and what was
-- queued before it; the queue is then empty.
pub action_is_sent :
    (name actor conn token : ℕ) (args : Value) (t : Transport) (s : ConnState)
    → s.disposed ≡ false
    → s.transport ≡ none
    → takes true (some t) ≡ true
    → let queued = (action true name args s).0 in
      let opened =
        (handle_on_message true (init actor conn token) (record queued { transport = some t })).0 in
      (opened.sent
        ≡ (s.sent ++ resubscriptions s.event_subscriptions)
          ++ (s.message_queue ++ action_request s.action_id_counter name args ∷ []))
      × (opened.message_queue ≡ [])
action_is_sent name actor conn token args t s d n o =
    let q : ConnState = record s {
      action_id_counter = s.action_id_counter + 1;
      actions_in_flight = insert s.action_id_counter name s.actions_in_flight;
      message_queue = s.message_queue ++ action_request s.action_id_counter name args ∷ [];
    } in
    let queued : action true name args s ≡ (q, returned) = action_queued name args s d n in
    let flushed = init_flushes actor conn token (record q { transport = some t }) d o in
    let receive : ConnState → Step =
      λ c. handle_on_message true (init actor conn token) (record c { transport = some t }) in
    (
      ap (λ p. (receive p.0).0.sent) queued ∙ ap (λ p. p.0.sent) flushed,
      ap (λ p. (receive p.0).0.message_queue) queued ∙ ap (λ p. p.0.message_queue) flushed,
    )

-- An error for the first action of a connection, whose id is zero, empties the actions in
-- flight: each of them is rejected with the error's code, and the error handlers are called.
pub error_for_first_action_rejects_all :
    (sends : Bool) (code id name : ℕ) (s : ConnState)
    → lookup id s.actions_in_flight ≡ some name
    → let s' = (handle_on_message sends (error code (some 0)) s).0 in
      (s'.actions_in_flight ≡ [])
      × (s'.settled ≡ s.settled ++ reject_all code s.actions_in_flight)
      × (rejects code id (reject_all code s.actions_in_flight) ≡ true)
      × (s'.actor_errors ≡ s.actor_errors ++ code ∷ [])
unfolding handle_on_message handle_error connection_error
error_for_first_action_rejects_all sends code id name s h =
    (refl, refl, reject_all_lem code id name s.actions_in_flight h, refl)

-- An error for an action in flight whose id is positive rejects that action alone, and changes
-- nothing else.
pub error_for_action :
    (sends : Bool) (code n name : ℕ) (s : ConnState)
    → lookup (suc n) s.actions_in_flight ≡ some name
    → handle_on_message sends (error code (some (suc n))) s ≡ (
      record s {
        actions_in_flight = erase (suc n) s.actions_in_flight;
        settled = s.settled ++ (suc n, rejected code) ∷ [];
      },
      returned,
    )
unfolding handle_on_message handle_error settle_action
error_for_action sends code n name s h = rw (h, settle_action)
