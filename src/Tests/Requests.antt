-- ===== src/Tests/Requests.antt =====
-- The client's connection: packages/rivetkit/src/client/actor-conn.ts.
use rivetkit.Base.{◌≡◌, true, refl, none, some, [], ◌∷◌}
use rivetkit.Client.Conn.{
  ConnState, action_request, subscription_request, init, action_response, websocket, action,
  handle_on_message, returned, resolved,
}
use rivetkit.Client.Conn.Requests.{IsAccounted}
use rivetkit.Client.Conn.Reach.{fresh, Reach, here, next, calls, receives, Reach-IsAccounted}
use rivetkit.Client.Conn.Queue.{init_flushes}

-- Two actions are called, then the second is answered.
abbrev called_twice : ConnState
called_twice = (action true 5 (2 ∷ []) (action true 4 (1 ∷ []) fresh).0).0

abbrev answered : ConnState
answered = (handle_on_message true (action_response 1 (9 ∷ [])) called_twice).0

called_twice-Reach : Reach called_twice
called_twice-Reach =
    next (next here (calls true 4 (1 ∷ []) fresh))
      (calls true 5 (2 ∷ []) (action true 4 (1 ∷ []) fresh).0)

Reach-IsAccounted_example : IsAccounted answered
Reach-IsAccounted_example =
    Reach-IsAccounted
      (next called_twice-Reach (receives true (action_response 1 (9 ∷ [])) called_twice))

answered_run :
    (answered.actions_in_flight ≡ (0, 4) ∷ []) × (answered.settled ≡ (1, resolved (9 ∷ [])) ∷ [])
unfolding handle_on_message action
answered_run = (refl, refl)

-- A connection that listens to an event for one time, with a queued message.
abbrev listening : ConnState
listening = record fresh {
  transport = some (websocket true);
  message_queue = action_request 0 4 [] ∷ [];
  actions_in_flight = (0, 4) ∷ (1, 6) ∷ [];
  event_subscriptions = (7, record { callback = 3; once = true } ∷ []) ∷ [];
  action_id_counter = 2;
}

init_flushes_example : handle_on_message true (init 1 2 3) listening ≡ (
  record listening {
    identity = some (1, 2, 3);
    message_queue = [];
    sent = subscription_request 7 true ∷ action_request 0 4 [] ∷ [];
  },
  returned,
)
init_flushes_example = init_flushes 1 2 3 listening refl refl

abbrev not_open : ConnState
not_open = record listening { transport = none }
