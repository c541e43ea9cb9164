-- ===== src/Tests/Sockets.antt =====
-- In-process web sockets: packages/rivetkit/src/common/inline-websocket-adapter2.ts.
use rivetkit.Base.{ℕ, ◌≡◌, refl, false, List, [], ◌∷◌, ◌++◌, is_empty}
use rivetkit.InlineSocket.{
  open_state, closed_state, on_message, send_data, close_with, Handler, Socket, construct,
  initialize, run, become_open, dispatch_event, dispatch_all, handle_message, handle_messages,
  handle_close, send, add_event_listener, flush_buffered_events,
}
use rivetkit.InlineSocket.Order.{received, delivered}
use rivetkit.InlineSocket.Delivery.{
  Step, Reach, sent_at_start, sent_on_send, Reach-received, Reach-delivered,
}

-- A handler that greets, echoes, and closes the socket when the client does.
abbrev handler : Handler ℕ
handler = record {
  opens = send_data 5 ∷ [];
  open_throws = false;
  messages = λ payload. send_data payload ∷ [];
  closes = λ code. close_with 1000 ∷ [];
}

abbrev made : Socket ℕ
made = construct handler

abbrev listening : Socket ℕ
listening = add_event_listener on_message 1 made

abbrev echoed : Socket ℕ
echoed = send handler 6 listening

abbrev sent : List ℕ
sent = sent_at_start handler ++ [] ++ sent_on_send handler 6 listening

echoed-Reach : Reach handler sent echoed
echoed-Reach =
    Reach.next (Reach.next Reach.here (Step.listens on_message 1 made)) (Step.sends 6 listening)

echoed_state :
    (echoed.ready_state ≡ open_state) × (is_empty (echoed.event_listeners on_message) ≡ false)
unfolding construct initialize run become_open dispatch_event handle_message handle_messages
    add_event_listener flush_buffered_events dispatch_all send
echoed_state = (refl, refl)

Reach-received_example : received echoed ≡ sent
Reach-received_example = Reach-received handler echoed-Reach

Reach-delivered_example : delivered echoed.log ≡ sent
Reach-delivered_example = Reach-delivered handler echoed-Reach echoed_state.0 echoed_state.1

-- The greeting waited for the listener.
sent_run : (sent ≡ 5 ∷ 6 ∷ []) × (delivered made.log ≡ [])
unfolding construct initialize run become_open dispatch_event handle_message handle_messages
    add_event_listener flush_buffered_events dispatch_all send
sent_run = (refl, refl)

abbrev hung_up : Socket ℕ
hung_up = handle_close 0 made

hung_up_state : hung_up.ready_state ≡ closed_state
unfolding construct initialize run become_open dispatch_event handle_message handle_messages
    handle_close
hung_up_state = refl

-- A handler that refuses the client in `onOpen`.
abbrev refusing : Handler ℕ
refusing = record {
  opens = close_with 1011 ∷ [];
  open_throws = false;
  messages = λ payload. [];
  closes = λ code. [];
}
