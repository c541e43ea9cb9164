-- ===== src/InlineSocket/Closing.antt =====
-- How a socket closes.
use rivetkit.Base.{
  ℕ, Bool, true, false, ◌≡◌, ◌≢◌, refl, ap, ◌∙◌, List, [], ◌∷◌, ◌++◌, ◌+◌, ◌==◌, if◌then◌else◌,
  option_elim, find_index, arith,
}
use rivetkit.InlineSocket.{
  open_state, closing_state, closed_state, on_close, same_type, Event, close_of, failed, message,
  Command, send_data, close_with, Handler, Dispatch, Socket, type_of, dispatch_event, dispatch_all,
  handle_message, handle_messages, handle_close, run, close, become_open, initialize, construct,
  send, fresh, events_of, flush_buffered_events, add_event_listener, remove_event_listener,
  set_property,
}
use rivetkit.InlineSocket.Delivery.{Step}

module _ {A : Type 0} where
  dispatch_all-ready :
      (es : List (Event A)) (s : Socket A) → (dispatch_all es s).ready_state ≡ s.ready_state
  unfolding dispatch_all dispatch_event
  dispatch_all-ready [] s = refl
  dispatch_all-ready (e ∷ es) s = dispatch_all-ready es (dispatch_event e s)

  handle_messages-ready :
      (ps : List A) (s : Socket A) → (handle_messages ps s).ready_state ≡ s.ready_state
  unfolding handle_messages handle_message dispatch_event
  handle_messages-ready [] s = refl
  handle_messages-ready (p ∷ ps) s = handle_messages-ready ps (handle_message p s) ∙ ground arith

  become_open-ready : (s : Socket A) → (become_open s).ready_state ≡ open_state
  unfolding become_open dispatch_event
  become_open-ready s = handle_messages-ready s.queued_messages _

  -- A closed socket stays closed, whatever client and server do with it.
  pub closed-Step :
      (handler : Handler A) {sent : List A} {s t : Socket A}
      → Step handler sent s t
      → s.ready_state ≡ closed_state
      → t.ready_state ≡ closed_state
  closed-Step handler (Step.server_sends payload s) h = unfold handle_message in ground arith
  closed-Step handler (Step.server_closes code s) h = unfold handle_close in ground arith
  closed-Step handler (Step.sends payload s) h = unfold send dispatch_event in ground arith
  closed-Step handler (Step.closes code s) h = unfold close in ground arith
  closed-Step handler (Step.listens type listener s) h =
      unfold add_event_listener flush_buffered_events in
      dispatch_all-ready (events_of type s.buffered_events) _ ∙ h
  closed-Step handler (Step.unlistens type listener s) h =
      unfold remove_event_listener in
      option_elim (λ t. t.ready_state ≡ closed_state)
        (find_index (λ l. l == listener) (s.event_listeners type)) s _ (λ e. h) (λ i e. h)
  closed-Step handler (Step.sets type property s) h = unfold set_property in h

  -- The dispatches of close events.
  abbrev pub closings : List (Dispatch A) → ℕ
  closings [] = 0
  closings (d ∷ log) = (if same_type (type_of d.event) on_close then 1 else 0) + closings log

  abbrev pub has_close : List (Command A) → Bool
  has_close [] = false
  has_close (send_data payload ∷ cs) = has_close cs
  has_close (close_with code ∷ cs) = true

  closings-append :
      (log : List (Dispatch A)) (d : Dispatch A)
      → closings (log ++ d ∷ [])
        ≡ closings log + (if same_type (type_of d.event) on_close then 1 else 0)
  closings-append [] d = ground arith
  closings-append (c ∷ log) d = omega (arith, closings-append log d)

  dispatch_event-closings :
      (e : Event A) (s : Socket A)
      → closings (dispatch_event e s).log
        ≡ closings s.log + (if same_type (type_of e) on_close then 1 else 0)
  unfolding dispatch_event
  dispatch_event-closings e s = closings-append s.log _

  handle_message-closings :
      (payload : A) (s : Socket A) → closings (handle_message payload s).log ≡ closings s.log
  unfolding handle_message
  handle_message-closings payload s = ground (arith, dispatch_event-closings (message payload) s)

  handle_message-ready :
      (payload : A) (s : Socket A) → (handle_message payload s).ready_state ≡ s.ready_state
  unfolding handle_message dispatch_event
  handle_message-ready payload s = ground arith

  handle_close-ready : (code : ℕ) (s : Socket A) → (handle_close code s).ready_state ≡ closed_state
  unfolding handle_close dispatch_event
  handle_close-ready code s = ground arith

  run-ready :
      (cs : List (Command A)) (s : Socket A)
      → (run cs s).ready_state ≡ (if has_close cs then closed_state else s.ready_state)
  unfolding run
  run-ready [] s = refl
  run-ready (send_data payload ∷ cs) s =
      ground (arith, run-ready cs (handle_message payload s), handle_message-ready payload s)
  run-ready (close_with code ∷ cs) s =
      ground (arith, run-ready cs (handle_close code s), handle_close-ready code s)

  close-ready :
      (handler : Handler A) (code : ℕ) (s : Socket A)
      → s.ready_state ≢ closing_state
      → (close handler code s).ready_state ≡ closed_state
  unfolding close dispatch_event
  close-ready handler code s h = ground arith

  run_closed-closings :
      (cs : List (Command A)) (s : Socket A)
      → s.ready_state ≡ closed_state
      → closings (run cs s).log ≡ closings s.log
  unfolding run
  run_closed-closings [] s h = refl
  run_closed-closings (send_data payload ∷ cs) s h =
      run_closed-closings cs (handle_message payload s) (handle_message-ready payload s ∙ h)
      ∙ handle_message-closings payload s
  run_closed-closings (close_with code ∷ cs) s h =
      run_closed-closings cs (handle_close code s) (handle_close-ready code s)
      ∙ unfold handle_close in ground arith

  handle_close-closings :
      (code : ℕ) (s : Socket A)
      → s.ready_state ≡ closing_state
      → closings (handle_close code s).log ≡ closings s.log + 1
  unfolding handle_close
  handle_close-closings code s h = ground (
    arith,
    dispatch_event-closings (close_of (if code == 0 then 1000 else code))
        (record s { ready_state = closed_state }),
  )

  run_closing-closings :
      (cs : List (Command A)) (s : Socket A)
      → s.ready_state ≡ closing_state
      → closings (run cs s).log ≡ closings s.log + (if has_close cs then 1 else 0)
  unfolding run
  run_closing-closings [] s h = ground arith
  run_closing-closings (send_data payload ∷ cs) s h =
      run_closing-closings cs (handle_message payload s) (handle_message-ready payload s ∙ h)
      ∙ ap (λ n. n + (if has_close cs then 1 else 0)) (handle_message-closings payload s)
  run_closing-closings (close_with code ∷ cs) s h =
      run_closed-closings cs (handle_close code s) (handle_close-ready code s)
      ∙ handle_close-closings code s h

  -- The constructor leaves a socket open exactly if the handler's `onOpen` does not throw, and closed
  -- otherwise: a handler that closes the socket in `onOpen` has it opened again.
  pub construct-ready :
      (handler : Handler A)
      → (construct handler).ready_state ≡ (if handler.open_throws then closed_state else open_state)
  unfolding construct initialize dispatch_event
  construct-ready handler =
      let t = run handler.opens fresh in
      ground (
        arith,
        become_open-ready t,
        close-ready handler 1011 (dispatch_event failed t),
        run-ready handler.opens fresh,
      )

  -- Closing an open socket dispatches the close event once, and a second time if the handler's
  -- `onClose` closes the socket too.
  pub close-closings :
      (handler : Handler A) (code : ℕ) (s : Socket A)
      → s.ready_state ≡ open_state
      → closings (close handler code s).log
        ≡ closings s.log + (if has_close (handler.closes code) then 2 else 1)
  unfolding close
  close-closings handler code s h =
      let asked : Socket A = record s { ready_state = closing_state } in
      let done : Socket A = record (run (handler.closes code) asked) {
        ready_state = closed_state;
      } in
      ground (
        arith,
        dispatch_event-closings (close_of code) done,
        run_closing-closings (handler.closes code) asked refl,
      )
