-- ===== src/InlineSocket/Order.antt =====
-- What becomes of the messages that the handler sends to the client.
use rivetkit.Base.{
  ℕ, Bool, true, false, ◌≡◌, refl, sym, ap, ◌∙◌, List, [], ◌∷◌, ◌++◌, append_assoc, append-nil,
  is_empty, if◌then◌else◌, ◌==◌, arith,
}
use rivetkit.InlineSocket.{
  ReadyState, open_state, closing_state, closed_state, on_message, Event, opened, close_of, failed,
  message, Command, send_data, close_with, Handler, Dispatch, Socket, type_of, dispatch_event,
  handle_message, handle_messages, handle_close, run, close, become_open,
}

module _ {A : Type 0} where
  abbrev pub messages_of : List (Event A) → List A
  messages_of [] = []
  messages_of (message payload ∷ es) = payload ∷ messages_of es
  messages_of (opened ∷ es) = messages_of es
  messages_of (close_of code ∷ es) = messages_of es
  messages_of (failed ∷ es) = messages_of es

  -- The messages that a dispatch brings to at least one listener.
  abbrev pub delivers : Dispatch A → List A
  delivers d = if is_empty d.to then [] else messages_of (d.event ∷ [])

  abbrev pub delivered : List (Dispatch A) → List A
  delivered [] = []
  delivered (d ∷ log) = delivers d ++ delivered log

  abbrev pub sent_by : List (Command A) → List A
  sent_by [] = []
  sent_by (send_data payload ∷ cs) = payload ∷ sent_by cs
  sent_by (close_with code ∷ cs) = sent_by cs

  pub messages_of-append :
      (xs ys : List (Event A)) → messages_of (xs ++ ys) ≡ messages_of xs ++ messages_of ys
  messages_of-append [] ys = refl
  messages_of-append (message payload ∷ es) ys = ap (λ r. payload ∷ r) (messages_of-append es ys)
  messages_of-append (opened ∷ es) ys = messages_of-append es ys
  messages_of-append (close_of code ∷ es) ys = messages_of-append es ys
  messages_of-append (failed ∷ es) ys = messages_of-append es ys

  pub delivered-append :
      (xs ys : List (Dispatch A)) → delivered (xs ++ ys) ≡ delivered xs ++ delivered ys
  delivered-append [] ys = refl
  delivered-append (d ∷ xs) ys =
      ap (λ r. delivers d ++ r) (delivered-append xs ys)
      ∙ sym (append_assoc (delivers d) (delivered xs) (delivered ys))

  -- The server's messages in the order of their sending, as the socket holds them.
  abbrev pub received : Socket A → List A
  received s = delivered s.log ++ messages_of s.buffered_events ++ s.queued_messages

  -- An open socket queues nothing, and with a listener it buffers no message.
  abbrev pub IsSettled : Socket A → Type 0
  IsSettled s =
      (s.ready_state ≡ open_state → s.queued_messages ≡ [])
      × (is_empty (s.event_listeners on_message) ≡ false → messages_of s.buffered_events ≡ [])

  pub dispatch_event-delivered :
      (e : Event A) (s : Socket A)
      → delivered (dispatch_event e s).log
        ≡ delivered s.log
          ++ (if is_empty (s.event_listeners (type_of e)) then [] else messages_of (e ∷ []))
  unfolding dispatch_event
  dispatch_event-delivered e s =
      delivered-append s.log _ ∙ ap (λ r. delivered s.log ++ r) (append-nil _)

  pub dispatch_event-buffered :
      (e : Event A) (s : Socket A)
      → messages_of (dispatch_event e s).buffered_events
        ≡ messages_of s.buffered_events
          ++ (if is_empty (s.event_listeners (type_of e)) then messages_of (e ∷ []) else [])
  unfolding dispatch_event
  dispatch_event-buffered e s = ground (
    arith,
    messages_of-append s.buffered_events (e ∷ []),
    append-nil (messages_of s.buffered_events),
  )

  dispatch_event-other :
      (e : Event A) (s : Socket A)
      → messages_of (e ∷ []) ≡ []
      → (received (dispatch_event e s) ≡ received s)
        × (IsSettled s → IsSettled (dispatch_event e s))
  unfolding dispatch_event
  dispatch_event-other e s h = ground (
    arith,
    dispatch_event-delivered e s,
    dispatch_event-buffered e s,
    append-nil (messages_of s.buffered_events),
    append-nil (delivered s.log),
    h,
  )

  pub dispatch_event-queued :
      (e : Event A) (s : Socket A) → (dispatch_event e s).queued_messages ≡ s.queued_messages
  unfolding dispatch_event
  dispatch_event-queued e s = refl

  -- Whether a last message goes behind the delivered ones or behind the buffered ones, it is last.
  last_message :
      (b : Bool) (payload : A) (ds ms : List A)
      → (b ≡ false → ms ≡ [])
      → ds ++ (if b then [] else payload ∷ []) ++ (ms ++ (if b then payload ∷ [] else []))
        ≡ ds ++ ms ++ payload ∷ []
  last_message true payload ds ms h =
      ap (λ d. d ++ (ms ++ payload ∷ [])) (append-nil ds) ∙ sym (append_assoc ds ms (payload ∷ []))
  last_message false payload ds ms h =
      ap (λ m. ds ++ payload ∷ [] ++ m) (append-nil ms ∙ h refl)
      ∙ append-nil (ds ++ payload ∷ [])
      ∙ ap (λ d. d ++ payload ∷ []) (sym (append-nil ds) ∙ ap (λ m. ds ++ m) (sym (h refl)))

  dispatch_message-received :
      (payload : A) (s : Socket A)
      → s.queued_messages ≡ []
      → IsSettled s
      → received (dispatch_event (message payload) s) ≡ received s ++ payload ∷ []
  dispatch_message-received payload s q h =
      rw
        (
          dispatch_event-delivered (message payload) s,
          dispatch_event-buffered (message payload) s,
          dispatch_event-queued (message payload) s,
          q,
          append-nil (delivered s.log ++ messages_of s.buffered_events),
          append-nil,
        )
        (last_message (is_empty (s.event_listeners on_message)) payload (delivered s.log)
          (messages_of s.buffered_events) h.1)

  dispatch_message-IsSettled :
      (payload : A) (s : Socket A) → IsSettled s → IsSettled (dispatch_event (message payload) s)
  unfolding dispatch_event
  dispatch_message-IsSettled payload s h = ground arith

  -- A state after the messages `sent`: they are all there, in order.
  abbrev pub IsInOrder : List A → Socket A → Type 0
  IsInOrder sent s = (received s ≡ sent) × IsSettled s

  pub handle_message-IsInOrder :
      (payload : A) (sent : List A) (s : Socket A)
      → IsInOrder sent s
      → IsInOrder (sent ++ payload ∷ []) (handle_message payload s)
  unfolding handle_message
  handle_message-IsInOrder payload sent s h = ground (
    arith,
    dispatch_message-received payload s,
    dispatch_message-IsSettled payload s,
    append_assoc (delivered s.log ++ messages_of s.buffered_events) s.queued_messages
        (payload ∷ []),
  )

  pub handle_close-IsInOrder :
      (code : ℕ) (sent : List A) (s : Socket A)
      → IsInOrder sent s
      → IsInOrder sent (handle_close code s)
  unfolding handle_close
  handle_close-IsInOrder code sent s h = ground (
    arith,
    dispatch_event-other (close_of (if code == 0 then 1000 else code))
        (record s { ready_state = closed_state }) refl,
  )

  pub run-IsInOrder :
      (cs : List (Command A)) (sent : List A) (s : Socket A)
      → IsInOrder sent s
      → IsInOrder (sent ++ sent_by cs) (run cs s)
  unfolding run
  run-IsInOrder [] sent s h = (h.0 ∙ sym (append-nil sent), h.1)
  run-IsInOrder (send_data payload ∷ cs) sent s h =
      rw (← append_assoc sent (payload ∷ []) (sent_by cs))
        (run-IsInOrder cs _ (handle_message payload s) (handle_message-IsInOrder payload sent s h))
  run-IsInOrder (close_with code ∷ cs) sent s h =
      run-IsInOrder cs sent (handle_close code s) (handle_close-IsInOrder code sent s h)

  handle_messages-IsInOrder :
      (ps sent : List A) (s : Socket A)
      → IsInOrder sent s
      → IsInOrder (sent ++ ps) (handle_messages ps s)
  unfolding handle_messages
  handle_messages-IsInOrder [] sent s h = (h.0 ∙ sym (append-nil sent), h.1)
  handle_messages-IsInOrder (payload ∷ ps) sent s h = rw (← append_assoc sent (payload ∷ []) ps) (
      handle_messages-IsInOrder ps _ (handle_message payload s)
        (handle_message-IsInOrder payload sent s h))

  set_ready-IsInOrder :
      (state : ReadyState) (sent : List A) (s : Socket A)
      → (state ≡ open_state → s.queued_messages ≡ [])
      → IsInOrder sent s
      → IsInOrder sent (record s { ready_state = state })
  set_ready-IsInOrder state sent s q h = (h.0, (q, h.1.1))

  pub dispatch-IsInOrder :
      (e : Event A) (sent : List A) (s : Socket A)
      → messages_of (e ∷ []) ≡ []
      → IsInOrder sent s
      → IsInOrder sent (dispatch_event e s)
  dispatch-IsInOrder e sent s n h =
      ((dispatch_event-other e s n).0 ∙ h.0, (dispatch_event-other e s n).1 h.1)

  pub become_open-IsInOrder :
      (sent : List A) (s : Socket A) → IsInOrder sent s → IsInOrder sent (become_open s)
  unfolding become_open dispatch_event
  become_open-IsInOrder sent s h =
      let emptied : Socket A = record s { ready_state = open_state; queued_messages = [] } in
      let held = delivered s.log ++ messages_of s.buffered_events in
      let t = dispatch_event opened emptied in
      let done =
        handle_messages-IsInOrder s.queued_messages held t
          (dispatch-IsInOrder opened held emptied refl (append-nil held, ((λ e. refl), h.1.1))) in
      (done.0 ∙ h.0, done.1)

  -- What the handler sends in `onClose`, where `close` gets there.
  abbrev pub sent_on_close : Handler A → ℕ → Socket A → List A
  sent_on_close handler code s = elim s.ready_state [
    | closed_state ↦ []
    | closing_state ↦ []
    | _ ↦ sent_by (handler.closes code)
  ]

  closing-IsInOrder :
      (handler : Handler A) (code : ℕ) (sent : List A) (s : Socket A)
      → IsInOrder sent s
      → IsInOrder (sent ++ sent_by (handler.closes code)) (
          dispatch_event
            (close_of code)
            (record (run (handler.closes code) (record s { ready_state = closing_state })) {
              ready_state = closed_state;
            }))
  closing-IsInOrder handler code sent s h =
      let asked = record s { ready_state = closing_state } in
      dispatch-IsInOrder (close_of code) _ _ refl (
        set_ready-IsInOrder closed_state _ (run (handler.closes code) asked) (λ e. ground arith)
          (run-IsInOrder (handler.closes code) sent asked
            (set_ready-IsInOrder closing_state sent s (λ e. ground arith) h)))

  pub close-IsInOrder :
      (handler : Handler A) (code : ℕ) (sent : List A) (s : Socket A)
      → IsInOrder sent s
      → IsInOrder (sent ++ sent_on_close handler code s) (close handler code s)
  unfolding close
  close-IsInOrder handler code sent s h =
      ground (arith, closing-IsInOrder handler code sent s, append-nil sent)
