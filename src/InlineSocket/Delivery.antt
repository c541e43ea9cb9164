-- ===== src/InlineSocket/Delivery.antt =====
-- The states that a socket reaches, and the messages that its listeners get.
use rivetkit.Base.{
  ℕ, true, false, ◌≡◌, refl, sym, ap, ◌∙◌, Option, List, [], ◌∷◌, ◌++◌, append_assoc, append-nil,
  is_empty, find_index, remove_at, if◌then◌else◌, option_elim, ◌==◌, arith,
}
use rivetkit.InlineSocket.{
  open_state, EventType, on_message, same_type, Event, opened, close_of, failed, message, Handler,
  Socket, type_of, dispatch_event, dispatch_all, handle_message, handle_close, run, close,
  initialize, construct, send, fresh, events_of, events_but, flush_buffered_events,
  add_event_listener, remove_event_listener, set_property,
}
use rivetkit.InlineSocket.Order.{
  messages_of, delivered, sent_by, messages_of-append, dispatch_event-delivered,
  dispatch_event-queued, received, IsInOrder, handle_message-IsInOrder, handle_close-IsInOrder,
  run-IsInOrder, become_open-IsInOrder, dispatch-IsInOrder, sent_on_close, close-IsInOrder,
}

same_type→eq : (a b : EventType) → same_type a b ≡ true → a ≡ b
same_type→eq a b h = ground arith

listened :
    (type : EventType) (ls : List ℕ) (listener : ℕ)
    → is_empty (if same_type type type then ls ++ listener ∷ [] else ls) ≡ false
listened type [] listener = ground arith
listened type (l ∷ ls) listener = ground arith

remove_at-is_empty : (i : ℕ) (ls : List ℕ) → is_empty (remove_at i ls) ≡ false → is_empty ls ≡ false
remove_at-is_empty i [] h = ground arith
remove_at-is_empty i (l ∷ ls) h = refl

module _ {A : Type 0} where
  -- An event that has a listener is not buffered.
  dispatch_listened :
      (e : Event A) (s : Socket A)
      → is_empty (s.event_listeners (type_of e)) ≡ false
      → (delivered (dispatch_event e s).log ≡ delivered s.log ++ messages_of (e ∷ []))
        × ((dispatch_event e s).buffered_events ≡ s.buffered_events)
        × ((dispatch_event e s).queued_messages ≡ s.queued_messages)
        × ((dispatch_event e s).ready_state ≡ s.ready_state)
        × ((dispatch_event e s).event_listeners ≡ s.event_listeners)
  dispatch_listened e s h = (
    (dispatch_event-delivered e s) ∙ rw h refl,
    unfold dispatch_event in rw h refl,
    dispatch_event-queued e s,
    unfold dispatch_event in refl,
    unfold dispatch_event in refl,
  )

  -- What the handler sends in `onMessage`, where `send` gets there.
  abbrev pub sent_on_send : Handler A → A → Socket A → List A
  sent_on_send handler payload s = elim s.ready_state [
    | open_state ↦ sent_by (handler.messages payload)
    | _ ↦ []
  ]

  send-IsInOrder :
      (handler : Handler A) (payload : A) (sent : List A) (s : Socket A)
      → IsInOrder sent s
      → IsInOrder (sent ++ sent_on_send handler payload s) (send handler payload s)
  unfolding send
  send-IsInOrder handler payload sent s h = ground (
    arith,
    run-IsInOrder (handler.messages payload) sent s,
    dispatch-IsInOrder failed sent s refl,
    append-nil sent,
  )

  -- What the handler sends while the socket is made.
  abbrev pub sent_at_start : Handler A → List A
  sent_at_start handler =
      sent_by handler.opens
      ++ (if handler.open_throws
          then sent_on_close handler 1011 (dispatch_event failed (run handler.opens fresh))
          else [])

  construct-IsInOrder :
      (handler : Handler A) → IsInOrder (sent_at_start handler) (construct handler)
  unfolding construct initialize
  construct-IsInOrder handler =
      let opens = run-IsInOrder handler.opens [] fresh (refl, ((λ e. refl), (λ e. refl))) in
      ground (
        arith,
        become_open-IsInOrder (sent_by handler.opens) (run handler.opens fresh) opens,
        append-nil (sent_by handler.opens),
        close-IsInOrder handler 1011 (sent_by handler.opens)
            (dispatch_event failed (run handler.opens fresh))
            (dispatch-IsInOrder failed (sent_by handler.opens) (run handler.opens fresh) refl
              opens),
      )

  dispatch_all-delivered :
      (type : EventType) (es : List (Event A)) (s : Socket A)
      → is_empty (s.event_listeners type) ≡ false
      → (delivered (dispatch_all (events_of type es) s).log
          ≡ delivered s.log ++ messages_of (events_of type es))
        × ((dispatch_all (events_of type es) s).buffered_events ≡ s.buffered_events)
        × ((dispatch_all (events_of type es) s).queued_messages ≡ s.queued_messages)
        × ((dispatch_all (events_of type es) s).ready_state ≡ s.ready_state)
        × ((dispatch_all (events_of type es) s).event_listeners ≡ s.event_listeners)
  unfolding dispatch_all
  dispatch_all-delivered type [] s h = (sym (append-nil (delivered s.log)), refl, refl, refl, refl)
  dispatch_all-delivered type (e ∷ es) s h = ground (
    arith,
    same_type→eq (type_of e) type,
    dispatch_listened e s,
    dispatch_all-delivered type es (dispatch_event e s),
    dispatch_all-delivered type es s,
    messages_of-append (e ∷ []) (events_of type es),
    append_assoc (delivered s.log) (messages_of (e ∷ [])) (messages_of (events_of type es)),
  )

  other_events :
      (type : EventType) (es : List (Event A))
      → same_type type on_message ≡ false
      → (messages_of (events_of type es) ≡ []) × (messages_of (events_but type es) ≡ messages_of es)
  other_events type [] h = (refl, refl)
  other_events type (message payload ∷ es) h = ground (arith, other_events type es)
  other_events type (opened ∷ es) h = ground (arith, other_events type es)
  other_events type (close_of code ∷ es) h = ground (arith, other_events type es)
  other_events type (failed ∷ es) h = ground (arith, other_events type es)

  message_events :
      (es : List (Event A))
      → (messages_of (events_of on_message es) ≡ messages_of es)
        × (messages_of (events_but on_message es) ≡ [])
  message_events [] = (refl, refl)
  message_events (message payload ∷ es) = ground (arith, message_events es)
  message_events (opened ∷ es) = message_events es
  message_events (close_of code ∷ es) = message_events es
  message_events (failed ∷ es) = message_events es

  add_event_listener-IsInOrder :
      (type : EventType) (listener : ℕ) (sent : List A) (s : Socket A)
      → IsInOrder sent s
      → IsInOrder sent (add_event_listener type listener s)
  unfolding add_event_listener flush_buffered_events
  add_event_listener-IsInOrder type listener sent s h =
      let b : Socket A = record s {
        buffered_events = events_but type s.buffered_events;
        event_listeners = λ t.
            if same_type type t then s.event_listeners t ++ listener ∷ [] else s.event_listeners t;
      } in
      let done =
        dispatch_all-delivered type s.buffered_events b
          (listened type (s.event_listeners type) listener) in
      ground (
        arith,
        done.0,
        done.1,
        done.2,
        done.3,
        ap (λ f. f on_message) done.4,
        same_type→eq type on_message,
        message_events s.buffered_events,
        other_events type s.buffered_events,
        append-nil (delivered s.log),
        append-nil (delivered s.log ++ messages_of s.buffered_events),
      )

  remove_event_listener-IsInOrder :
      (type : EventType) (listener : ℕ) (sent : List A) (s : Socket A)
      → IsInOrder sent s
      → IsInOrder sent (remove_event_listener type listener s)
  unfolding remove_event_listener
  remove_event_listener-IsInOrder type listener sent s h =
      option_elim (IsInOrder sent) (find_index (λ l. l == listener) (s.event_listeners type)) s _
        (λ e. h) (λ i e. ground (arith, remove_at-is_empty i (s.event_listeners on_message)))

  module _ (handler : Handler A) where
    -- The steps of a socket, each with the messages that the server sends during it.
    pub data Step : List A → Socket A → Socket A → Type 0 where
      server_sends : (payload : A) (s : Socket A) → Step (payload ∷ []) s (handle_message payload s)
      server_closes : (code : ℕ) (s : Socket A) → Step [] s (handle_close code s)
      sends :
          (payload : A) (s : Socket A)
          → Step (sent_on_send handler payload s) s (send handler payload s)
      closes :
          (code : ℕ) (s : Socket A) → Step (sent_on_close handler code s) s (close handler code s)
      listens :
          (type : EventType) (listener : ℕ) (s : Socket A)
          → Step [] s (add_event_listener type listener s)
      unlistens :
          (type : EventType) (listener : ℕ) (s : Socket A)
          → Step [] s (remove_event_listener type listener s)
      sets :
          (type : EventType) (property : Option ℕ) (s : Socket A)
          → Step [] s (set_property type property s)

    -- The states reached, each with all that the server has sent.
    pub data Reach : List A → Socket A → Type 0 where
      here : Reach (sent_at_start handler) (construct handler)
      next :
          {sent more : List A} {s t : Socket A}
          → Reach sent s
          → Step more s t
          → Reach (sent ++ more) t

    Step-IsInOrder :
        {sent more : List A} {s t : Socket A}
        → Step more s t
        → IsInOrder sent s
        → IsInOrder (sent ++ more) t
    Step-IsInOrder (server_sends payload s) h = handle_message-IsInOrder payload _ s h
    Step-IsInOrder (server_closes code s) h = rw append-nil (handle_close-IsInOrder code _ s h)
    Step-IsInOrder (sends payload s) h = send-IsInOrder handler payload _ s h
    Step-IsInOrder (closes code s) h = close-IsInOrder handler code _ s h
    Step-IsInOrder (listens type listener s) h =
        rw append-nil (add_event_listener-IsInOrder type listener _ s h)
    Step-IsInOrder (unlistens type listener s) h =
        rw append-nil (remove_event_listener-IsInOrder type listener _ s h)
    Step-IsInOrder (sets type property s) h = rw append-nil (unfold set_property in h)

    Reach-IsInOrder : {sent : List A} {s : Socket A} → Reach sent s → IsInOrder sent s
    Reach-IsInOrder here = construct-IsInOrder handler
    Reach-IsInOrder (next r st) = Step-IsInOrder st (Reach-IsInOrder r)

    -- In every state that a socket reaches, the messages that the server has sent are, in their
    -- order, those that listeners got which were added by `addEventListener`, then those that are
    -- buffered, then those that are queued: for these listeners none is lost, doubled or overtaken.
    -- The handler in the property `onmessage` is not counted.
    pub Reach-received : {sent : List A} {s : Socket A} → Reach sent s → received s ≡ sent
    Reach-received r = (Reach-IsInOrder r).0

    -- Once an open socket has a listener for messages, the listeners have got every message that
    -- the server has sent, in order.
    pub Reach-delivered :
        {sent : List A} {s : Socket A}
        → Reach sent s
        → s.ready_state ≡ open_state
        → is_empty (s.event_listeners on_message) ≡ false
        → delivered s.log ≡ sent
    Reach-delivered {s = s} r o l =
        let h = Reach-IsInOrder r in ground (arith, append-nil (delivered s.log))
