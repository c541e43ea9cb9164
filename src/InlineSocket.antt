-- ===== src/InlineSocket.antt =====
-- `InlineWebSocketAdapter2` of packages/rivetkit/src/common/inline-websocket-adapter2.ts: a web
-- socket of a client in the same process. It stands on the handler that it is given and on hono's
-- `WSContext`, whose `send` and `close` call the functions that it was made with. All its methods
-- run synchronously, `#initialize` inside the constructor included. The listeners are the client's
-- code: that they ran is recorded, and they call nothing of the socket while they run.
pub mod Order
pub mod Delivery
pub mod Closing
use rivetkit.Base.{
  ℕ, Bool, true, false, Option, none, some, List, [], ◌∷◌, ◌++◌, ◌==◌, if◌then◌else◌, is_empty,
  find_index, remove_at,
}

pub data ReadyState : Type 0 where
  connecting_state : ReadyState
  open_state : ReadyState
  closing_state : ReadyState
  closed_state : ReadyState

pub data EventType : Type 0 where
  on_open : EventType
  on_close : EventType
  on_error : EventType
  on_message : EventType

abbrev pub same_type : EventType → EventType → Bool
same_type on_open on_open = true
same_type on_close on_close = true
same_type on_error on_error = true
same_type on_message on_message = true
same_type _ _ = false

-- An event: its type and what it carries, the code of a close or the data of a message. The reason
-- of a close, a text that is only passed on, is left out.
pub data Event (A : Type 0) : Type 0 where
  opened : Event A
  close_of : ℕ → Event A
  failed : Event A
  message : A → Event A

-- What the handler does to its `WSContext`; a close without a code is a close with code 0.
pub data Command (A : Type 0) : Type 0 where
  send_data : A → Command A
  close_with : ℕ → Command A

-- What the handler does before its methods return, and whether `onOpen` throws then.
pub record Handler (A : Type 0) : Type 0 where
  pub opens : List (Command A)
  pub open_throws : Bool
  pub messages : A → List (Command A)
  pub closes : ℕ → List (Command A)

-- A call of `#dispatchEvent`: the listeners that it ran, and the handler of the property.
pub record Dispatch (A : Type 0) : Type 0 where
  pub event : Event A
  pub to : List ℕ
  pub property : Option ℕ

pub record Socket (A : Type 0) : Type 0 where
  pub ready_state : ReadyState
  pub queued_messages : List A
  pub buffered_events : List (Event A)
  pub event_listeners : EventType → List ℕ
  -- `onopen`, `onclose`, `onerror` and `onmessage`
  pub properties : EventType → Option ℕ
  pub log : List (Dispatch A)

module _ {A : Type 0} where
  abbrev pub type_of : Event A → EventType
  type_of opened = on_open
  type_of (close_of code) = on_close
  type_of failed = on_error
  type_of (message payload) = on_message

  abbrev pub fresh : Socket A
  fresh = record {
    ready_state = connecting_state;
    queued_messages = [];
    buffered_events = [];
    event_listeners = λ type. [];
    properties = λ type. none;
    log = [];
  }

  -- `#dispatchEvent`
  unfoldable pub dispatch_event : Event A → Socket A → Socket A
  dispatch_event e s =
      let type = type_of e in
      let called : Dispatch A = record {
        event = e;
        to = s.event_listeners type;
        property = s.properties type;
      } in
      record s {
        buffered_events =
            if is_empty (s.event_listeners type)
            then s.buffered_events ++ e ∷ []
            else s.buffered_events;
        log = s.log ++ called ∷ [];
      }

  unfoldable pub dispatch_all : List (Event A) → Socket A → Socket A
  unfolding dispatch_event
  dispatch_all [] s = s
  dispatch_all (e ∷ es) s = dispatch_all es (dispatch_event e s)

  -- `#handleMessage`
  unfoldable pub handle_message : A → Socket A → Socket A
  unfolding dispatch_event
  handle_message payload s = elim s.ready_state [
    | open_state ↦ dispatch_event (message payload) s
    | _ ↦ record s { queued_messages = s.queued_messages ++ payload ∷ [] }
  ]

  unfoldable pub handle_messages : List A → Socket A → Socket A
  unfolding handle_message
  handle_messages [] s = s
  handle_messages (payload ∷ rest) s = handle_messages rest (handle_message payload s)

  -- `#handleClose`; the code 0 stands for 1000.
  unfoldable pub handle_close : ℕ → Socket A → Socket A
  unfolding dispatch_event
  handle_close code s = elim s.ready_state [
    | closed_state ↦ s
    | _ ↦
        dispatch_event (close_of (if code == 0 then 1000 else code))
          (record s { ready_state = closed_state })
  ]

  unfoldable pub run : List (Command A) → Socket A → Socket A
  unfolding handle_message handle_close
  run [] s = s
  run (send_data payload ∷ rest) s = run rest (handle_message payload s)
  run (close_with code ∷ rest) s = run rest (handle_close code s)

  -- `close(code, reason)`
  unfoldable pub close : Handler A → ℕ → Socket A → Socket A
  unfolding run dispatch_event
  close handler code s = elim s.ready_state [
    | closed_state ↦ s
    | closing_state ↦ s
    | _ ↦
        dispatch_event (close_of code)
          (record (run (handler.closes code) (record s { ready_state = closing_state })) {
            ready_state = closed_state;
          })
  ]

  -- `#initialize` behind `onOpen`: the socket is open, and the messages that it queued are handled.
  -- Nothing closes the socket between the two, so that the source's test for that is left out.
  unfoldable pub become_open : Socket A → Socket A
  unfolding dispatch_event handle_messages
  become_open s =
      let t : Socket A = dispatch_event opened (record s { ready_state = open_state }) in
      handle_messages t.queued_messages (record t { queued_messages = [] })

  -- `#initialize`
  unfoldable pub initialize : Handler A → Socket A → Socket A
  unfolding run become_open dispatch_event close
  initialize handler s =
      let t = run handler.opens s in
      if handler.open_throws then close handler 1011 (dispatch_event failed t) else become_open t

  -- The constructor.
  unfoldable pub construct : Handler A → Socket A
  unfolding initialize
  construct handler = initialize handler fresh

  -- `send(data)`
  unfoldable pub send : Handler A → A → Socket A → Socket A
  unfolding run dispatch_event
  send handler payload s = elim s.ready_state [
    | open_state ↦ run (handler.messages payload) s
    | _ ↦ dispatch_event failed s
  ]

  abbrev pub events_of : EventType → List (Event A) → List (Event A)
  events_of type [] = []
  events_of type (e ∷ es) =
      let rest = events_of type es in if same_type (type_of e) type then e ∷ rest else rest

  abbrev pub events_but : EventType → List (Event A) → List (Event A)
  events_but type [] = []
  events_but type (e ∷ es) =
      let rest = events_but type es in if same_type (type_of e) type then rest else e ∷ rest

  -- `#flushBufferedEvents`
  unfoldable pub flush_buffered_events : EventType → Socket A → Socket A
  unfolding dispatch_all
  flush_buffered_events type s =
      dispatch_all (events_of type s.buffered_events)
        (record s { buffered_events = events_but type s.buffered_events })

  -- `addEventListener`
  unfoldable pub add_event_listener : EventType → ℕ → Socket A → Socket A
  unfolding flush_buffered_events
  add_event_listener type listener s = flush_buffered_events type (record s {
    event_listeners =
        λ t. if same_type type t then s.event_listeners t ++ listener ∷ [] else s.event_listeners t;
  })

  -- `removeEventListener`
  unfoldable pub remove_event_listener : EventType → ℕ → Socket A → Socket A
  remove_event_listener type listener s =
      elim (find_index (λ l. l == listener) (s.event_listeners type)) [
        | none ↦ s
        | some i ↦ record s {
          event_listeners = λ t.
              if same_type type t then remove_at i (s.event_listeners t) else s.event_listeners t;
        }
      ]

  -- The setters of `onopen`, `onclose`, `onerror` and `onmessage`.
  unfoldable pub set_property : EventType → Option ℕ → Socket A → Socket A
  set_property type handler s = record s {
    properties = λ t. if same_type type t then handler else s.properties t;
  }
