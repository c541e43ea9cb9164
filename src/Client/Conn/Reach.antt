-- ===== src/Client/Conn/Reach.antt =====
-- The states that a connection reaches, and what holds of their requests.
use rivetkit.Base.{ℕ, Bool, false, none, [], arith}
use rivetkit.Client.Conn.State.{
  Value, ToServer, ToClient, Transport, Listener, ConnState, http_message_fails, action,
  handle_on_message, handle_on_close, add_event_subscription, unsubscribe, dispose, undefined,
}
use rivetkit.Client.Conn.Connecting.{
  connect_with_retry, begin_attempt, set_transport, attempt_fails, end_attempt,
}
use rivetkit.Client.Conn.Requests.{
  IsAccounted, same-IsAccounted, action-IsAccounted, handle_on_message-IsAccounted,
  add_event_subscription_same, unsubscribe_same,
}

-- The steps of a connection: its own calls, what the transport reports, and the transport itself.
pub data Step : ConnState → ConnState → Type 0 where
  calls :
      (sends : Bool) (name : ℕ) (args : Value) (s : ConnState) → Step s (action sends name args s).0
  receives : (sends : Bool) (m : ToClient) (s : ConnState) → Step s (handle_on_message sends m s).0
  closes : (s : ConnState) → Step s (handle_on_close s)
  listens :
      (sends : Bool) (name : ℕ) (l : Listener) (s : ConnState)
      → Step s (add_event_subscription sends name l s).0
  unlistens :
      (sends : Bool) (name callback : ℕ) (s : ConnState)
      → Step s (unsubscribe sends name callback s).0
  request_fails :
      (ephemeral : Bool) (m : ToServer) (s : ConnState) → Step s (http_message_fails ephemeral m s)
  disposes : (s : ConnState) → Step s (dispose s)
  retries : (s : ConnState) → Step s (connect_with_retry s)
  attempts : (s : ConnState) → Step s (begin_attempt s).0
  connects : (t : Transport) (s : ConnState) → Step s (set_transport t s)
  fails : (s : ConnState) → Step s (attempt_fails s)
  ends : (s : ConnState) → Step s (end_attempt s)

-- A connection that was constructed.
abbrev pub fresh : ConnState
fresh = record {
  disposed = false;
  connecting = false;
  identity = none;
  transport = none;
  on_open_promise = undefined;
  message_queue = [];
  actions_in_flight = [];
  event_subscriptions = [];
  action_id_counter = 0;
  sent = [];
  settled = [];
  called = [];
  actor_errors = [];
}

pub data Reach : ConnState → Type 0 where
  here : Reach fresh
  next : {s t : ConnState} → Reach s → Step s t → Reach t

Step-IsAccounted : {s t : ConnState} → Step s t → IsAccounted s → IsAccounted t
Step-IsAccounted (calls sends name args s) h = action-IsAccounted sends name args s h
Step-IsAccounted (receives sends m s) h = handle_on_message-IsAccounted sends m s h
Step-IsAccounted (closes s) h = unfold handle_on_close in h
Step-IsAccounted (listens sends name l s) h =
    same-IsAccounted s (add_event_subscription sends name l s).0
      (add_event_subscription_same sends name l s) h
Step-IsAccounted (unlistens sends name callback s) h =
    same-IsAccounted s (unsubscribe sends name callback s).0
      (unsubscribe_same sends name callback s) h
Step-IsAccounted (request_fails ephemeral m s) h =
    same-IsAccounted s (http_message_fails ephemeral m s)
      (unfold http_message_fails in ground arith) h
Step-IsAccounted (disposes s) h = same-IsAccounted s (dispose s) (unfold dispose in ground arith) h
Step-IsAccounted (retries s) h = unfold connect_with_retry in h
Step-IsAccounted (attempts s) h =
    same-IsAccounted s (begin_attempt s).0 (unfold begin_attempt in ground arith) h
Step-IsAccounted (connects t s) h = unfold set_transport in h
Step-IsAccounted (fails s) h = unfold attempt_fails in h
Step-IsAccounted (ends s) h =
    same-IsAccounted s (end_attempt s) (unfold end_attempt in ground arith) h

-- Whatever a constructed connection calls, receives and closes: of each id below the counter
-- the request is either in flight or its promise has been settled once, never both and never
-- twice, and no other id is in flight or settled.
pub Reach-IsAccounted : {s : ConnState} → Reach s → IsAccounted s
Reach-IsAccounted here = λ i. ground arith
Reach-IsAccounted (next r st) = Step-IsAccounted st (Reach-IsAccounted r)
