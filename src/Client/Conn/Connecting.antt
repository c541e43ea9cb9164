-- ===== src/Client/Conn/Connecting.antt =====
-- Connecting: `#connectWithRetry` and `#connectAndWait`, whose attempts do not overlap. The package
-- p-retry, which repeats an attempt that failed, is not modelled: the attempts are steps.
use rivetkit.Base.{Bool, true, false, some}
use rivetkit.Client.Conn.State.{
  ConnState, Transport, undefined, pending, open_resolved, open_rejected,
}

-- `#connectWithRetry` up to its first attempt.
unfoldable pub connect_with_retry : ConnState → ConnState
connect_with_retry s = record s { connecting = true }

-- `#connectAndWait` up to its first `await`, and whether it goes on: where there is a promise
-- already it throws, and its `finally` drops the promise.
unfoldable pub begin_attempt : ConnState → ConnState × Bool
begin_attempt s = elim s.on_open_promise [
  | undefined ↦ (record s { on_open_promise = pending }, true)
  | pending ↦ (record s { on_open_promise = undefined }, false)
  | open_resolved ↦ (record s { on_open_promise = undefined }, false)
  | open_rejected code ↦ (record s { on_open_promise = undefined }, false)
]

-- `#connectWebSocket` and `#connectSse`, once the driver has connected.
unfoldable pub set_transport : Transport → ConnState → ConnState
set_transport t s = record s { transport = some t }

-- The driver did not connect.
unfoldable pub attempt_fails : ConnState → ConnState
attempt_fails s = record s { on_open_promise = undefined }

-- `#connectAndWait` goes on once its promise is settled. An attempt that succeeds ends
-- `#connectWithRetry`.
unfoldable pub end_attempt : ConnState → ConnState
end_attempt s = elim s.on_open_promise [
  | undefined ↦ s
  | pending ↦ s
  | open_resolved ↦ record s { on_open_promise = undefined; connecting = false }
  | open_rejected code ↦ record s { on_open_promise = undefined }
]
