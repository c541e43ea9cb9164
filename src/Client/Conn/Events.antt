-- ===== src/Client/Conn/Events.antt =====
-- The listeners of a connection: what an event calls, and what the server is told.
use rivetkit.Base.{
  ℕ, ◌≡◌, refl, true, false, none, some, List, [], ◌∷◌, ◌++◌, map, arith, ◌==◌, if◌then◌else◌,
  is_empty, lookup, lookup-insert, lookup-erase, Option-cases, inl, inr, append-nil,
}
use rivetkit.Client.Conn.State.{
  Value, subscription_request, Listener, ConnState, takes, kept_listeners, dispatch_event,
  unsubscribe,
}

-- The listeners of an event; there are none where the event has no entry.
abbrev pub listeners_of : ℕ → ConnState → List Listener
listeners_of name s = elim (lookup name s.event_subscriptions) [ none ↦ [] | some ls ↦ ls ]

is_empty-eq : (ls : List Listener) → is_empty ls ≡ true → ls ≡ []
is_empty-eq [] h = refl
is_empty-eq (l ∷ ls) h = cc

-- An event calls all its listeners in their order, with its arguments; of them those stay that were
-- not for one event, and the listeners of other events stay as they were.
pub dispatch_event_listeners :
    (name : ℕ) (args : Value) (s : ConnState)
    → ((dispatch_event name args s).called
        ≡ s.called ++ map (λ (l : Listener). (l.callback, args)) (listeners_of name s))
      × ((other : ℕ)
          → listeners_of other (dispatch_event name args s) ≡ (
              if name == other then kept_listeners (listeners_of name s) else listeners_of other s))
unfolding dispatch_event
dispatch_event_listeners name args s = elim (Option-cases (lookup name s.event_subscriptions)) [
  | inl e ↦ (ground (arith, append-nil s.called), λ other. ground arith)
  | inr (ls, e) ↦ (
    ground arith,
    λ other. ground (
      arith,
      lookup-erase other name s.event_subscriptions,
      lookup-insert other name (kept_listeners ls) s.event_subscriptions,
      is_empty-eq (kept_listeners ls),
    ),
  )
]

-- Where the only listener of an event is for one event, the event takes the entry away, and the
-- server is not told: nothing is sent and nothing is queued.
pub dispatch_event_silent :
    (name : ℕ) (args : Value) (l : Listener) (s : ConnState)
    → lookup name s.event_subscriptions ≡ some (l ∷ [])
    → l.once ≡ true
    → let s' = dispatch_event name args s in
      (lookup name s'.event_subscriptions ≡ none)
      × (s'.sent ≡ s.sent)
      × (s'.message_queue ≡ s.message_queue)
unfolding dispatch_event
dispatch_event_silent name args l s h o =
    ground (arith, lookup-erase name name s.event_subscriptions)

-- Where the last listener is taken off by hand, the server is told.
pub unsubscribe_tells :
    (name : ℕ) (l : Listener) (s : ConnState)
    → lookup name s.event_subscriptions ≡ some (l ∷ [])
    → s.disposed ≡ false
    → takes true s.transport ≡ true
    → let s' = (unsubscribe true name l.callback s).0 in
      (lookup name s'.event_subscriptions ≡ none)
      × (s'.sent ≡ s.sent ++ subscription_request name false ∷ [])
unfolding unsubscribe
unsubscribe_tells name l s h d t = ground (arith, lookup-erase name name s.event_subscriptions)
