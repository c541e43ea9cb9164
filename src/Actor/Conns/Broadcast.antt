-- ===== src/Actor/Conns/Broadcast.antt =====
-- What `_broadcast` sends, and the steps that an actor's connections can take.
use rivetkit.Base.{
  ℕ, ◌≡◌, refl, sym, ◌∙◌, Bool, true, false, ◌&&◌, Option, List, [], ◌∷◌, ◌++◌, map, arith, has,
  append_assoc, append-nil,
}
use mathlib.Core.Path.{subst}
use rivetkit.Actor.Index.{subscribers}
use rivetkit.Actor.Conns.State.{
  PersistedConn, ConnectionDriver, ActorState, Effect, send, Message, event, Value, ConnConfig, ok,
  ReadyState, perform, is_subscribed, create_conn, add_subscription, remove_subscription,
  remove_conn, disconnect, send_all, broadcast,
}
use rivetkit.Actor.Conns.Invariant.{
  IsConsistent, add_subscription-IsConsistent, remove_subscription-IsConsistent,
  update_conn-IsConsistent,
}
use rivetkit.Actor.Conns.Lifecycle.{remove_conn-IsConsistent}
use rivetkit.Actor.Conns.Opening.{create_conn-IsConsistent}
use rivetkit.Actor.Conns.Restoring.{AreNew, restore_conns, restore_conns-IsConsistent}
use rivetkit.Actor.Conns.Liveness.{check_connections_liveness, check_connections_liveness_removes}

send_all_lem :
    (ids : List ℕ) (m : Message) (s : ActorState)
    → send_all ids m s ≡ record s { effects = s.effects ++ map (λ id. send id m) ids }
unfolding send_all
send_all_lem [] m s = rw append-nil
send_all_lem (id ∷ ids) m s =
    send_all_lem ids m (perform (send id m) s) ∙ unfold perform in rw append_assoc

-- An effect changes nothing that the index speaks of.
effects-IsConsistent :
    (effects : List Effect) (s : ActorState)
    → IsConsistent s
    → IsConsistent (record s { effects = effects })
effects-IsConsistent effects s v = record {
  indexed = λ x j. v.indexed x j ∙ (unfold is_subscribed in refl);
  no_empty = v.no_empty;
  live = v.live;
}

broadcast_inv :
    (name : ℕ) (args : Value) (s s' : ActorState)
    → broadcast name args s ≡ ok s'
    → send_all (subscribers name s.subscription_index) (event name args) s ≡ s'
unfolding broadcast
broadcast_inv name args s s' h = ground arith

-- The steps of an actor's connections: opened, subscribed while open, unsubscribed, closed,
-- disconnected, checked, and sent a broadcast.
pub data Step : ActorState → ActorState → Type 0 where
  opens :
      (config : ConnConfig) (p : PersistedConn) (s s' : ActorState)
      → create_conn config p s ≡ ok s'
      → Step s s'
  subscribes :
      (name id : ℕ) (s : ActorState)
      → has id s.connections ≡ true
      → Step s (add_subscription name id false s)
  unsubscribes : (name id : ℕ) (s : ActorState) → Step s (remove_subscription name id false s)
  closes : (hooked : Bool) (id : ℕ) (s : ActorState) → Step s (remove_conn hooked id s)
  disconnects : (id : ℕ) (s : ActorState) → Step s (disconnect id s)
  checks :
      (now timeout : ℕ) (ready_state : ℕ → Option ReadyState) (hooked : Bool) (s : ActorState)
      → Step s (check_connections_liveness now timeout ready_state hooked s)
  broadcasts :
      (name : ℕ) (args : Value) (s s' : ActorState) → broadcast name args s ≡ ok s' → Step s s'

-- An actor with no connection yet.
abbrev pub fresh : ActorState
fresh = record {
  ready = true;
  sleep_called = false;
  stop_called = false;
  objects = [];
  connections = [];
  persisted = [];
  subscription_index = [];
  effects = [];
}

-- `#initialize` with persisted connections, before it restores them.
abbrev pub persisting : List PersistedConn → ActorState
persisting ps = record fresh { ready = false; persisted = map (λ p. p.conn_id) ps }

pub data Reach : ActorState → Type 0 where
  here : Reach fresh
  restores :
      (has_driver : ConnectionDriver → Bool) (ps : List PersistedConn) (s : ActorState)
      → AreNew ps []
      → restore_conns has_driver ps (persisting ps) ≡ ok s
      → Reach (record s { ready = true })
  next : {s t : ActorState} → Reach s → Step s t → Reach t

Step-IsConsistent : {s t : ActorState} → Step s t → IsConsistent s → IsConsistent t
Step-IsConsistent (opens config p s s' h) v = create_conn-IsConsistent config p s s' h v
Step-IsConsistent (subscribes name id s h) v = add_subscription-IsConsistent name id false s h v
Step-IsConsistent (unsubscribes name id s) v = remove_subscription-IsConsistent name id s v
Step-IsConsistent (closes hooked id s) v = remove_conn-IsConsistent hooked id s v
Step-IsConsistent (disconnects id s) v =
    unfold disconnect perform in
    effects-IsConsistent _ _ (update_conn-IsConsistent id _ s (λ c. refl) v)
Step-IsConsistent (checks now timeout rs hooked s) v =
    (check_connections_liveness_removes now timeout rs hooked s v).0
Step-IsConsistent (broadcasts name args s s' h) v =
    subst IsConsistent (sym (send_all_lem _ _ s) ∙ broadcast_inv name args s s' h)
      (effects-IsConsistent _ s v)

readied-IsConsistent :
    (ready : Bool) (s : ActorState) → IsConsistent s → IsConsistent (record s { ready = ready })
unfolding is_subscribed
readied-IsConsistent ready s v = record {
  indexed = v.indexed;
  no_empty = v.no_empty;
  live = v.live;
}

empty-IsConsistent : (ps : List PersistedConn) → IsConsistent (persisting ps)
empty-IsConsistent ps = record {
  indexed = λ x j. unfold subscribers in refl;
  no_empty = λ j e. cc;
  live = λ x h e. cc;
}

fresh-IsConsistent : IsConsistent fresh
fresh-IsConsistent = record {
  indexed = λ x j. unfold subscribers in refl;
  no_empty = λ j e. cc;
  live = λ x h e. cc;
}

-- From an actor with no connection, or with restored ones of different ids, whatever
-- connections open, subscribe while they are open, unsubscribe, disconnect, close, fail their
-- liveness checks or are sent broadcasts: a connection is in the index under an event exactly if it
-- is open and subscribed to it, no entry of the index is empty, and an open connection has its
-- object. That a connection subscribes only while it is open is a premise: the source does not
-- check it where a message is handled after its connection was removed.
pub Reach-IsConsistent : {s : ActorState} → Reach s → IsConsistent s
Reach-IsConsistent here = fresh-IsConsistent
Reach-IsConsistent (restores has_driver ps s new h) =
    readied-IsConsistent true s
      (restore_conns-IsConsistent has_driver ps (persisting ps) s new h (empty-IsConsistent ps))
Reach-IsConsistent (next r st) = Step-IsConsistent st (Reach-IsConsistent r)

-- In a state that is reached by these steps, where connections subscribe only while they are open, a
-- broadcast that does not throw sends the event to the
-- subscribers in the index and changes nothing else, and those are exactly the connections that
-- are open and subscribed to it.
pub broadcast_recipients :
    (name : ℕ) (args : Value) (s s' : ActorState)
    → Reach s
    → broadcast name args s ≡ ok s'
    → (ids : List ℕ) × (s'
        ≡ record s { effects = s.effects ++ map (λ id. send id (event name args)) ids })
      × ((x : ℕ) → has x ids ≡ (has x s.connections && is_subscribed x name s))
broadcast_recipients name args s s' r h = (
  subscribers name s.subscription_index,
  sym (broadcast_inv name args s s' h) ∙ send_all_lem _ _ s,
  λ x. (Reach-IsConsistent r).indexed x name,
)
