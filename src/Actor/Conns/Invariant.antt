-- ===== src/Actor/Conns/Invariant.antt =====
-- The subscription index agrees with the subscriptions of the open connections, whatever
-- connections come and go and subscribe.
use rivetkit.Base.{
  ℕ, ◌≡◌, ◌≢◌, ◌∙◌, Bool, true, false, not, ◌&&◌, ◌||◌, none, some, arith, ◌==◌, if◌then◌else◌,
  lookup, lookup-insert, has, has-add, has-remove, Option-cases, inl, inr, Bool-cases,
}
use rivetkit.Actor.Index.{
  subscribers, index_add, index_remove, has-subscribers-index_add, has-subscribers-index_remove,
  HasNoEmpty, index_add-HasNoEmpty, index_remove-HasNoEmpty,
}
use rivetkit.Actor.Conns.State.{
  Conn, ActorState, is_subscribed, update_conn, subscribe_conn, unsubscribe_conn, add_subscription,
  remove_subscription,
}

-- A connection stands in the index under an event exactly when it is open and subscribed, no event
-- is left with an empty set, and each open connection has its object.
pub record IsConsistent (s : ActorState) : Type 0 where
  pub indexed :
      (x name : ℕ)
      → has x (subscribers name s.subscription_index)
        ≡ (has x s.connections && is_subscribed x name s)
  pub no_empty : HasNoEmpty s.subscription_index
  pub live : (x : ℕ) → has x s.connections ≡ true → lookup x s.objects ≢ none

is_subscribed-update :
    (x name id : ℕ) (f : Conn → Conn) (s : ActorState) (c : Conn)
    → lookup id s.objects ≡ some c
    → is_subscribed x name (update_conn id f s)
      ≡ (if id == x then has name (f c).subscriptions else is_subscribed x name s)
unfolding is_subscribed update_conn
is_subscribed-update x name id f s c e = ground (arith, lookup-insert x id (f c) s.objects)

update_conn_live :
    (x id : ℕ) (f : Conn → Conn) (s : ActorState)
    → lookup x (update_conn id f s).objects ≡ none
    → lookup x s.objects ≡ none
unfolding update_conn
update_conn_live x id f s h = elim (Option-cases (lookup id s.objects)) [
  | inl e ↦ rw (e, update_conn) at h
  | inr (c, e) ↦ ground (arith, lookup-insert x id (f c) s.objects)
]

pub update_conn_rest :
    (id : ℕ) (f : Conn → Conn) (s : ActorState)
    → ((update_conn id f s).connections ≡ s.connections)
      × ((update_conn id f s).subscription_index ≡ s.subscription_index)
      × ((update_conn id f s).persisted ≡ s.persisted)
unfolding update_conn
update_conn_rest id f s = ground arith

-- What a subscription changes.
module _ (name id : ℕ) (from_persist : Bool) (s : ActorState) where
  abbrev after_add : ActorState
  after_add = add_subscription name id from_persist s

  pub add_connections : after_add.connections ≡ s.connections
  unfolding add_subscription
  add_connections = ground arith

  add_index : after_add.subscription_index ≡ (
      if is_subscribed id name s
      then s.subscription_index
      else index_add name id s.subscription_index)
  unfolding add_subscription
  add_index = ground arith

  add_live : (x : ℕ) → lookup x after_add.objects ≡ none → lookup x s.objects ≡ none
  unfolding add_subscription
  add_live x h = elim (Option-cases (lookup id s.objects)) [
    | inl e ↦ ground arith
    | inr (c, e) ↦ ground (arith, lookup-insert x id (subscribe_conn from_persist name c) s.objects)
  ]

  add_subscribed :
      (x j : ℕ)
      → lookup id s.objects ≢ none
      → is_subscribed x j after_add ≡ ((name == j) && (id == x) || is_subscribed x j s)
  unfolding add_subscription is_subscribed
  add_subscribed x j h = elim (Option-cases (lookup id s.objects)) [
    | inl e ↦ absurd (h e)
    | inr (c, e) ↦ ground (
      arith,
      lookup-insert x id (subscribe_conn from_persist name c) s.objects,
      has-add j name c.subscriptions,
    )
  ]

-- An open connection that subscribes is indexed under the event, and nothing else changes in the
-- index.
pub add_subscription-IsConsistent :
    (name id : ℕ) (from_persist : Bool) (s : ActorState)
    → has id s.connections ≡ true
    → IsConsistent s
    → IsConsistent (add_subscription name id from_persist s)
add_subscription-IsConsistent name id from_persist s opened v = record {
  indexed = λ x j. rw (add_subscribed name id from_persist s x j (v.live id opened)) (
      rw (add_index name id from_persist s) (
        rw (add_connections name id from_persist s) (
          ground (
            arith,
            v.indexed x j,
            v.indexed id name,
            has-subscribers-index_add x j name id s.subscription_index,
            opened,
          ))));
  no_empty = rw (add_index name id from_persist s) (elim (Bool-cases (is_subscribed id name s)) [
    | inl e ↦ rw e v.no_empty
    | inr e ↦ rw e (index_add-HasNoEmpty name id s.subscription_index v.no_empty)
  ]);
  live = λ x h e.
      v.live x (rw (add_connections name id from_persist s) at h)
        (add_live name id from_persist s x e);
}

-- What the end of a subscription changes.
module _ (name id : ℕ) (s : ActorState) where
  abbrev after_remove : ActorState
  after_remove = remove_subscription name id false s

  remove_connections : after_remove.connections ≡ s.connections
  unfolding remove_subscription
  remove_connections = ground arith

  remove_index : after_remove.subscription_index ≡ (
      if is_subscribed id name s
      then index_remove name id s.subscription_index
      else s.subscription_index)
  unfolding remove_subscription
  remove_index = ground arith

  remove_live : (x : ℕ) → lookup x after_remove.objects ≡ none → lookup x s.objects ≡ none
  unfolding remove_subscription
  remove_live x h = elim (Option-cases (lookup id s.objects)) [
    | inl e ↦ ground arith
    | inr (c, e) ↦ ground (arith, lookup-insert x id (unsubscribe_conn name c) s.objects)
  ]

  remove_subscribed :
      (x j : ℕ)
      → is_subscribed x j after_remove ≡ (not ((name == j) && (id == x)) && is_subscribed x j s)
  unfolding remove_subscription is_subscribed
  remove_subscribed x j = elim (Option-cases (lookup id s.objects)) [
    | inl e ↦ ground arith
    | inr (c, e) ↦ ground (
      arith,
      lookup-insert x id (unsubscribe_conn name c) s.objects,
      has-remove j name c.subscriptions,
    )
  ]

-- A connection that ends a subscription leaves the index under that event, and nothing else
-- changes in the index.
pub remove_subscription-IsConsistent :
    (name id : ℕ) (s : ActorState)
    → IsConsistent s
    → IsConsistent (remove_subscription name id false s)
remove_subscription-IsConsistent name id s v = record {
  indexed = λ x j. rw (remove_subscribed name id s x j) (
      rw (remove_index name id s) (
        rw (remove_connections name id s) (
          ground (
            arith,
            v.indexed x j,
            v.indexed id name,
            has-subscribers-index_remove x j name id s.subscription_index,
          ))));
  no_empty = rw (remove_index name id s) (elim (Bool-cases (is_subscribed id name s)) [
    | inl e ↦ rw e (index_remove-HasNoEmpty name id s.subscription_index v.no_empty)
    | inr e ↦ rw e v.no_empty
  ]);
  live = λ x h e. v.live x (rw (remove_connections name id s) at h) (remove_live name id s x e);
}

update_conn_subscribed :
    (id x name : ℕ) (f : Conn → Conn) (s : ActorState)
    → ((c : Conn) → (f c).subscriptions ≡ c.subscriptions)
    → is_subscribed x name (update_conn id f s) ≡ is_subscribed x name s
update_conn_subscribed id x name f s keep = elim (Option-cases (lookup id s.objects)) [
  | inl e ↦ unfold is_subscribed update_conn in ground arith
  | inr (c, e) ↦
      is_subscribed-update x name id f s c e ∙ (unfold is_subscribed in ground (arith, keep c))
]

-- A change of a connection that leaves its subscriptions alone keeps the index consistent.
pub update_conn-IsConsistent :
    (id : ℕ) (f : Conn → Conn) (s : ActorState)
    → ((c : Conn) → (f c).subscriptions ≡ c.subscriptions)
    → IsConsistent s
    → IsConsistent (update_conn id f s)
update_conn-IsConsistent id f s keep v = record {
  indexed = λ x j.
      rw
        (
          update_conn_subscribed id x j f s keep,
          (update_conn_rest id f s).0,
          (update_conn_rest id f s).1,
        )
        (v.indexed x j);
  no_empty = rw (update_conn_rest id f s).1 v.no_empty;
  live = λ x h e. v.live x (rw (update_conn_rest id f s).0 at h) (update_conn_live x id f s e);
}
