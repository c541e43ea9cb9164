-- ===== src/Actor/Conns/Lifecycle.antt =====
-- Connections that open and close, and the subscription index.
use rivetkit.Base.{
  ℕ, ◌≡◌, refl, ◌∙◌, Bool, true, not, ◌&&◌, List, [], ◌∷◌, arith, ◌==◌, if◌then◌else◌, has, remove,
  has-remove, inl, inr, Bool-cases,
}
use rivetkit.Actor.Index.{
  subscribers, has-subscribers-index_remove, HasNoEmpty, index_remove-HasNoEmpty,
}
use rivetkit.Actor.Conns.State.{
  ActorState, perform, is_subscribed, remove_subscription, remove_subscriptions, remove_conn,
  remove_first, subscriptions_of, save,
}
use rivetkit.Actor.Conns.Invariant.{IsConsistent}

drop_objects :
    (names : List ℕ) (id : ℕ) (s : ActorState)
    → ((remove_subscriptions names id s).objects ≡ s.objects)
      × ((remove_subscriptions names id s).connections ≡ s.connections)
      × ((remove_subscriptions names id s).persisted ≡ s.persisted)
unfolding remove_subscriptions
drop_objects [] id s = (refl, refl, refl)
drop_objects (name ∷ names) id s =
    ground (arith, drop_objects names id (remove_subscription name id true s), one)
  where
    one :
        ((remove_subscription name id true s).objects ≡ s.objects)
        × ((remove_subscription name id true s).connections ≡ s.connections)
        × ((remove_subscription name id true s).persisted ≡ s.persisted)
    one = unfold remove_subscription in ground arith

drop_one :
    (name id x j : ℕ) (s : ActorState)
    → has x (subscribers j (remove_subscription name id true s).subscription_index) ≡ (
        not ((id == x) && (name == j) && is_subscribed id j s)
        && has x (subscribers j s.subscription_index))
unfolding remove_subscription
drop_one name id x j s =
    ground (arith, has-subscribers-index_remove x j name id s.subscription_index)

one_no_empty :
    (name id : ℕ) (s : ActorState)
    → HasNoEmpty s.subscription_index
    → HasNoEmpty (remove_subscription name id true s).subscription_index
one_no_empty name id s h = elim (Bool-cases (is_subscribed id name s)) [
  | inl e ↦
      unfold remove_subscription in rw e (index_remove-HasNoEmpty name id s.subscription_index h)
  | inr e ↦ unfold remove_subscription in rw e h
]

drop_subscribed :
    (name id j : ℕ) (s : ActorState)
    → is_subscribed id j (remove_subscription name id true s) ≡ is_subscribed id j s
unfolding remove_subscription is_subscribed
drop_subscribed name id j s = ground arith

drop_no_empty :
    (names : List ℕ) (id : ℕ) (s : ActorState)
    → HasNoEmpty s.subscription_index
    → HasNoEmpty (remove_subscriptions names id s).subscription_index
unfolding remove_subscriptions
drop_no_empty [] id s h = h
drop_no_empty (name ∷ names) id s h =
    drop_no_empty names id (remove_subscription name id true s) (one_no_empty name id s h)

drop_all :
    (names : List ℕ) (id x j : ℕ) (s : ActorState)
    → has x (subscribers j (remove_subscriptions names id s).subscription_index) ≡ (
        not ((id == x) && has j names && is_subscribed id j s)
        && has x (subscribers j s.subscription_index))
unfolding remove_subscriptions
drop_all [] id x j s = ground arith
drop_all (name ∷ names) id x j s = ground (
  arith,
  drop_all names id x j (remove_subscription name id true s),
  drop_subscribed name id j s,
  drop_one name id x j s,
)

subscriptions_of_lem :
    (id j : ℕ) (s : ActorState) → has j (subscriptions_of id s) ≡ is_subscribed id j s
unfolding is_subscribed
subscriptions_of_lem id j s = ground arith

-- What the removal of a connection changes.
module _ (hooked : Bool) (id : ℕ) (s : ActorState) where
  -- The state before the loop over the subscriptions.
  unpersisted : ActorState
  unpersisted =
      let u : ActorState =
        (if has id s.persisted
          then perform (save true) (record s { persisted = remove_first id s.persisted })
          else s) in
      record u { connections = remove id u.connections }

  dropped : ActorState
  dropped = remove_subscriptions (subscriptions_of id s) id unpersisted

  remove_conn_rest :
      ((remove_conn hooked id s).subscription_index ≡ dropped.subscription_index)
      × ((remove_conn hooked id s).objects ≡ dropped.objects)
      × ((remove_conn hooked id s).connections ≡ dropped.connections)
      × ((remove_conn hooked id s).persisted ≡ dropped.persisted)
  unfolding remove_conn dropped unpersisted
  remove_conn_rest = ground arith

  unpersisted_rest :
      (unpersisted.subscription_index ≡ s.subscription_index)
      × (unpersisted.objects ≡ s.objects)
      × (unpersisted.connections ≡ remove id s.connections)
      × ((j : ℕ) → is_subscribed id j unpersisted ≡ is_subscribed id j s)
  unfolding unpersisted perform is_subscribed
  unpersisted_rest = elim (Bool-cases (has id s.persisted)) [
    | inl e ↦ rw e (refl, refl, refl, λ j. refl)
    | inr e ↦ rw e (refl, refl, refl, λ j. refl)
  ]

pub subscribed_of_objects :
    (x j : ℕ) (s t : ActorState) → s.objects ≡ t.objects → is_subscribed x j s ≡ is_subscribed x j t
unfolding is_subscribed
subscribed_of_objects x j s t e = rw e

module _ (hooked : Bool) (id : ℕ) (s : ActorState) where
  pub removed_connections : (remove_conn hooked id s).connections ≡ remove id s.connections
  unfolding dropped
  removed_connections =
      (remove_conn_rest hooked id s).2
      ∙ (drop_objects (subscriptions_of id s) id (unpersisted hooked id s)).1
      ∙ (unpersisted_rest hooked id s).2

  pub removed_objects : (remove_conn hooked id s).objects ≡ s.objects
  unfolding dropped
  removed_objects =
      (remove_conn_rest hooked id s).1
      ∙ (drop_objects (subscriptions_of id s) id (unpersisted hooked id s)).0
      ∙ (unpersisted_rest hooked id s).1

  removed_index :
      (x j : ℕ)
      → has x (subscribers j (remove_conn hooked id s).subscription_index)
        ≡ (not ((id == x) && is_subscribed id j s) && has x (subscribers j s.subscription_index))
  unfolding dropped
  removed_index x j =
      let (u_index, _, _, u_subscribed) = unpersisted_rest hooked id s in
      rw (remove_conn_rest hooked id s).0 (
        rw (drop_all (subscriptions_of id s) id x j (unpersisted hooked id s))
          (rw (u_subscribed j, u_index, subscriptions_of_lem id j s) (ground arith)))

  removed_no_empty :
      HasNoEmpty s.subscription_index → HasNoEmpty (remove_conn hooked id s).subscription_index
  unfolding dropped
  removed_no_empty h = rw (remove_conn_rest hooked id s).0 (
      drop_no_empty (subscriptions_of id s) id (unpersisted hooked id s)
        (rw (unpersisted_rest hooked id s).0 h))

-- A connection that is removed is open no longer and leaves the index, under all events, and the
-- index stays consistent for the others.
pub remove_conn-IsConsistent :
    (hooked : Bool) (id : ℕ) (s : ActorState)
    → IsConsistent s
    → IsConsistent (remove_conn hooked id s)
remove_conn-IsConsistent hooked id s v = record {
  indexed = λ x j.
      rw
        (
          subscribed_of_objects x j (remove_conn hooked id s) s (removed_objects hooked id s),
          removed_index hooked id s x j,
          removed_connections hooked id s,
        )
        (ground (arith, v.indexed x j, has-remove x id s.connections));
  no_empty = removed_no_empty hooked id s v.no_empty;
  live = λ x h e.
      v.live x
        (ground (arith, has-remove x id s.connections, (rw (removed_connections hooked id s) at h)))
        (rw (removed_objects hooked id s) at e);
}
