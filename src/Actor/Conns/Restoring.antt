-- ===== src/Actor/Conns/Restoring.antt =====
-- The connections that `#initialize` restores from what was persisted, and their index.
use rivetkit.Base.{
  ℕ, ◌≡◌, refl, sym, ap, ◌∙◌, Bool, true, false, not, ◌&&◌, List, [], ◌∷◌, arith, ◌==◌, insert,
  lookup-insert, has, add, has-add, Bool-cases, inl, inr, ==_refl,
}
use mathlib.Core.Path.{subst}
use rivetkit.Actor.Conns.State.{
  ConnectionDriver, PersistedConn, new_conn, ActorState, ActorError, no_connection_driver, Result,
  ok, err, is_subscribed, add_subscription,
}
use rivetkit.Actor.Conns.Invariant.{IsConsistent, add_subscription-IsConsistent, add_connections}

-- The loop over the persisted subscriptions of a connection.
unfoldable pub add_subscriptions : List ℕ → ℕ → ActorState → ActorState
add_subscriptions [] id s = s
add_subscriptions (name ∷ names) id s = add_subscriptions names id (add_subscription name id true s)

-- The object of a restored connection, in the map of connections.
unfoldable pub place_conn : PersistedConn → ActorState → ActorState
unfolding new_conn
place_conn p s = record s {
  objects = insert p.conn_id (new_conn p) s.objects;
  connections = add p.conn_id s.connections;
}

-- The loop over the persisted connections; a connection whose driver is missing throws.
unfoldable pub restore_conns :
    (ConnectionDriver → Bool) → List PersistedConn → ActorState → Result ActorState
unfolding place_conn add_subscriptions
restore_conns has_driver [] s = ok s
restore_conns has_driver (p ∷ ps) s = elim (has_driver p.conn_driver) [
  | false ↦ err (no_connection_driver p.conn_driver)
  | true ↦
      restore_conns has_driver ps (add_subscriptions p.subscriptions p.conn_id (place_conn p s))
]

-- The ids of the connections differ from those that are open and from each other.
abbrev pub AreNew : List PersistedConn → List ℕ → Type 0
AreNew [] ids = Unit
AreNew (p ∷ ps) ids = (has p.conn_id ids ≡ false) × AreNew ps (add p.conn_id ids)

place_conn_subscribed :
    (p : PersistedConn) (s : ActorState) (x j : ℕ)
    → is_subscribed x j (place_conn p s) ≡ (not (p.conn_id == x) && is_subscribed x j s)
unfolding place_conn is_subscribed
place_conn_subscribed p s x j = ground (arith, lookup-insert x p.conn_id (new_conn p) s.objects)

place_conn-IsConsistent :
    (p : PersistedConn) (s : ActorState)
    → has p.conn_id s.connections ≡ false
    → IsConsistent s
    → IsConsistent (place_conn p s)
place_conn-IsConsistent p s h v = record {
  indexed = λ x j.
      rw (place_conn_subscribed p s x j)
        (unfold place_conn in ground (arith, v.indexed x j, has-add x p.conn_id s.connections));
  no_empty = unfold place_conn in v.no_empty;
  live =
      unfold place_conn in
      λ x o. ground (
        arith,
        lookup-insert x p.conn_id (new_conn p) s.objects,
        has-add x p.conn_id s.connections,
        v.live x,
      );
}

add_subscriptions_lem :
    (names : List ℕ) (id : ℕ) (s : ActorState)
    → has id s.connections ≡ true
    → IsConsistent s
    → IsConsistent (add_subscriptions names id s)
      × ((add_subscriptions names id s).connections ≡ s.connections)
unfolding add_subscriptions
add_subscriptions_lem [] id s h v = (v, refl)
add_subscriptions_lem (name ∷ names) id s h v =
    let same = add_connections name id true s in
    let (kept, e) =
      add_subscriptions_lem names id (add_subscription name id true s) (ap (has id) same ∙ h)
        (add_subscription-IsConsistent name id true s h v) in
    (kept, e ∙ same)

restore_conn :
    (p : PersistedConn) (s : ActorState)
    → has p.conn_id s.connections ≡ false
    → IsConsistent s
    → IsConsistent (add_subscriptions p.subscriptions p.conn_id (place_conn p s))
      × ((add_subscriptions p.subscriptions p.conn_id (place_conn p s)).connections
          ≡ add p.conn_id s.connections)
restore_conn p s h v =
    let placed : (place_conn p s).connections ≡ add p.conn_id s.connections =
      unfold place_conn in refl in
    let (kept, e) =
      add_subscriptions_lem p.subscriptions p.conn_id (place_conn p s)
        (ap (has p.conn_id) placed
          ∙ has-add p.conn_id p.conn_id s.connections
          ∙ ground (arith, ==_refl p.conn_id))
        (place_conn-IsConsistent p s h v) in
    (kept, e ∙ placed)

no_err : {s : ActorState} {x : ActorError} → err x ≡ ok s → ⊥
no_err h = cc

ok-injective : {s t : ActorState} → ok s ≡ ok t → s ≡ t
ok-injective {s} h = ap (λ r. elim r [ ok x ↦ x | err x ↦ s ]) h

-- From a consistent state, restoring connections with new ids leads to a consistent state: each is
-- in the index under its persisted subscriptions.
pub restore_conns-IsConsistent :
    (has_driver : ConnectionDriver → Bool) (ps : List PersistedConn) (s t : ActorState)
    → AreNew ps s.connections
    → restore_conns has_driver ps s ≡ ok t
    → IsConsistent s
    → IsConsistent t
unfolding restore_conns
restore_conns-IsConsistent has_driver [] s t new h v = subst IsConsistent (ok-injective h) v
restore_conns-IsConsistent has_driver (p ∷ ps) s t new h v =
    elim (Bool-cases (has_driver p.conn_driver)) [
      | inr e ↦ absurd (no_err (rw (e, restore_conns) at h))
      | inl e ↦
          let (kept, same) = restore_conn p s new.0 v in
          restore_conns-IsConsistent has_driver ps _ t (subst (AreNew ps) (sym same) new.1)
            (rw (e, restore_conns) at h) kept
    ]
