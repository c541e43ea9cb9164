-- ===== src/Actor/Conns/Opening.antt =====
-- `createConn`: what a new connection changes, and when it is refused.
use rivetkit.Base.{
  ℕ, ◌≡◌, refl, sym, ap, ◌∙◌, Bool, true, false, not, ◌&&◌, Option, none, some, [], ◌∷◌, ◌++◌,
  arith, ◌==◌, lookup, insert, lookup-insert, has, add, has-add, Option-cases, inl, inr,
}
use rivetkit.Actor.Conns.State.{
  PersistedConn, ActorState, perform, is_subscribed, create_conn, ConnConfig, ok, run_on_connect,
  new_conn, open_conn, reconnecting, reset_sleep_timer, save,
}
use mathlib.Core.Path.{subst}
use rivetkit.Actor.Conns.Invariant.{IsConsistent}
use rivetkit.Actor.Conns.Lifecycle.{subscribed_of_objects}

-- The hook `onConnect` and its failure change no subscription and lose no object.
run_on_connect_subscribed :
    (hook : Option Bool) (id x j : ℕ) (s : ActorState)
    → is_subscribed x j (run_on_connect hook id s) ≡ is_subscribed x j s
unfolding run_on_connect is_subscribed
run_on_connect_subscribed none id x j s = refl
run_on_connect_subscribed (some false) id x j s = refl
run_on_connect_subscribed (some true) id x j s = elim (Option-cases (lookup id s.objects)) [
  | inl e ↦ ground arith
  | inr (c, e) ↦ ground (arith, lookup-insert x id (record c { status = reconnecting }) s.objects)
]

run_on_connect_live :
    (hook : Option Bool) (id x : ℕ) (s : ActorState)
    → lookup x (run_on_connect hook id s).objects ≡ none
    → lookup x s.objects ≡ none
unfolding run_on_connect
run_on_connect_live none id x s h = h
run_on_connect_live (some false) id x s h = h
run_on_connect_live (some true) id x s h = elim (Option-cases (lookup id s.objects)) [
  | inl e ↦ e_of h e
  | inr (c, e) ↦ ground (arith, lookup-insert x id (record c { status = reconnecting }) s.objects)
]
  where
    e_of :
        lookup x (run_on_connect (some true) id s).objects ≡ none
        → lookup id s.objects ≡ none
        → lookup x s.objects ≡ none
    e_of h e = ground arith

module _ (config : ConnConfig) (p : PersistedConn) (s : ActorState) where
  opened_rest :
      ((open_conn config p s).connections ≡ add p.conn_id s.connections)
      × ((open_conn config p s).subscription_index ≡ s.subscription_index)
      × ((open_conn config p s).persisted ≡ s.persisted ++ p.conn_id ∷ [])
  unfolding open_conn
  opened_rest = ground arith

  -- The state in which the hook runs.
  saved : ActorState
  saved = perform (save false) (
      perform reset_sleep_timer (record s {
        objects = insert p.conn_id (new_conn p) s.objects;
        connections = add p.conn_id s.connections;
        persisted = s.persisted ++ p.conn_id ∷ [];
      }))

  opened_objects :
      (open_conn config p s).objects ≡ (run_on_connect config.on_connect p.conn_id saved).objects
  unfolding open_conn saved
  opened_objects = refl

  saved_subscribed :
      (x j : ℕ) → is_subscribed x j saved ≡ (not (p.conn_id == x) && is_subscribed x j s)
  unfolding saved perform is_subscribed new_conn
  saved_subscribed x j = ground (arith, lookup-insert x p.conn_id (new_conn p) s.objects)

  opened_subscribed :
      (x j : ℕ)
      → is_subscribed x j (open_conn config p s) ≡ (not (p.conn_id == x) && is_subscribed x j s)
  opened_subscribed x j =
      subscribed_of_objects x j _ _ opened_objects
      ∙ run_on_connect_subscribed config.on_connect p.conn_id x j saved
      ∙ saved_subscribed x j

  opened_live :
      (x : ℕ)
      → lookup x (open_conn config p s).objects ≡ none
      → ((p.conn_id == x) ≡ false) × (lookup x s.objects ≡ none)
  opened_live x h = saved_live x (
      run_on_connect_live config.on_connect p.conn_id x saved
        (sym (ap (λ o. lookup x o) opened_objects) ∙ h))
    where
      saved_live :
          (x : ℕ)
          → lookup x saved.objects ≡ none
          → ((p.conn_id == x) ≡ false) × (lookup x s.objects ≡ none)
      saved_live x e =
          unfold saved perform in ground (arith, lookup-insert x p.conn_id (new_conn p) s.objects)

  open_conn-IsConsistent :
      has p.conn_id s.connections ≡ false → IsConsistent s → IsConsistent (open_conn config p s)
  open_conn-IsConsistent fresh v = record {
    indexed = λ x j.
        rw (opened_subscribed x j, opened_rest.0, opened_rest.1)
          (ground (arith, v.indexed x j, has-add x p.conn_id s.connections, fresh));
    no_empty = rw opened_rest.1 v.no_empty;
    live = λ x h e.
        let (other, gone) = opened_live x e in
        v.live x (ground (arith, other, has-add x p.conn_id s.connections, (rw opened_rest.0 at h)))
          gone;
  }

  create_conn_inv :
      (s' : ActorState)
      → create_conn config p s ≡ ok s'
      → (open_conn config p s ≡ s') × (has p.conn_id s.connections ≡ false)
  unfolding create_conn
  create_conn_inv s' h = ground arith

  -- A connection that is created leaves the index consistent: it is open, and subscribed to nothing.
  pub create_conn-IsConsistent :
      (s' : ActorState) → create_conn config p s ≡ ok s' → IsConsistent s → IsConsistent s'
  create_conn-IsConsistent s' h v =
      let (e, fresh) = create_conn_inv s' h in subst IsConsistent e (open_conn-IsConsistent fresh v)
