-- ===== src/FileSystem/Driver/Laws.antt =====
-- The driver over files and the laws of the interface of the manager's router.
use rivetkit.Base.{
  ℕ, Bool, true, false, not, ◌&&◌, ◌||◌, ◌≡◌, refl, sym, ap, ◌∙◌, Option, none, some, List, ◌==◌,
  if◌then◌else◌, lookup, contains, lookup-insert, Text, Option-cases, Bool-cases, inl, inr, ◌⊎◌,
  ==→eq, arith, if_elim,
}
use mathlib.Core.Path.{subst}
use rivetkit.Manager
use rivetkit.Manager.Requests.{DriverLaws}
use rivetkit.FileSystem.State.{
  Value, StoredActor, DriverState, DriverError, invariant_violation, ok, err, read_failed,
  actor_already_exists, Step, new_entry, ActorEntry, upsert_entry, entry_of, update_entry,
  write_actor, store_new, stored, has_state, load_actor_state, load_actor, create_actor,
  load_or_create_actor,
}
use rivetkit.FileSystem.Driver.{
  Environment, generate_actor_id, thrown_of, output_of, then_with, get_for_id, get_with_key,
  get_or_create_with_key, create_with_key, file_system_driver,
}

not-false : {b : Bool} → not b ≡ false → b ≡ true
not-false h = ground (arith, h)

-- An actor is there, in memory or, where the driver keeps files, on disk.
abbrev pub is_there : {A : Type 0} → Option A → Bool
is_there none = false
is_there (some a) = true

unfoldable pub knows : ℕ → DriverState → Bool
unfolding entry_of
knows j d = is_there (entry_of j d).state || (d.persist && contains j d.state_files)

entry_of-update_entry :
    (id j : ℕ) (f : ActorEntry → ActorEntry) (d : DriverState)
    → entry_of j (update_entry id f d) ≡ (if id == j then f (entry_of id d) else entry_of j d)
unfolding entry_of update_entry
entry_of-update_entry id j f d = ground (arith, lookup-insert j id (f (entry_of id d)) d.actors)

entry_of-upsert_entry : (id j : ℕ) (d : DriverState) → entry_of j (upsert_entry id d) ≡ entry_of j d
unfolding entry_of upsert_entry
entry_of-upsert_entry id j d = ground (arith, lookup-insert j id new_entry d.actors, ==→eq id j)

knows-upsert_entry : (id j : ℕ) (d : DriverState) → knows j (upsert_entry id d) ≡ knows j d
unfolding knows
knows-upsert_entry id j d = rw (entry_of-upsert_entry id j d) (unfold upsert_entry in ground arith)

or_same : (a b c : Bool) → (a ≡ b) ⊎ (c ≡ true) → (a || c) ≡ (b || c)
or_same a b c (inl h) = ap (λ x. x || c) h
or_same true b c (inr h) = ground (arith, h)
or_same false b c (inr h) = ground (arith, h)

-- A change of an entry that leaves whether it has a state, or one of an actor that has a file.
knows-update_entry :
    (id j : ℕ) (f : ActorEntry → ActorEntry) (d : DriverState)
    → (is_there (f (entry_of id d)).state ≡ is_there (entry_of id d).state)
      ⊎ ((d.persist && contains id d.state_files) ≡ true)
    → knows j (update_entry id f d) ≡ knows j d
unfolding knows update_entry
knows-update_entry id j f d h = elim (Bool-cases (id == j)) [
  | inr e ↦ rw (entry_of-update_entry id j f d) (rw e refl)
  | inl e ↦ rw (entry_of-update_entry id j f d) (
      rw e (
        subst
          (λ x.
            (is_there (f (entry_of id d)).state || (d.persist && contains x d.state_files))
            ≡ (is_there (entry_of x d).state || (d.persist && contains x d.state_files)))
          (==→eq id j e)
          (or_same (is_there (f (entry_of id d)).state) (is_there (entry_of id d).state)
            (d.persist && contains id d.state_files) h)))
]

-- A load makes no actor.
knows-load_actor_state :
    (reads : Bool) (id j : ℕ) (d : DriverState)
    → d.persist ≡ true
    → knows j (load_actor_state reads id d).0 ≡ knows j d
unfolding load_actor_state
knows-load_actor_state reads id j d h = elim (Option-cases (lookup id d.state_files)) [
  | inl e ↦ rw (e, load_actor_state) refl
  | inr (state, e) ↦
      rw (e, load_actor_state)
        (elim (Bool-cases reads) [
          | inl r ↦ rw r (
              knows-update_entry id j (λ x. record x { state = some state }) d
                (inr (ground (arith, e, h))))
          | inr r ↦
              rw r (knows-update_entry id j (λ x. record x { load_failed = true }) d (inl refl))
        ])
]

knows-load_actor :
    (reads : Bool) (id j : ℕ) (d : DriverState) → knows j (load_actor reads id d).0 ≡ knows j d
unfolding load_actor
knows-load_actor reads id j d =
    let d' = upsert_entry id d in
    let same = knows-upsert_entry id j d in
    if_elim (λ (r : Step (Unit {0})). knows j r.0 ≡ knows j d) (has_state id d') (d', ok tt) _
      (λ e. same)
      (λ e.
        if_elim (λ (r : Step (Unit {0})). knows j r.0 ≡ knows j d) (not d'.persist) (d', ok tt) _
          (λ p. same)
          (λ p.
            if_elim (λ (r : Step (Unit {0})). knows j r.0 ≡ knows j d) (entry_of id d').load_failed
              (d', err read_failed) (load_actor_state reads id d') (λ q. same)
              (λ q. knows-load_actor_state reads id j d' (not-false p) ∙ same)))

-- A write of another actor makes no difference.
knows-write_actor :
    (writes : Bool) (id j : ℕ) (state : StoredActor) (d : DriverState)
    → (id == j) ≡ false
    → knows j (write_actor writes id state d).0 ≡ knows j d
unfolding knows write_actor entry_of
knows-write_actor writes id j state d h = ground (arith, h, lookup-insert j id state d.state_files)

knows-other :
    (id j : ℕ) (f : ActorEntry → ActorEntry) (d : DriverState)
    → (id == j) ≡ false
    → knows j (update_entry id f d) ≡ knows j d
unfolding knows update_entry
knows-other id j f d h = rw (entry_of-update_entry id j f d) (rw h refl)

knows-store_new :
    (writes : Bool) (id j : ℕ) (state : StoredActor) (d : DriverState)
    → knows j (store_new writes id state d).0 ≡ true
    → (knows j d ≡ true) ⊎ (j ≡ id)
unfolding store_new
knows-store_new writes id j state d h = elim (Bool-cases (id == j)) [
  | inl e ↦ inr (sym (==→eq id j e))
  | inr e ↦
      let put = update_entry id (λ x. record x { state = some state }) d in
      inl (
        sym (knows-other id j (λ x. record x { state = some state }) d e)
        ∙ sym (knows-write_actor writes id j state put e)
        ∙ h)
]

knows-create_actor :
    (writes : Bool) (now id : ℕ) (name : Text) (key : List Text) (input : Value) (d : DriverState)
    (j : ℕ)
    → knows j (create_actor writes now id name key input d).0 ≡ true
    → (knows j d ≡ true) ⊎ (j ≡ id)
unfolding create_actor
knows-create_actor writes now id name key input d j =
    if_elim (λ (r : Step (Unit {0})). knows j r.0 ≡ true → (knows j d ≡ true) ⊎ (j ≡ id))
      (contains id d.actors) (d, err actor_already_exists)
      (store_new writes id (stored id name key now input) (upsert_entry id d)) (λ e h. inl h)
      (λ e h.
        elim (knows-store_new writes id j (stored id name key now input) (upsert_entry id d) h) [
          | inl k ↦ inl (sym (knows-upsert_entry id j d) ∙ k)
          | inr k ↦ inr k
        ])

-- What follows the load of `loadOrCreateActor`.
stored-after :
    (writes : Bool) (id j : ℕ) (state : StoredActor) (r : Step (Unit {0}))
    → (let t : Step (Unit {0}) = elim r.1 [
      | err e ↦ (r.0, err e)
      | ok u ↦ if has_state id r.0 then (r.0, ok tt) else store_new writes id state r.0
    ] in
        knows j t.0 ≡ true)
    → (knows j r.0 ≡ true) ⊎ (j ≡ id)
stored-after writes id j state (l, err e) h = inl h
stored-after writes id j state (l, ok u) h =
    if_elim (λ (r : Step (Unit {0})). knows j r.0 ≡ true → (knows j l ≡ true) ⊎ (j ≡ id))
      (has_state id l) (l, ok tt) (store_new writes id state l) (λ e k. inl k)
      (λ e k. knows-store_new writes id j state l k) h

knows-load_or_create_actor :
    (reads writes : Bool) (now id : ℕ) (name : Text) (key : List Text) (input : Value)
    (d : DriverState) (j : ℕ)
    → knows j (load_or_create_actor reads writes now id name key input d).0 ≡ true
    → (knows j d ≡ true) ⊎ (j ≡ id)
unfolding load_or_create_actor
knows-load_or_create_actor reads writes now id name key input d j h =
    elim (stored-after writes id j (stored id name key now input) (load_actor reads id d) h) [
      | inl k ↦ inl (sym (knows-load_actor reads id j d) ∙ k)
      | inr k ↦ inr k
    ]

-- A load of an actor whose state is in memory changes nothing.
load_known :
    (reads : Bool) (id : ℕ) (d : DriverState)
    → has_state id d ≡ true
    → load_actor reads id d ≡ (d, ok tt)
unfolding load_actor upsert_entry entry_of
load_known reads id d h = elim (Option-cases (lookup id d.actors)) [
  | inl m ↦ ground (arith, m, h)
  | inr (e, m) ↦ ground (arith, m, h)
]

module _ {V : Type 0} (env : Environment V) where
  -- The actor of a name and a key is there.
  abbrev pub exists : Text → List Text → DriverState → Bool
  exists name key d = knows (env.id_of (generate_actor_id env name key)) d

  then_with_state :
      {A B : Type 0} (r : Step A) (f : A → DriverState → DriverState × Manager.Outcome B)
      → ((a : A) (d : DriverState) → (f a d).0 ≡ d)
      → (then_with env r f).0 ≡ r.0
  then_with_state (d, ok a) f h = h a d
  then_with_state (d, err e) f h = refl

  for_id_state :
      (name id : Text) (d : DriverState)
      → (get_for_id env name id d).0 ≡ (load_actor env.reads (env.id_of id) d).0
  unfolding get_for_id
  for_id_state name id d =
      then_with_state (load_actor env.reads (env.id_of id) d) _ (λ u l. ground arith)

  with_key_state :
      (name : Text) (key : List Text) (d : DriverState)
      → (get_with_key env name key d).0
        ≡ (load_actor env.reads (env.id_of (generate_actor_id env name key)) d).0
  unfolding get_with_key
  with_key_state name key d =
      then_with_state (load_actor env.reads (env.id_of (generate_actor_id env name key)) d) _
        (λ u l. ground arith)

  get_or_create_state :
      (name : Text) (key : List Text) (input : Option V) (region : Option Text) (d : DriverState)
      → (get_or_create_with_key env name key input region d).0
        ≡ (load_or_create_actor env.reads env.writes env.now
            (env.id_of (generate_actor_id env name key))
            name
            key
            (env.input_data input)
            d).0
  unfolding get_or_create_with_key
  get_or_create_state name key input region d =
      then_with_state
        (load_or_create_actor env.reads env.writes env.now
          (env.id_of (generate_actor_id env name key)) name key (env.input_data input) d)
        _ (λ u l. ground arith)

  create_state :
      (name : Text) (key : List Text) (input : Option V) (region : Option Text) (d : DriverState)
      → (create_with_key env name key input region d).0
        ≡ (create_actor env.writes env.now
            (env.id_of (generate_actor_id env name key))
            name
            key
            (env.input_data input)
            d).0
  unfolding create_with_key
  create_state name key input region d =
      then_with_state
        (create_actor env.writes env.now (env.id_of (generate_actor_id env name key)) name key
          (env.input_data input) d)
        _ (λ u l. refl)

  -- The driver gives the two actors one id.
  abbrev pub HaveOneId : Text → List Text → Text → List Text → Type 0
  HaveOneId m k n l = generate_actor_id env m k ≡ generate_actor_id env n l

  -- The driver over files finds actors without making any, and makes only the actor of the id that
  -- it generates for the name and the key that it is given. Ids that differ are different keys of
  -- its maps.
  pub file_system_driver-DriverLaws :
      ((a b : Text) → env.id_of a ≡ env.id_of b → a ≡ b)
      → DriverLaws (file_system_driver env) exists HaveOneId
  file_system_driver-DriverLaws distinct = record {
    id_keeps = λ name id m k d.
        ap (exists m k) (for_id_state name id d)
        ∙ knows-load_actor env.reads (env.id_of id) (env.id_of (generate_actor_id env m k)) d;
    key_keeps = λ name key m k d.
        ap (exists m k) (with_key_state name key d)
        ∙ knows-load_actor env.reads (env.id_of (generate_actor_id env name key))
            (env.id_of (generate_actor_id env m k)) d;
    get_or_creates = λ name key input region m k d h.
        elim (knows-load_or_create_actor env.reads env.writes env.now
          (env.id_of (generate_actor_id env name key)) name key (env.input_data input) d
          (env.id_of (generate_actor_id env m k))
          (sym (ap (exists m k) (get_or_create_state name key input region d)) ∙ h)) [
            | inl e ↦ inl e
            | inr e ↦ inr (distinct _ _ e)
          ];
    creates = λ name key input region m k d h.
        elim (knows-create_actor env.writes env.now (env.id_of (generate_actor_id env name key))
          name key (env.input_data input) d (env.id_of (generate_actor_id env m k))
          (sym (ap (exists m k) (create_state name key input region d)) ∙ h)) [
            | inl e ↦ inl e
            | inr e ↦ inr (distinct _ _ e)
          ];
  }

  no_ok : {A : Type 0} {e : DriverError} {a : A} → thrown_of env e ≡ Manager.ok a → ⊥
  no_ok h = cc

  returned_state :
      (l : DriverState) (o : Option StoredActor) (output : Manager.ActorOutput)
      → (let r : DriverState × Manager.Outcome Manager.ActorOutput = elim o [
        | none ↦ (l, thrown_of env invariant_violation)
        | some state ↦ (l, Manager.ok (output_of env (env.text_of state.actor_id) state.name))
      ] in
          r.1 ≡ Manager.ok output)
      → elim o [ none ↦ false | some s ↦ true ] ≡ true
  returned_state l none output h = absurd (no_ok {e = invariant_violation} h)
  returned_state l (some state) output h = refl

  -- Where `getOrCreateWithKey` returns, the state is in memory.
  returned_known :
      (id : ℕ) (r : Step (Unit {0})) (output : Manager.ActorOutput)
      → (then_with env r (λ u l. elim (entry_of id l).state [
        | none ↦ (l, thrown_of env invariant_violation)
        | some state ↦ (l, Manager.ok (output_of env (env.text_of state.actor_id) state.name))
      ])).1
        ≡ Manager.ok output
      → has_state id r.0 ≡ true
  returned_known id (l, err e) output h = absurd (no_ok {e = e} h)
  returned_known id (l, ok u) output h = returned_state l (entry_of id l).state output h

  -- After a `getOrCreateWithKey` that returned, a `getWithKey` for the name and the key finds the
  -- actor and changes nothing.
  pub get_with_key-get_or_create_with_key :
      (name : Text) (key : List Text) (input : Option V) (region : Option Text) (d : DriverState)
      (output : Manager.ActorOutput)
      → (get_or_create_with_key env name key input region d).1 ≡ Manager.ok output
      → let t = (get_or_create_with_key env name key input region d).0 in
        get_with_key env name key t ≡ (
          t,
          Manager.ok (
              some (output_of env (env.text_of (env.id_of (generate_actor_id env name key))) name)),
        )
  unfolding get_or_create_with_key get_with_key
  get_with_key-get_or_create_with_key name key input region d output h =
      let id = env.id_of (generate_actor_id env name key) in
      let made =
        load_or_create_actor env.reads env.writes env.now id name key (env.input_data input) d in
      let known = returned_known id made output h in
      rw (get_or_create_state name key input region d)
        (rw (load_known env.reads id made.0 known, known) refl)
