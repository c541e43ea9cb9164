-- ===== src/Actor/Start/Ready.antt =====
-- What `start` leaves: whether the actor is ready, and its alarm.
use rivetkit.Base.{
  ap, ◌||◌, ◌==◌, ==_refl, length, All, All-append, append_assoc, ℕ, ◌≡◌, refl, sym, ◌∙◌, Bool,
  true, false, Option, none, some, List, [], ◌∷◌, ◌++◌, append-nil, if◌then◌else◌, Text,
  Option-cases, Bool-cases, if_elim, inl, inr, arith,
}
use mathlib.Core.Path.{subst}
use rivetkit.Versioned.{Config}
use rivetkit.Actor.Stored.{PersistedConn, PersistedActor, PersistedScheduleEvent, BareActor, Cbor}
use rivetkit.Actor.Start.Scheduled.{is_scheduled, or_right, has_time-insert_event}
use rivetkit.Actor.Start.{
  insert_index, insert_event, is_first, schedule_event, schedule_events, with_state, calls,
  state_of, on_create_hook, create_vars_hook, on_start_hook, migrate_hook, Outcome, ok, err,
  StartConfig, Instance, Step, Hook, Hooked, and_then, run_hook, initial_state, load_connections,
  restore, write_persisted, notify_creation, create, read_persisted, initialize, set_vars,
  notify_start, set_up_database, set_first_alarm, start,
}

abbrev pub is_ok : {A : Type 0} → Outcome A → Bool
is_ok (ok a) = true
is_ok (err e) = false

-- The time of the first event, which is the next.
abbrev pub first_alarm : {V B : Type 0} → Option (PersistedActor V B) → List ℕ
first_alarm none = []
first_alarm (some p) = elim p.scheduled_events [ [] ↦ [] | e ∷ es ↦ e.timestamp ∷ [] ]

module _ {V B : Type 0} (config : StartConfig V B) (cbor : Cbor V B) (codec : Config (BareActor B))
    (has_driver : Text → Bool) (alarms : List ℕ) where
  -- Not ready yet, with the alarms there were.
  abbrev IsFresh : Instance V B → Type 0
  IsFresh i = (i.ready ≡ false) × (i.alarms ≡ alarms)

  -- Not ready yet, with the alarms there were and those of events that hooks scheduled.
  abbrev AreScheduled : List ℕ → Option (PersistedActor V B) → Type 0
  AreScheduled hooked p = All (λ t. is_scheduled p t ≡ true) hooked

  abbrev IsStarting : Instance V B → Type 0
  IsStarting i =
      (i.ready ≡ false)
      × (hooked : List ℕ) × (i.alarms ≡ alarms ++ hooked)
      × AreScheduled hooked i.persist

  fresh-IsStarting : (i : Instance V B) → IsFresh i → IsStarting i
  fresh-IsStarting i (r, a) = (r, [], a ∙ sym (append-nil alarms), tt)

  begun-IsStarting :
      {A C : Type 0} (r : Step V B A) (f : A → Instance V B → Step V B C)
      → IsFresh r.0
      → ((a : A) (i : Instance V B) → IsFresh i → IsStarting (f a i).0)
      → IsStarting (and_then r f).0
  begun-IsStarting (i, ok a) f h g = g a i h
  begun-IsStarting (i, err e) f h g = fresh-IsStarting i h

  AreScheduled-grows :
      (hooked : List ℕ) (p q : Option (PersistedActor V B))
      → ((t : ℕ) → is_scheduled p t ≡ true → is_scheduled q t ≡ true)
      → AreScheduled hooked p
      → AreScheduled hooked q
  AreScheduled-grows [] p q g h = tt
  AreScheduled-grows (t ∷ ts) p q g (h, hs) = (g t h, AreScheduled-grows ts p q g hs)

  schedule_event-IsStarting :
      (e : PersistedScheduleEvent B) (i : Instance V B)
      → IsStarting i
      → IsStarting (schedule_event e i)
  schedule_event-IsStarting e i (r, hooked, a, h) = elim (Option-cases i.persist) [
    | inl k ↦ unfold schedule_event in rw k (r, hooked, a, rw k at h)
    | inr (p, k) ↦
        let inserted = insert_event e p.scheduled_events in
        let q : PersistedActor V B = record p { scheduled_events = inserted } in
        let grows : (t : ℕ) → is_scheduled i.persist t ≡ true → is_scheduled (some q) t ≡ true =
          λ t m.
            rw (has_time-insert_event t e p.scheduled_events)
              (or_right (e.timestamp == t) _ (rw k at m)) in
        let kept = AreScheduled-grows hooked i.persist (some q) grows h in
        let here : is_scheduled (some q) e.timestamp ≡ true =
          rw (has_time-insert_event e.timestamp e p.scheduled_events, ==_refl e.timestamp) refl in
        unfold schedule_event in
        rw k
          (elim (Bool-cases
            (is_first (insert_index e p.scheduled_events) || length inserted == 1)) [
              | inl c ↦ rw c (
                r,
                hooked ++ e.timestamp ∷ [],
                ap (λ x. x ++ e.timestamp ∷ []) a ∙ append_assoc alarms hooked (e.timestamp ∷ []),
                All-append (λ t. is_scheduled (some q) t ≡ true) hooked (e.timestamp ∷ []) kept
                    (here, tt),
              )
              | inr c ↦ rw c (r, hooked, a, kept)
            ])
  ]

  schedule_events-IsStarting :
      (es : List (PersistedScheduleEvent B)) (i : Instance V B)
      → IsStarting i
      → IsStarting (schedule_events es i)
  unfolding schedule_events
  schedule_events-IsStarting [] i h = h
  schedule_events-IsStarting (e ∷ es) i h =
      schedule_events-IsStarting es (schedule_event e i) (schedule_event-IsStarting e i h)

  with_state-IsStarting : (v : V) (i : Instance V B) → IsStarting i → IsStarting (with_state v i)
  with_state-IsStarting v i (r, hooked, a, h) = elim (Option-cases i.persist) [
    | inl k ↦ (r, hooked, a, rw k (rw k at h))
    | inr (p, k) ↦ (r, hooked, a, rw k (rw k at h))
  ]

  run_hook-IsStarting :
      {A : Type 0} (hook : Hook) (f : Hooked V B A) (i : Instance V B)
      → IsStarting i
      → IsStarting (run_hook config hook f i).0
  unfolding run_hook
  run_hook-IsStarting hook f i h =
      schedule_events-IsStarting (f (state_of config i)).1 _
        (with_state-IsStarting _ (calls hook i) h)

  load_connections-IsFresh :
      (ps : List (PersistedConn V)) (i : Instance V B)
      → IsFresh i
      → IsFresh (load_connections config cbor codec has_driver ps i).0
  unfolding load_connections
  load_connections-IsFresh [] i h = h
  load_connections-IsFresh (p ∷ ps) i h = elim (Bool-cases (has_driver p.conn_driver)) [
    | inl e ↦ rw e (load_connections-IsFresh ps _ h)
    | inr e ↦ rw e h
  ]

  initial_state-IsFresh :
      (input : Option V) (i : Instance V B) → IsFresh i → IsFresh (initial_state config input i).0
  unfolding initial_state
  initial_state-IsFresh input i h = (ground (arith, h.0), ground (arith, h.1))

  notify_creation-IsStarting :
      (input : Option V) (i : Instance V B)
      → IsStarting i
      → IsStarting (notify_creation config cbor codec has_driver input i).0
  unfolding notify_creation
  notify_creation-IsStarting input i h = elim (Option-cases config.on_create) [
    | inl e ↦ rw (e, notify_creation) h
    | inr (f, e) ↦ rw (e, notify_creation) (run_hook-IsStarting on_create_hook (f input) i h)
  ]

  write_persisted-IsFresh :
      (writes : Bool) (p : PersistedActor V B) (i : Instance V B)
      → IsFresh i
      → IsFresh (write_persisted config cbor codec has_driver writes p i).0
  unfolding write_persisted
  write_persisted-IsFresh true p i h = h
  write_persisted-IsFresh false p i h = h

  create-IsStarting :
      (writes : Bool) (p : PersistedActor V B) (i : Instance V B)
      → IsFresh i
      → IsStarting (create config cbor codec has_driver writes p i).0
  unfolding create
  create-IsStarting writes p i h =
      begun-IsStarting (initial_state config p.input i) _ (initial_state-IsFresh p.input i h)
        (λ v j hj.
          let made : PersistedActor V B = record p { state = v; has_initiated = true } in
          begun-IsStarting (write_persisted config cbor codec has_driver writes made j) _
            (write_persisted-IsFresh writes made j hj)
            (λ u k hk.
              notify_creation-IsStarting p.input (record k { persist = some made })
                (fresh-IsStarting (record k { persist = some made }) hk)))

  read_persisted-IsFresh :
      (i : Instance V B) → IsFresh i → IsFresh (read_persisted config cbor codec has_driver i).0
  unfolding read_persisted
  read_persisted-IsFresh i h = elim (Option-cases i.disk) [
    | inl e ↦ rw (e, read_persisted) h
    | inr (bytes, e) ↦ rw (e, read_persisted) (ground (arith, h))
  ]

  initialize-IsStarting :
      (writes : Bool) (i : Instance V B)
      → IsFresh i
      → IsStarting (initialize config cbor codec has_driver writes i).0
  unfolding initialize restore
  initialize-IsStarting writes i h =
      begun-IsStarting (read_persisted config cbor codec has_driver i) _
        (read_persisted-IsFresh i h)
        (λ p j hj.
          if_elim (λ (r : Step V B (Unit {0})). IsStarting r.0) p.has_initiated
            (restore config cbor codec has_driver p j)
            (create config cbor codec has_driver writes p j)
            (λ e.
              fresh-IsStarting
                (load_connections config cbor codec has_driver p.connections
                  (record j { persist = some p })).0
                (load_connections-IsFresh p.connections (record j { persist = some p }) hj))
            (λ e. create-IsStarting writes p j hj))

  kept-IsStarting :
      {A C : Type 0} (r : Step V B A) (f : A → Instance V B → Step V B C)
      → IsStarting r.0
      → ((a : A) (i : Instance V B) → IsStarting i → IsStarting (f a i).0)
      → IsStarting (and_then r f).0
  kept-IsStarting (i, ok a) f h g = g a i h
  kept-IsStarting (i, err e) f h g = h

  set_vars-IsStarting :
      (i : Instance V B) → IsStarting i → IsStarting (set_vars config cbor codec has_driver i).0
  unfolding set_vars
  set_vars-IsStarting i h = elim (Option-cases config.create_vars) [
    | inl e ↦ elim (Option-cases config.vars) [
      | inl k ↦ rw (e, set_vars) (rw k h)
      | inr (v, k) ↦ rw (e, set_vars) (rw k h)
    ]
    | inr (f, e) ↦
        rw (e, set_vars)
          (kept-IsStarting (run_hook config create_vars_hook f i) _
            (run_hook-IsStarting create_vars_hook f i h) (λ v j hj. hj))
  ]

  notify_start-IsStarting :
      (i : Instance V B) → IsStarting i → IsStarting (notify_start config cbor codec has_driver i).0
  unfolding notify_start
  notify_start-IsStarting i h = elim (Option-cases config.on_start) [
    | inl e ↦ rw (e, notify_start) h
    | inr (f, e) ↦ rw (e, notify_start) (run_hook-IsStarting on_start_hook f i h)
  ]

  set_up_database-IsStarting :
      (i : Instance V B)
      → IsStarting i
      → IsStarting (set_up_database config cbor codec has_driver i).0
  unfolding set_up_database
  set_up_database-IsStarting i h = elim (Option-cases config.db) [
    | inl e ↦ rw (e, set_up_database) h
    | inr (outcome, e) ↦
        rw (e, set_up_database) (kept-IsStarting (calls migrate_hook i, outcome) _ h (λ u j hj. hj))
  ]

  -- What a start leaves: ready if nothing threw, and then with the alarm of its first event, behind
  -- the alarms of events that hooks scheduled.
  abbrev pub IsStarted : Step V B (Unit {0}) → Type 0
  IsStarted r =
      (r.0.ready ≡ is_ok r.1)
      × (hooked : List ℕ) × (r.0.alarms
          ≡ alarms ++ hooked ++ (if is_ok r.1 then first_alarm r.0.persist else []))
      × AreScheduled hooked r.0.persist

  and_then-IsStarted :
      {A : Type 0} (r : Step V B A) (f : A → Instance V B → Step V B (Unit {0}))
      → IsStarting r.0
      → ((a : A) (i : Instance V B) → IsStarting i → IsStarted (f a i))
      → IsStarted (and_then r f)
  and_then-IsStarted (i, ok a) f h g = g a i h
  and_then-IsStarted (i, err e) f (r, hooked, a, h) g =
      (r, hooked, a ∙ sym (append-nil (alarms ++ hooked)), h)

  set_first_alarm_alarms :
      (i : Instance V B)
      → ((set_first_alarm config cbor codec has_driver i).alarms
          ≡ i.alarms ++ first_alarm i.persist)
        × ((set_first_alarm config cbor codec has_driver i).persist ≡ i.persist)
  unfolding set_first_alarm
  set_first_alarm_alarms i = ground (arith, append-nil i.alarms)

  set_first_alarm-IsStarted :
      (i : Instance V B)
      → IsStarting i
      → IsStarted (record (set_first_alarm config cbor codec has_driver i) { ready = true }, ok tt)
  set_first_alarm-IsStarted i (r, hooked, a, h) =
      let (times, same) = set_first_alarm_alarms i in
      (
        refl,
        hooked,
        times
            ∙ ap (λ x. x ++ first_alarm i.persist) a
            ∙ ap (λ q. alarms ++ hooked ++ first_alarm q) (sym same),
        subst (AreScheduled hooked) (sym same) h,
      )

  start-IsStarted :
      (writes : Bool) (i : Instance V B)
      → IsFresh i
      → IsStarted (start config cbor codec has_driver writes i)
  unfolding start
  start-IsStarted writes i h =
      and_then-IsStarted (initialize config cbor codec has_driver writes i) _
        (initialize-IsStarting writes i h)
        (λ u j hj.
          and_then-IsStarted (set_vars config cbor codec has_driver j) _ (set_vars-IsStarting j hj)
            (λ u k hk.
              and_then-IsStarted (notify_start config cbor codec has_driver k) _
                (notify_start-IsStarting k hk)
                (λ u l hl.
                  and_then-IsStarted (set_up_database config cbor codec has_driver l) _
                    (set_up_database-IsStarting l hl) (λ u m hm. set_first_alarm-IsStarted m hm))))

-- An actor that is not ready is ready after `start` exactly where nothing in it threw. Where nothing
-- threw, the last alarm that is set is that of its first scheduled event, if it has one. All other
-- alarms that are set are of scheduled events.
pub start_lem :
    {V B : Type 0} (config : StartConfig V B) (cbor : Cbor V B) (codec : Config (BareActor B))
    (has_driver : Text → Bool) (writes : Bool) (i : Instance V B)
    → i.ready ≡ false
    → let r = start config cbor codec has_driver writes i in
      (r.0.ready ≡ is_ok r.1)
      × (hooked : List ℕ) × (r.0.alarms
          ≡ i.alarms ++ hooked ++ (if is_ok r.1 then first_alarm r.0.persist else []))
      × All (λ t. is_scheduled r.0.persist t ≡ true) hooked
start_lem config cbor codec has_driver writes i h =
    start-IsStarted config cbor codec has_driver i.alarms writes i (h, refl)
