-- ===== src/Actor/Start.antt =====
-- `start` and `#initialize` of packages/rivetkit/src/actor/instance.ts, over the stored form of an
-- actor. The user's hooks, CBOR and the codec of the stored form are arguments.
pub mod Ready
pub mod Scheduled
pub mod Twice
use rivetkit.Base.{
  ℕ, Bool, true, false, ◌||◌, Option, none, some, List, [], ◌∷◌, ◌++◌, if◌then◌else◌, Text,
  find_index, insert_at, length, ltb, ◌==◌,
}
use rivetkit.Versioned
use rivetkit.Versioned.{
  Bytes, Config, VersionError, serialize_with_embedded_version, deserialize_with_embedded_version,
}
use rivetkit.Actor.Stored.{
  PersistedConn, PersistedActor, PersistedScheduleEvent, BareActor, Cbor, convert_to_bare_persisted,
  convert_from_bare_persisted,
}

pub data StartError : Type 0 where
  -- The invariant on the persisted data, and what the versioned codec throws.
  no_persisted_data : StartError
  version_error : VersionError → StartError
  no_connection_driver : Text → StartError
  write_failed : StartError
  -- What a hook of the user throws.
  hook_throws : Text → StartError

pub data Outcome (A : Type 0) : Type 0 where
  ok : A → Outcome A
  err : StartError → Outcome A

-- The calls of the user's code.
pub data Hook : Type 0 where
  create_state_hook on_create_hook create_vars_hook on_start_hook migrate_hook : Hook

-- A hook of the user's, which is given the state by its value: the value that it leaves, the events
-- that it schedules while it runs, and what it comes to.
abbrev pub Hooked : Type 0 → Type 0 → Type 0 → Type 0
Hooked V B A = V → V × List (PersistedScheduleEvent B) × Outcome A

-- The part of `ActorConfig` that `start` reads; `undefined` is the state where there is none.
pub record StartConfig (V B : Type 0) : Type 0 where
  pub create_state : Option (Option V → Outcome V)
  pub state : Option V
  pub on_create : Option (Option V → Hooked V B (Unit {0}))
  pub create_vars : Option (Hooked V B V)
  pub vars : Option V
  pub on_start : Option (Hooked V B (Unit {0}))
  -- `createClient` and `onMigrate` of a database
  pub db : Option (Outcome (Unit {0}))
  pub undefined : V

-- The instance and what it has outside.
pub record Instance (V B : Type 0) : Type 0 where
  -- What the driver's `readPersistedData` gives.
  pub disk : Option Bytes
  -- `#persist`
  pub persist : Option (PersistedActor V B)
  -- `#connections`, by their ids, and the subscriptions in the index.
  pub connections : List Text
  pub subscriptions : List (Text × Text)
  pub vars : Option V
  pub db_ready : Bool
  -- The times of `#queueSetAlarm`.
  pub alarms : List ℕ
  pub ready : Bool
  pub called : List Hook

abbrev pub Step : Type 0 → Type 0 → Type 0 → Type 0
Step V B A = Instance V B × Outcome A

abbrev pub and_then : {V B A C : Type 0} → Step V B A → (A → Instance V B → Step V B C) → Step V B C
and_then (i, ok a) f = f a i
and_then (i, err e) f = (i, err e)

abbrev pub calls : {V B : Type 0} → Hook → Instance V B → Instance V B
calls hook i = record i { called = i.called ++ hook ∷ [] }

-- The state as a hook finds it and leaves it.
abbrev pub with_state : {V B : Type 0} → V → Instance V B → Instance V B
with_state v i = record i {
  persist = elim i.persist [ none ↦ none | some p ↦ some (record p { state = v }) ];
}

-- The place of an event: before the first later one.
abbrev pub insert_index :
    {B : Type 0} → PersistedScheduleEvent B → List (PersistedScheduleEvent B) → Option ℕ
insert_index event events = find_index (λ x. ltb event.timestamp x.timestamp) events

abbrev pub insert_event :
    {B : Type 0}
    → PersistedScheduleEvent B
    → List (PersistedScheduleEvent B)
    → List (PersistedScheduleEvent B)
insert_event event events = elim (insert_index event events) [
  | none ↦ events ++ event ∷ []
  | some n ↦ insert_at n event events
]

abbrev pub is_first : Option ℕ → Bool
is_first none = false
is_first (some n) = n == 0

-- `#scheduleEventInner`, which sets the alarm for an event that is now the first.
unfoldable pub schedule_event :
    {V B : Type 0} → PersistedScheduleEvent B → Instance V B → Instance V B
schedule_event event i = elim i.persist [
  | none ↦ i
  | some p ↦
      let inserted = insert_event event p.scheduled_events in
      record i {
        persist = some (record p { scheduled_events = inserted });
        alarms =
            if is_first (insert_index event p.scheduled_events) || length inserted == 1
            then i.alarms ++ event.timestamp ∷ []
            else i.alarms;
      }
]

unfoldable pub schedule_events :
    {V B : Type 0} → List (PersistedScheduleEvent B) → Instance V B → Instance V B
unfolding schedule_event
schedule_events [] i = i
schedule_events (event ∷ events) i = schedule_events events (schedule_event event i)

module _ {V B : Type 0} (config : StartConfig V B) where
  abbrev pub state_of : Instance V B → V
  state_of i = elim i.persist [ none ↦ config.undefined | some p ↦ p.state ]

  -- A hook is called on the state.
  unfoldable pub run_hook : {A : Type 0} → Hook → Hooked V B A → Instance V B → Step V B A
  unfolding schedule_events
  run_hook hook f i =
      let (v, events, outcome) = f (state_of i) in
      (schedule_events events (with_state v (calls hook i)), outcome)

  -- The state of a new actor.
  unfoldable pub initial_state : Option V → Instance V B → Step V B V
  initial_state input i = elim config.create_state [
    | some create ↦ (calls create_state_hook i, create input)
    | none ↦ elim config.state [ some v ↦ (i, ok v) | none ↦ (i, ok config.undefined) ]
  ]

  module _ (cbor : Cbor V B) (codec : Config (BareActor B)) (has_driver : Text → Bool) where
    -- `#convertToBarePersisted` with the versioned codec.
    abbrev pub stored : PersistedActor V B → Bytes
    stored p = serialize_with_embedded_version codec (convert_to_bare_persisted cbor p)

    abbrev pub subscribed : Text → List Text → List (Text × Text)
    subscribed id [] = []
    subscribed id (name ∷ names) = (name, id) ∷ subscribed id names

    -- The loop over the persisted connections.
    unfoldable pub load_connections : List (PersistedConn V) → Instance V B → Step V B (Unit {0})
    load_connections [] i = (i, ok tt)
    load_connections (p ∷ ps) i =
        if has_driver p.conn_driver
        then load_connections ps (record i {
          connections = i.connections ++ p.conn_id ∷ [];
          subscriptions = i.subscriptions ++ subscribed p.conn_id p.subscriptions;
        })
        else (i, err (no_connection_driver p.conn_driver))

    -- The branch of an actor that was initiated before.
    unfoldable pub restore : PersistedActor V B → Instance V B → Step V B (Unit {0})
    unfolding load_connections
    restore p i = load_connections p.connections (record i { persist = some p })

    -- `writePersistedData`, which `writes` says to succeed or not.
    unfoldable pub write_persisted : Bool → PersistedActor V B → Instance V B → Step V B (Unit {0})
    write_persisted writes p i =
        if writes then (record i { disk = some (stored p) }, ok tt) else (i, err write_failed)

    -- `onCreate`, if there is one.
    unfoldable pub notify_creation : Option V → Instance V B → Step V B (Unit {0})
    unfolding run_hook
    notify_creation input i = elim config.on_create [
      | none ↦ (i, ok tt)
      | some on_create ↦ run_hook on_create_hook (on_create input) i
    ]

    -- The branch of a new actor.
    unfoldable pub create : Bool → PersistedActor V B → Instance V B → Step V B (Unit {0})
    unfolding initial_state write_persisted notify_creation
    create writes p i = and_then (initial_state p.input i) (λ v j.
        let made = record p { state = v; has_initiated = true } in
        and_then (write_persisted writes made j)
          (λ u k. notify_creation p.input (record k { persist = some made })))

    -- The persisted data, decoded.
    unfoldable pub decode_persisted : Bytes → Instance V B → Step V B (PersistedActor V B)
    decode_persisted bytes i = elim (deserialize_with_embedded_version codec bytes) [
      | Versioned.ok b ↦ (i, ok (convert_from_bare_persisted cbor b))
      | Versioned.err e ↦ (i, err (version_error e))
    ]

    unfoldable pub read_persisted : Instance V B → Step V B (PersistedActor V B)
    unfolding decode_persisted
    read_persisted i = elim i.disk [
      | none ↦ (i, err no_persisted_data)
      | some bytes ↦ decode_persisted bytes i
    ]

    -- `#initialize`
    unfoldable pub initialize : Bool → Instance V B → Step V B (Unit {0})
    unfolding read_persisted restore create
    initialize writes i =
        and_then (read_persisted i)
          (λ p j. if p.has_initiated then restore p j else create writes p j)

    -- The variables.
    unfoldable pub set_vars : Instance V B → Step V B (Unit {0})
    unfolding run_hook
    set_vars i = elim config.create_vars [
      | some create ↦
          and_then (run_hook create_vars_hook create i) (λ v j. (record j { vars = some v }, ok tt))
      | none ↦ elim config.vars [ some v ↦ (record i { vars = some v }, ok tt) | none ↦ (i, ok tt) ]
    ]

    -- `onStart`
    unfoldable pub notify_start : Instance V B → Step V B (Unit {0})
    unfolding run_hook
    notify_start i = elim config.on_start [
      | none ↦ (i, ok tt)
      | some on_start ↦ run_hook on_start_hook on_start i
    ]

    -- The database.
    unfoldable pub set_up_database : Instance V B → Step V B (Unit {0})
    set_up_database i = elim config.db [
      | none ↦ (i, ok tt)
      | some outcome ↦
          and_then (calls migrate_hook i, outcome) (λ u j. (record j { db_ready = true }, ok tt))
    ]

    -- The alarm of the first scheduled event.
    unfoldable pub set_first_alarm : Instance V B → Instance V B
    set_first_alarm i = elim i.persist [
      | none ↦ i
      | some p ↦ elim p.scheduled_events [
        | [] ↦ i
        | e ∷ es ↦ record i { alarms = i.alarms ++ e.timestamp ∷ [] }
      ]
    ]

    -- `start`, up to the sleep timer and the interval of the liveness check.
    unfoldable pub start : Bool → Instance V B → Step V B (Unit {0})
    unfolding initialize set_vars notify_start set_up_database set_first_alarm
    start writes i = and_then (initialize writes i) (λ u j. and_then (set_vars j) (λ u k.
        and_then (notify_start k) (λ u l.
          and_then (set_up_database l)
            (λ u m. (record (set_first_alarm m) { ready = true }, ok tt)))))
