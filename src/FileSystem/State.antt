-- ===== src/FileSystem/State.antt =====
-- The state of the driver and the operations on it.
use rivetkit.Base.{
  ℕ, Bool, true, false, not, Option, none, some, List, [], ◌∷◌, ◌++◌, leb, if◌then◌else◌, Dict,
  lookup, insert, erase, contains, Text,
}

-- Persisted data, by its encoding.
abbrev pub Value : Type 0
Value = List ℕ

-- `schema.ActorState`
pub record StoredActor : Type 0 where
  pub actor_id : ℕ
  pub name : Text
  pub key : List Text
  pub created_at : ℕ
  pub persisted_data : Value

-- `ActorEntry`. Whether `actor` is set is a Boolean. Of `loadPromise` the state holds what stays
-- behind a load: whether it rejected. `startPromise` is that of a step under way.
pub record ActorEntry : Type 0 where
  pub state : Option StoredActor
  pub load_failed : Bool
  pub running : Bool
  -- The time of `alarmTimestamp`, which `alarmTimeout` fires at.
  pub alarm_timestamp : Option ℕ
  pub removed : Bool

pub record DriverState : Type 0 where
  -- `#persist`: whether the driver writes files.
  pub persist : Bool
  pub actors : Dict ActorEntry
  -- The files of the state directory and of the alarms directory.
  pub state_files : Dict StoredActor
  pub alarm_files : Dict ℕ
  -- `#runnerParams` is set.
  pub runner_started : Bool
  -- The actors whose `_onAlarm` was called.
  pub woken : List ℕ

pub data DriverError : Type 0 where
  actor_already_exists no_entry no_state write_failed alarm_write_failed : DriverError
  invariant_violation missing_runner start_failed read_failed : DriverError

pub data Outcome (A : Type 0) : Type 0 where
  ok : A → Outcome A
  err : DriverError → Outcome A

-- The state comes back with an error too: what was written stays written.
abbrev pub Step : Type 0 → Type 0
Step A = DriverState × Outcome A

abbrev pub new_entry : ActorEntry
new_entry = record {
  state = none;
  load_failed = false;
  running = false;
  alarm_timestamp = none;
  removed = false;
}

-- `#upsertEntry`
unfoldable pub upsert_entry : ℕ → DriverState → DriverState
upsert_entry id d =
    if contains id d.actors then d else record d { actors = insert id new_entry d.actors }

unfoldable pub entry_of : ℕ → DriverState → ActorEntry
entry_of id d = elim (lookup id d.actors) [ none ↦ new_entry | some e ↦ e ]

-- An assignment to a field of the entry, which the map holds.
unfoldable pub update_entry : ℕ → (ActorEntry → ActorEntry) → DriverState → DriverState
update_entry id f d = record d { actors = insert id (f (entry_of id d)) d.actors }

-- `writeActor` with `#performWrite`; `writes` says whether the file system does the write.
unfoldable pub write_actor : Bool → ℕ → StoredActor → DriverState → Step (Unit {0})
write_actor writes id state d =
    if not d.persist
    then (d, ok tt)
    else if not (contains id d.actors)
    then (d, err invariant_violation)
    else if writes
    then (record d { state_files = insert id state d.state_files }, ok tt)
    else (d, err write_failed)

abbrev pub stored : ℕ → Text → List Text → ℕ → Value → StoredActor
stored id name key now input = record {
  actor_id = id;
  name = name;
  key = key;
  created_at = now;
  persisted_data = input;
}

-- Sets the entry's state and writes it: the ends of `createActor` and `loadOrCreateActor`.
unfoldable pub store_new : Bool → ℕ → StoredActor → DriverState → Step (Unit {0})
unfolding write_actor update_entry
store_new writes id state d =
    write_actor writes id state (update_entry id (λ e. record e { state = some state }) d)

-- `createActor`; the empty persisted data for the input comes encoded.
unfoldable pub create_actor :
    Bool → ℕ → ℕ → Text → List Text → Value → DriverState → Step (Unit {0})
unfolding upsert_entry store_new
create_actor writes now id name key input d =
    if contains id d.actors
    then (d, err actor_already_exists)
    else store_new writes id (stored id name key now input) (upsert_entry id d)

-- `loadActorState`: the file, if there is one. `reads` says whether a file that is there is read.
unfoldable pub load_actor_state : Bool → ℕ → DriverState → Step (Unit {0})
unfolding update_entry
load_actor_state reads id d = elim (lookup id d.state_files) [
  | none ↦ (d, ok tt)
  | some state ↦
      if reads
      then (update_entry id (λ e. record e { state = some state }) d, ok tt)
      else (update_entry id (λ e. record e { load_failed = true }) d, err read_failed)
]

abbrev pub has_state : ℕ → DriverState → Bool
has_state id d = elim (entry_of id d).state [ none ↦ false | some s ↦ true ]

-- `loadActor`: an entry is there in the end, with the state if the actor exists. A load that was
-- rejected stays so, as its promise is kept.
unfoldable pub load_actor : Bool → ℕ → DriverState → Step (Unit {0})
unfolding upsert_entry load_actor_state
load_actor reads id d =
    let d' = upsert_entry id d in
    if has_state id d'
    then (d', ok tt)
    else if not d'.persist
    then (d', ok tt)
    else if (entry_of id d').load_failed
    then (d', err read_failed)
    else load_actor_state reads id d'

-- `loadOrCreateActor`
unfoldable pub load_or_create_actor :
    Bool → Bool → ℕ → ℕ → Text → List Text → Value → DriverState → Step (Unit {0})
unfolding load_actor store_new
load_or_create_actor reads writes now id name key input d =
    let loaded = load_actor reads id d in
    elim loaded.1 [
      | err e ↦ (loaded.0, err e)
      | ok u ↦
          if has_state id loaded.0
          then (loaded.0, ok tt)
          else store_new writes id (stored id name key now input) loaded.0
    ]

-- `loadActorStateOrError`
unfoldable pub load_actor_state_or_error : Bool → ℕ → DriverState → Step StoredActor
unfolding load_actor
load_actor_state_or_error reads id d =
    let loaded = load_actor reads id d in
    elim loaded.1 [
      | err e ↦ (loaded.0, err e)
      | ok u ↦ elim (entry_of id loaded.0).state [
        | none ↦ (loaded.0, err no_state)
        | some state ↦ (loaded.0, ok state)
      ]
    ]

-- What comes of the lookup in the registry and of the actor's own `start`.
pub data Start : Type 0 where
  no_definition start_throws starts : Start

-- `startActor`. `startPromise` and the wait of a second caller for it are left out: the step is the
-- whole start.
unfoldable pub start_actor : Bool → Start → ℕ → DriverState → Step (Unit {0})
unfolding load_actor update_entry
start_actor reads start id d =
    let loaded = load_actor reads id d in
    elim loaded.1 [
      | err e ↦ (loaded.0, err e)
      | ok u ↦
          if not (has_state id loaded.0)
          then (loaded.0, err no_state)
          else if (entry_of id loaded.0).running
          then (loaded.0, ok tt)
          else elim start [
            | no_definition ↦ (loaded.0, err start_failed)
            | start_throws ↦
                (update_entry id (λ e. record e { running = true }) loaded.0, err start_failed)
            | starts ↦ (update_entry id (λ e. record e { running = true }) loaded.0, ok tt)
          ]
    ]

-- `sleepActor`, with the actor's `_stop` in between.
unfoldable pub sleep_actor : ℕ → DriverState → Step (Unit {0})
unfolding update_entry
sleep_actor id d =
    if not d.persist
    then (d, err invariant_violation)
    else if not (contains id d.actors)
    then (d, err invariant_violation)
    else if not (entry_of id d).running
    then (update_entry id (λ e. record e { removed = true }) d, err invariant_violation)
    else (record d { actors = erase id d.actors }, ok tt)

-- `timestamp >= entry.alarmTimestamp`, where there is an alarm.
abbrev pub is_later : ℕ → Option ℕ → Bool
is_later timestamp none = false
is_later timestamp (some current) = leb current timestamp

-- `#scheduleAlarmTimeout`
unfoldable pub schedule_alarm_timeout : ℕ → ℕ → DriverState → DriverState
unfolding upsert_entry update_entry
schedule_alarm_timeout id timestamp d =
    let d' = upsert_entry id d in
    if is_later timestamp (entry_of id d').alarm_timestamp
    then d'
    else update_entry id (λ e. record e { alarm_timestamp = some timestamp }) d'

-- `setActorAlarm`
unfoldable pub set_actor_alarm : Bool → ℕ → ℕ → DriverState → Step (Unit {0})
unfolding schedule_alarm_timeout
set_actor_alarm writes id timestamp d =
    if not (contains id d.actors)
    then (d, err invariant_violation)
    else if not d.persist
    then (schedule_alarm_timeout id timestamp d, ok tt)
    else if writes
    then (
      schedule_alarm_timeout id timestamp
          (record d { alarm_files = insert id timestamp d.alarm_files }),
      ok tt,
    )
    else (d, err alarm_write_failed)

-- The wake-up behind an alarm: the actor is loaded, started if it does not run, and called. An
-- error is logged.
unfoldable pub wake_actor : Bool → Start → ℕ → DriverState → DriverState
unfolding load_actor start_actor
wake_actor reads start id d =
    let loaded = load_actor reads id d in
    elim loaded.1 [
      | err e ↦ loaded.0
      | ok u ↦
          if not (has_state id loaded.0)
          then loaded.0
          else if not d.runner_started
          then loaded.0
          else if (entry_of id loaded.0).running
          then record (loaded.0) { woken = loaded.0.woken ++ id ∷ [] }
          else (let started = start_actor reads start id loaded.0 in
              elim started.1 [
                | err e ↦ started.0
                | ok v ↦ record (started.0) { woken = started.0.woken ++ id ∷ [] }
              ])
    ]

-- The timeout of `#scheduleAlarmTimeout` fires for the entry of the map, with its file removed.
unfoldable pub alarm_fires : Bool → Start → ℕ → DriverState → DriverState
unfolding update_entry wake_actor
alarm_fires reads start id d =
    let cleared = update_entry id (λ e. record e { alarm_timestamp = none }) d in
    wake_actor reads start id
      (if d.persist then record cleared { alarm_files = erase id d.alarm_files } else cleared)

-- `#loadAlarmsSync`, over the alarm files that are read.
unfoldable pub load_alarms : Dict ℕ → DriverState → DriverState
unfolding schedule_alarm_timeout
load_alarms [] d = d
load_alarms ((id, timestamp) ∷ files) d = load_alarms files (schedule_alarm_timeout id timestamp d)

-- `onRunnerStart`
unfoldable pub on_runner_start : DriverState → DriverState
unfolding load_alarms
on_runner_start d =
    if d.runner_started then d else load_alarms d.alarm_files (record d { runner_started = true })
