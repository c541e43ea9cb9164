-- ===== src/Tests/Starts.antt =====
-- The start of an actor: packages/rivetkit/src/actor/instance.ts.
use rivetkit.Base.{
  List, All, ℕ, ◌≡◌, refl, Bool, true, false, not, Option, none, some, [], ◌∷◌, ◌++◌, ◌==◌,
  if◌then◌else◌, Text, codes, arith,
}
use rivetkit.Versioned
use rivetkit.Versioned.{
  Bytes, Config, serialize_with_embedded_version, deserialize_with_embedded_version,
}
use rivetkit.Actor.Stored.{
  PersistedActor, PersistedScheduleEvent, BareActor, Cbor, convert_to_bare_persisted,
  convert_from_bare_persisted,
}
use rivetkit.Actor.Start.{
  ok, err, hook_throws, StartConfig, Instance, create_state_hook, on_create_hook, initial_state,
  initialize, start, stored, create, read_persisted, decode_persisted, write_persisted,
  notify_creation, run_hook,
}
use rivetkit.Actor.Start.Ready.{is_ok, first_alarm, start_lem}
use rivetkit.Actor.Start.Scheduled.{is_scheduled}
use rivetkit.Actor.Start.Twice.{CodecLaws, initialize-initialize}

-- An event before the one that there is.
abbrev early : PersistedScheduleEvent ℕ
early = record { event_id = codes "f"; timestamp = 30; action_name = codes "run"; args = none }

-- Values and their encodings are numbers; the state starts at 1, and `onCreate` schedules an event
-- and throws.
abbrev config : StartConfig ℕ ℕ
config = record {
  create_state = some (λ input. ok 1);
  state = none;
  on_create = some (λ input v. (v, early ∷ [], err (hook_throws (codes "no"))));
  create_vars = none;
  vars = none;
  on_start = none;
  db = none;
  undefined = 0;
}

abbrev cbor : Cbor ℕ ℕ
cbor = record { encode = λ v. v; decode = λ b. b; is_truthy = λ v. not (v == 0); empty_object = 9 }

abbrev new_actor : PersistedActor ℕ ℕ
new_actor = record {
  input = some 4;
  has_initiated = false;
  state = 0;
  connections = [];
  scheduled_events =
      record { event_id = codes "e"; timestamp = 70; action_name = codes "run"; args = none } ∷ [];
}

-- A codec that tells the actor by whether it was initiated, and by its state.
abbrev bare_of : Bool → ℕ → BareActor ℕ
bare_of initiated v = record {
  input = some 4;
  has_initialized = initiated;
  state = v;
  connections = [];
  scheduled_events =
      record { event_id = codes "e"; timestamp = 70; action = codes "run"; args = none } ∷ [];
}

abbrev read_bare : Bytes → Versioned.Result (BareActor ℕ)
read_bare (a ∷ v ∷ bs) = Versioned.ok (bare_of (a == 1) v)
read_bare _ = Versioned.err Versioned.malformed

abbrev codec : Config (BareActor ℕ)
codec = record {
  current_version = 1;
  migrations = λ v. none;
  serialize_version = λ b. (if b.has_initialized then 1 else 0) ∷ b.state ∷ [];
  deserialize_version = read_bare;
}

abbrev laws : CodecLaws cbor codec
laws = record { cbor_reads = λ v. refl; version_fits = omega arith }

abbrev all_drivers : Text → Bool
all_drivers name = true

-- The instance before its start, with what is on disk.
abbrev instance_of : Option Bytes → Instance ℕ ℕ
instance_of disk = record {
  disk = disk;
  persist = none;
  connections = [];
  subscriptions = [];
  vars = none;
  db_ready = false;
  alarms = [];
  ready = false;
  called = [];
}

abbrev first_start : Instance ℕ ℕ
first_start = instance_of (some (stored config cbor codec all_drivers new_actor))

-- The first start calls both hooks and fails.
first_run :
    ((start config cbor codec all_drivers true first_start).0.called
      ≡ create_state_hook ∷ on_create_hook ∷ [])
    × ((start config cbor codec all_drivers true first_start).1 ≡ err (hook_throws (codes "no")))
unfolding start initialize create read_persisted decode_persisted initial_state write_persisted
    notify_creation run_hook Versioned.serialize_with_embedded_version
    Versioned.deserialize_with_embedded_version convert_to_bare_persisted
    convert_from_bare_persisted
first_run = (refl, refl)

second_start : Instance ℕ ℕ
second_start = instance_of (initialize config cbor codec all_drivers true first_start).0.disk

start_lem_example :
    let r = start config cbor codec all_drivers true first_start in
    (r.0.ready ≡ is_ok r.1)
    × (hooked : List ℕ) × (r.0.alarms
        ≡ first_start.alarms ++ hooked ++ (if is_ok r.1 then first_alarm r.0.persist else []))
    × All (λ t. is_scheduled r.0.persist t ≡ true) hooked
start_lem_example = start_lem config cbor codec all_drivers true first_start refl

made : (initial_state config (some 4) first_start).1 ≡ ok 1
unfolding initial_state
made = refl

reads_new :
    codec.deserialize_version (codec.serialize_version (convert_to_bare_persisted cbor new_actor))
    ≡ Versioned.ok (convert_to_bare_persisted cbor new_actor)
unfolding convert_to_bare_persisted
reads_new = refl

abbrev made_actor : PersistedActor ℕ ℕ
made_actor = record new_actor { state = 1; has_initiated = true }

reads_made :
    codec.deserialize_version (codec.serialize_version (convert_to_bare_persisted cbor made_actor))
    ≡ Versioned.ok (convert_to_bare_persisted cbor made_actor)
unfolding convert_to_bare_persisted
reads_made = refl

initialize-initialize_example :
    initialize config cbor codec all_drivers true second_start
    ≡ (record second_start { persist = some made_actor }, ok tt)
unfolding second_start
initialize-initialize_example =
    initialize-initialize config cbor codec all_drivers laws true new_actor first_start second_start
      1 reads_new reads_made refl refl refl made refl
