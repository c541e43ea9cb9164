-- ===== src/FileSystem/Driver.antt =====
-- The manager's driver over files: `getForId`, `getWithKey`, `getOrCreateWithKey` and `createActor`
-- of packages/rivetkit/src/drivers/file-system/manager.ts, as an implementation of the interface
-- that the manager's router takes.
pub mod Laws
use rivetkit.Base.{take, ℕ, Bool, true, false, Option, none, some, List, if◌then◌else◌, Text}
use rivetkit.Manager
use rivetkit.Manager.{ManagerError, thrown, ActorOutput, ManagerDriver}
use rivetkit.FileSystem.State.{
  Value, DriverState, DriverError, actor_already_exists, ok, err, Step, entry_of, has_state,
  load_actor, create_actor, load_or_create_actor, invariant_violation,
}

-- What the driver is over: the JSON text of a name and a key, the digits of SHA-256, ids as keys of
-- the maps and back, the data for an input, the clock, the
-- messages of errors, and whether files are read and written.
pub record Environment (V : Type 0) : Type 0 where
  pub stringify : Text → List Text → Text
  pub sha256_hex : Text → Text
  pub text_of : ℕ → Text
  pub id_of : Text → ℕ
  pub input_data : Option V → Value
  pub now : ℕ
  pub message : DriverError → Text
  pub reads : Bool
  pub writes : Bool

-- `generateActorId`: the first 16 digits of the hash.
unfoldable pub generate_actor_id : {V : Type 0} → Environment V → Text → List Text → Text
generate_actor_id env name key = take 16 (env.sha256_hex (env.stringify name key))

-- The only error of the library among them is `ActorAlreadyExists`.
abbrev pub is_actor_error : DriverError → Bool
is_actor_error actor_already_exists = true
is_actor_error _ = false

module _ {V : Type 0} (env : Environment V) where
  abbrev pub thrown_of : {A : Type 0} → DriverError → Manager.Outcome A
  thrown_of e = Manager.err (thrown (is_actor_error e) (env.message e))

  -- What follows a step of the state's, which may throw.
  abbrev pub then_with :
      {A B : Type 0}
      → Step A
      → (A → DriverState → DriverState × Manager.Outcome B)
      → DriverState × Manager.Outcome B
  then_with (d, ok a) f = f a d
  then_with (d, err e) f = (d, thrown_of e)

  abbrev pub output_of : Text → Text → ActorOutput
  output_of id name = record { actor_id = id; name = name }

  -- `getForId`
  unfoldable pub get_for_id :
      Text → Text → DriverState → DriverState × Manager.Outcome (Option ActorOutput)
  unfolding load_actor entry_of
  get_for_id name id d = then_with (load_actor env.reads (env.id_of id) d) (λ u l.
      elim (entry_of (env.id_of id) l).state [
        | none ↦ (l, Manager.ok none)
        | some state ↦ (l, Manager.ok (some (output_of id state.name)))
      ])

  -- `getWithKey`
  unfoldable pub get_with_key :
      Text → List Text → DriverState → DriverState × Manager.Outcome (Option ActorOutput)
  unfolding load_actor
  get_with_key name key d =
      let id = env.id_of (generate_actor_id env name key) in
      then_with (load_actor env.reads id d) (λ u l.
        if has_state id l
        then (l, Manager.ok (some (output_of (env.text_of id) name)))
        else (l, Manager.ok none))

  -- `getOrCreateWithKey`; the region is not read.
  unfoldable pub get_or_create_with_key :
      Text
      → List Text
      → Option V
      → Option Text
      → DriverState
      → DriverState × Manager.Outcome ActorOutput
  unfolding load_or_create_actor entry_of
  get_or_create_with_key name key input region d =
      let id = env.id_of (generate_actor_id env name key) in
      then_with
        (load_or_create_actor env.reads env.writes env.now id name key (env.input_data input) d)
        (λ u l. elim (entry_of id l).state [
          | none ↦ (l, thrown_of invariant_violation)
          | some state ↦ (l, Manager.ok (output_of (env.text_of state.actor_id) state.name))
        ])

  -- `createActor`
  unfoldable pub create_with_key :
      Text
      → List Text
      → Option V
      → Option Text
      → DriverState
      → DriverState × Manager.Outcome ActorOutput
  unfolding create_actor
  create_with_key name key input region d =
      let id = env.id_of (generate_actor_id env name key) in
      then_with (create_actor env.writes env.now id name key (env.input_data input) d)
        (λ u l. (l, Manager.ok (output_of (env.text_of id) name)))

  -- `FileSystemManagerDriver`
  abbrev pub file_system_driver : ManagerDriver DriverState V
  file_system_driver = record {
    get_for_id = get_for_id;
    get_with_key = get_with_key;
    get_or_create_with_key = get_or_create_with_key;
    create_actor = create_with_key;
  }
