-- ===== src/FileSystem/Entries.antt =====
-- The entries of the driver: loading, creating and starting actors.
use rivetkit.Base.{
  ℕ, Option-cases, inl, inr, ◌≡◌, Bool, true, false, none, some, List, arith, if◌then◌else◌, lookup,
  insert, erase, contains, lookup-insert, lookup-erase, Text, ==_refl,
}
use rivetkit.FileSystem.State.{
  Value, DriverState, ok, err, new_entry, entry_of, has_state, stored, create_actor, load_actor,
  load_or_create_actor, load_actor_state_or_error, Start, start_actor, sleep_actor,
  actor_already_exists, start_failed, start_throws,
}

-- Where `loadOrCreateActor` does not throw, the entry's state is in the end the one in memory,
-- else the one of the file where the driver keeps files, else the new one.
pub load_or_create_actor_state :
    (reads writes : Bool) (now id : ℕ) (name : Text) (key : List Text) (input : Value)
    (d : DriverState)
    → let t = load_or_create_actor reads writes now id name key input d in
      let found = (if d.persist then lookup id d.state_files else none) in
      let created = stored id name key now input in
      t.1 ≡ ok tt
      → (entry_of id t.0).state ≡ elim (entry_of id d).state [
        | some state ↦ some state
        | none ↦ elim found [ none ↦ some created | some state ↦ some state ]
      ]
unfolding load_or_create_actor entry_of
load_or_create_actor_state reads writes now id name key input d h =
    let created = stored id name key now input in
    let first = insert id new_entry d.actors in
    elim (Option-cases (lookup id d.actors)) [
      | inl m ↦ elim (Option-cases (lookup id d.state_files)) [
        | inl f ↦ ground (
          arith,
          lookup-insert id id new_entry d.actors,
          lookup-insert id id (record new_entry { state = some created }) first,
          ==_refl id,
        )
        | inr (state, f) ↦ ground (
          arith,
          lookup-insert id id new_entry d.actors,
          lookup-insert id id (record new_entry { state = some state }) first,
          lookup-insert id id (record new_entry { state = some created }) first,
          ==_refl id,
        )
      ]
      | inr (e, m) ↦ elim (Option-cases (lookup id d.state_files)) [
        | inl f ↦
            ground
              (arith, lookup-insert id id (record e { state = some created }) d.actors, ==_refl id)
        | inr (state, f) ↦ ground (
          arith,
          lookup-insert id id (record e { state = some state }) d.actors,
          lookup-insert id id (record e { state = some created }) d.actors,
          ==_refl id,
        )
      ]
    ]

-- A load of an actor that neither memory nor disk has leaves an entry behind: `createActor`
-- then says that the actor exists, while a load still gives none.
pub load_then_create :
    (reads writes : Bool) (now id : ℕ) (name : Text) (key : List Text) (input : Value)
    (d : DriverState)
    → lookup id d.actors ≡ none
    → lookup id d.state_files ≡ none
    → let d' = (load_actor reads id d).0 in
      (create_actor writes now id name key input d' ≡ (d', err actor_already_exists))
      × (load_actor reads id d' ≡ (d', ok tt))
      × (has_state id d' ≡ false)
unfolding load_actor create_actor entry_of
load_then_create reads writes now id name key input d m f =
    ground (arith, lookup-insert id id new_entry d.actors, ==_refl id)

-- Where the driver keeps files and has no entry of an actor, and each step succeeds, an actor
-- that is created, started and put to sleep has no entry any more and is read back from its
-- file as it was created.
pub create_sleep_load :
    (now id : ℕ) (name : Text) (key : List Text) (input : Value) (d : DriverState)
    → lookup id d.actors ≡ none
    → d.persist ≡ true
    → let created = create_actor true now id name key input d in
      let started = start_actor true Start.starts id created.0 in
      let slept = sleep_actor id started.0 in
      (created.1 ≡ ok tt)
      × (started.1 ≡ ok tt)
      × (slept.1 ≡ ok tt)
      × (contains id slept.0.actors ≡ false)
      × ((load_actor_state_or_error true id slept.0).1 ≡ ok (stored id name key now input))
unfolding create_actor start_actor sleep_actor load_actor_state_or_error entry_of
create_sleep_load now id name key input d m p =
    let created = stored id name key now input in
    let first = insert id new_entry d.actors in
    let e = record new_entry { state = some created } in
    let second = insert id e first in
    let third = insert id (record e { running = true }) second in
    ground (
      arith,
      lookup-insert id id new_entry d.actors,
      lookup-insert id id e first,
      lookup-insert id id (record e { running = true }) second,
      lookup-erase id id third,
      lookup-insert id id created d.state_files,
      lookup-insert id id new_entry (erase id third),
      lookup-insert id id e (insert id new_entry (erase id third)),
      ==_refl id,
    )

-- An actor that is loaded, does not run, and whose own `start` throws stays in its entry: the
-- start throws, and the next start returns the actor as started, whatever its own `start` would
-- do.
pub failed_start_stays :
    (reads again : Bool) (next : Start) (id : ℕ) (d : DriverState)
    → let failed = start_actor reads start_throws id d in
      has_state id d ≡ true
      → (entry_of id d).running ≡ false
      → (failed.1 ≡ err start_failed) × (start_actor again next id failed.0 ≡ (failed.0, ok tt))
unfolding start_actor entry_of
failed_start_stays reads again next id d s r = elim (Option-cases (lookup id d.actors)) [
  | inl m ↦ ground arith
  | inr (e, m) ↦
      ground (arith, lookup-insert id id (record e { running = true }) d.actors, ==_refl id)
]
