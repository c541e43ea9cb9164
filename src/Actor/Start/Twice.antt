-- ===== src/Actor/Start/Twice.antt =====
-- An actor that starts again from what its first start wrote.
use rivetkit.Base.{
  ◌^◌, ◌<◌, ◌≡◌, refl, sym, ap, ◌∙◌, Bool, true, false, Option, none, some, List, [], ◌∷◌,
  Option-cases, inl, inr, if◌then◌else◌, Text, map, arith,
}
use rivetkit.Versioned
use rivetkit.Versioned.{Bytes, Config, deserialize_with_embedded_version}
use rivetkit.Versioned.Laws.{deserialize-serialize_with_embedded_version}
use rivetkit.Actor.Stored.{
  PersistedActor, PersistedScheduleEvent, BareActor, Cbor, filled, convert_to_bare_persisted,
  convert_from-convert_to,
}
use rivetkit.Actor.Start.{
  Hook, Hooked, on_create_hook, state_of, schedule_event, schedule_events, StartError, ok, err,
  load_connections, StartConfig, Instance, Step, and_then, run_hook, initial_state, restore,
  write_persisted, notify_creation, create, no_persisted_data, decode_persisted, read_persisted,
  initialize, stored,
}

-- CBOR reads back what it writes, and the version has four bytes.
pub record CodecLaws {V B : Type 0} (cbor : Cbor V B) (codec : Config (BareActor B)) : Type 0 where
  pub cbor_reads : (v : V) → cbor.decode (cbor.encode v) ≡ v
  pub version_fits : codec.current_version < 2 ^ 32

-- The codec reads an actor back that it writes.
abbrev pub ReadsActor :
    {V B : Type 0} → Cbor V B → Config (BareActor B) → PersistedActor V B → Type 0
ReadsActor cbor codec p =
    codec.deserialize_version (codec.serialize_version (convert_to_bare_persisted cbor p))
    ≡ Versioned.ok (convert_to_bare_persisted cbor p)

ok_eq : {A : Type 0} {a b : A} → ok a ≡ ok b → a ≡ b
ok_eq h = cc

err_ok : {A : Type 0} {a : A} {e : StartError} → err e ≡ ok a → ⊥
err_ok h = cc

and_then_ok :
    {V B A C : Type 0} (r : Step V B A) (f : A → Instance V B → Step V B C) (a : A)
    → r.1 ≡ ok a
    → and_then r f ≡ f a r.0
and_then_ok (i, ok b) f a h = ap (λ x. f x i) (ok_eq h)
and_then_ok (i, err e) f a h = absurd (err_ok h)

module _ {V B : Type 0} (config : StartConfig V B) (cbor : Cbor V B) (codec : Config (BareActor B))
    (has_driver : Text → Bool) (laws : CodecLaws cbor codec) where
  -- What is read of an actor that was stored.
  abbrev pub reread : PersistedActor V B → PersistedActor V B
  reread p = record p { connections = map (filled cbor) p.connections }

  decode-stored :
      (p : PersistedActor V B) (i : Instance V B)
      → ReadsActor cbor codec p
      → decode_persisted config cbor codec has_driver (stored config cbor codec has_driver p) i
        ≡ (i, ok (reread p))
  unfolding decode_persisted
  decode-stored p i c =
      rw
        (
          deserialize-serialize_with_embedded_version codec (convert_to_bare_persisted cbor p)
              laws.version_fits c,
          decode_persisted,
        )
        (ap (λ q. (i, ok q)) (convert_from-convert_to cbor laws.cbor_reads p))

  read-stored :
      (p : PersistedActor V B) (i : Instance V B)
      → ReadsActor cbor codec p
      → i.disk ≡ some (stored config cbor codec has_driver p)
      → read_persisted config cbor codec has_driver i ≡ (i, ok (reread p))
  unfolding read_persisted
  read-stored p i c h =
      ap
        (λ d. elim d [
          | none ↦ (i, err no_persisted_data)
          | some bytes ↦ decode_persisted config cbor codec has_driver bytes i
        ])
        h
      ∙ decode-stored p i c

  -- The initial state's step and the hook leave the disk as it is.
  initial_state_disk :
      (input : Option V) (i : Instance V B) → (initial_state config input i).0.disk ≡ i.disk
  unfolding initial_state
  initial_state_disk input i = ground arith

  schedule_events_disk :
      (events : List (PersistedScheduleEvent B)) (i : Instance V B)
      → (schedule_events events i).disk ≡ i.disk
  unfolding schedule_events schedule_event
  schedule_events_disk [] i = refl
  schedule_events_disk (event ∷ events) i =
      schedule_events_disk events (schedule_event event i) ∙ (unfold schedule_event in ground arith)

  run_hook_disk :
      {A : Type 0} (hook : Hook) (f : Hooked V B A) (i : Instance V B)
      → (run_hook config hook f i).0.disk ≡ i.disk
  unfolding run_hook
  run_hook_disk hook f i = schedule_events_disk (f (state_of config i)).1 _

  notify_creation_disk :
      (input : Option V) (i : Instance V B)
      → (notify_creation config cbor codec has_driver input i).0.disk ≡ i.disk
  unfolding notify_creation
  notify_creation_disk input i = elim (Option-cases config.on_create) [
    | inl e ↦ ground (arith, e)
    | inr (f, e) ↦ ground (arith, e, run_hook_disk on_create_hook (f input) i)
  ]

  initialize_new :
      (writes : Bool) (p : PersistedActor V B) (i : Instance V B)
      → ReadsActor cbor codec p
      → i.disk ≡ some (stored config cbor codec has_driver p)
      → p.has_initiated ≡ false
      → initialize config cbor codec has_driver writes i
        ≡ create config cbor codec has_driver writes (reread p) i
  unfolding initialize
  initialize_new writes p i c h k = rw (read-stored p i c h) (
      ap
        (λ b.
          if b
          then restore config cbor codec has_driver (reread p) i
          else create config cbor codec has_driver writes (reread p) i)
        k)

  initialize_old :
      (writes : Bool) (p : PersistedActor V B) (i : Instance V B)
      → ReadsActor cbor codec p
      → i.disk ≡ some (stored config cbor codec has_driver p)
      → p.has_initiated ≡ true
      → initialize config cbor codec has_driver writes i
        ≡ restore config cbor codec has_driver (reread p) i
  unfolding initialize
  initialize_old writes p i c h k = rw (read-stored p i c h) (
      ap
        (λ b.
          if b
          then restore config cbor codec has_driver (reread p) i
          else create config cbor codec has_driver writes (reread p) i)
        k)

  -- Creating an actor whose state is made and whose write succeeds leaves on disk what it made,
  -- whatever the hook for its creation does.
  create_disk :
      (p : PersistedActor V B) (i : Instance V B) (v : V)
      → (initial_state config p.input i).1 ≡ ok v
      → (create config cbor codec has_driver true p i).0.disk
        ≡ some (stored config cbor codec has_driver (record p { state = v; has_initiated = true }))
  unfolding create write_persisted
  create_disk p i v h =
      let made : PersistedActor V B = record p { state = v; has_initiated = true } in
      let j = (initial_state config p.input i).0 in
      ap (λ r. r.0.disk) (and_then_ok (initial_state config p.input i) _ v h)
      ∙ notify_creation_disk p.input
          (record j { disk = some (stored config cbor codec has_driver made); persist = some made })

  restore_none :
      (p : PersistedActor V B) (i : Instance V B)
      → p.connections ≡ []
      → restore config cbor codec has_driver p i ≡ (record i { persist = some p }, ok tt)
  unfolding restore load_connections
  restore_none p i h =
      ap (λ ps. load_connections config cbor codec has_driver ps (record i { persist = some p })) h

  -- A new actor, without connections yet, is stored, and a start of it makes its state and writes
  -- it. Whatever its hook for creation then does, even if it throws: an instance that finds what is
  -- on disk is initialized without any hook, to the state that was made, marked as initiated. The
  -- codecs read back what they write of the two.
  pub initialize-initialize :
      (writes : Bool) (p : PersistedActor V B) (i j : Instance V B) (v : V)
      → ReadsActor cbor codec p
      → ReadsActor cbor codec (record p { state = v; has_initiated = true })
      → i.disk ≡ some (stored config cbor codec has_driver p)
      → p.has_initiated ≡ false
      → p.connections ≡ []
      → (initial_state config p.input i).1 ≡ ok v
      → j.disk ≡ (initialize config cbor codec has_driver true i).0.disk
      → initialize config cbor codec has_driver writes j
        ≡ (record j { persist = some (record p { state = v; has_initiated = true }) }, ok tt)
  initialize-initialize writes p i j v reads reads_made stores new none_yet makes finds =
      let made : PersistedActor V B = record p { state = v; has_initiated = true } in
      let empty : map (filled cbor) p.connections ≡ [] = ap (map (filled cbor)) none_yet in
      let same : record (reread p) { state = v; has_initiated = true } ≡ made =
        ap (λ cs. record made { connections = cs }) (empty ∙ sym none_yet) in
      let disk : j.disk ≡ some (stored config cbor codec has_driver made) =
        finds
        ∙ ap (λ r. r.0.disk) (initialize_new true p i reads stores new)
        ∙ create_disk (reread p) i v makes
        ∙ ap (λ q. some (stored config cbor codec has_driver q)) same in
      initialize_old writes made j reads_made disk refl
      ∙ restore_none (reread made) j empty
      ∙ ap (λ cs. (record j { persist = some (record made { connections = cs }) }, ok tt))
          (empty ∙ sym none_yet)
