-- ===== src/FileSystem/Alarms.antt =====
-- The alarms of the driver: in memory and in files.
use rivetkit.Base.{
  ℕ, Option-cases, inl, inr, ◌≡◌, refl, ap, ◌∙◌, true, Option, none, some, [], ◌∷◌, arith, ◌≤◌,
  ◌==◌, if◌then◌else◌, Dict, lookup, insert, contains, lookup-insert, ==_refl, leb,
}
use rivetkit.FileSystem.State.{
  DriverState, new_entry, ok, entry_of, schedule_alarm_timeout, set_actor_alarm, load_alarms,
}

-- The earlier of an alarm that may be set and another.
abbrev pub earliest : Option ℕ → ℕ → ℕ
earliest none t = t
earliest (some s) t = if leb s t then s else t

-- The alarm of an actor.
abbrev pub alarm_of : ℕ → DriverState → Option ℕ
alarm_of id d = (entry_of id d).alarm_timestamp

pub schedule_alarm_timeout_alarm :
    (other id timestamp : ℕ) (d : DriverState)
    → alarm_of other (schedule_alarm_timeout id timestamp d)
      ≡ (if id == other then some (earliest (alarm_of id d) timestamp) else alarm_of other d)
unfolding schedule_alarm_timeout entry_of
schedule_alarm_timeout_alarm other id timestamp d = elim (Option-cases (lookup id d.actors)) [
  | inl m ↦
      let e = record new_entry { alarm_timestamp = some timestamp } in
      ground (
        arith,
        lookup-insert id id new_entry d.actors,
        lookup-insert other id new_entry d.actors,
        lookup-insert other id e (insert id new_entry d.actors),
        ==_refl id,
      )
  | inr (e, m) ↦
      ground
        (arith, lookup-insert other id (record e { alarm_timestamp = some timestamp }) d.actors)
]

-- The alarms of an actor among the files, the earliest of them kept.
abbrev pub earliest_of : ℕ → Dict ℕ → Option ℕ → Option ℕ
earliest_of id [] alarm = alarm
earliest_of id ((j, timestamp) ∷ files) alarm =
    earliest_of id files (if j == id then some (earliest alarm timestamp) else alarm)

-- After the alarms of the files are loaded, every actor's alarm is the earliest of the one it had
-- and those of its files.
pub load_alarms_earliest :
    (id : ℕ) (files : Dict ℕ) (d : DriverState)
    → alarm_of id (load_alarms files d) ≡ earliest_of id files (alarm_of id d)
unfolding load_alarms
load_alarms_earliest id [] d = refl
load_alarms_earliest id ((j, timestamp) ∷ files) d =
    load_alarms_earliest id files (schedule_alarm_timeout j timestamp d)
    ∙ ap (earliest_of id files) (schedule_alarm_timeout_alarm id j timestamp d ∙ ground arith)

-- Where the driver keeps files, setting an alarm that is no earlier than the one set writes its
-- time to the file, while the timeout keeps the earlier time.
pub set_actor_alarm_later :
    (id early late : ℕ) (d : DriverState)
    → contains id d.actors ≡ true
    → d.persist ≡ true
    → alarm_of id d ≡ some early
    → early ≤ late
    → let (d', answer) = set_actor_alarm true id late d in
      (answer ≡ ok tt) × (lookup id d'.alarm_files ≡ some late) × (alarm_of id d' ≡ some early)
unfolding set_actor_alarm entry_of
set_actor_alarm_later id early late d c p a h =
    ground (arith, lookup-insert id id late d.alarm_files, ==_refl id)
