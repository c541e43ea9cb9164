-- ===== src/Actor/Persist.antt =====
-- Saving an actor: `#setPersist`'s change listener, `#savePersistThrottled`, `#savePersistInner`
-- and `saveState` of packages/rivetkit/src/actor/instance.ts, over the write queue of
-- PromiseQueue.antt. The driver's writes are steps of their own that succeed or fail; the hook
-- `onStateChange` is the user's code, which runs between a change that calls it and
-- `leave_on_state_change`.
pub mod Safety
pub mod Gaps
use rivetkit.Base.{
  ℕ, ◌+◌, Bool, true, false, not, ◌&&◌, ◌||◌, Option, none, some, List, [], ◌∷◌, ◌++◌, ◌==◌, ltb,
  if◌then◌else◌, Text, codes, text_eq,
}
use rivetkit.PromiseQueue
use rivetkit.PromiseQueue.{Queue}

abbrev pub Value : Type 0
Value = List ℕ

-- `PersistedActor`: the user's state, and all else that is persisted with it (the connections with
-- their subscriptions, the scheduled events), by their encoding.
pub record Persisted : Type 0 where
  pub state : Value
  pub rest : Value

-- `#onPersistSavedPromise`
pub data SavedPromise : Type 0 where
  absent waiting resolved : SavedPromise

pub record Saver : Type 0 where
  -- `#persistRaw`
  pub persist : Persisted
  -- `#persistChanged`
  pub changed : Bool
  pub is_in_on_state_change : Bool
  pub last_save_time : ℕ
  -- The time at which `#pendingSaveTimeout` fires.
  pub pending_save : Option ℕ
  -- `#persistWriteQueue`; its operations are all the one write.
  pub write_queue : Queue (Unit {0})
  -- What the write that runs has taken to write.
  pub writing : Option Persisted
  pub saved_promise : SavedPromise
  -- What the driver has written last.
  pub disk : Persisted

abbrev starts_with : Text → Text → Bool
starts_with [] s = true
starts_with (c ∷ p) [] = false
starts_with (c ∷ p) (x ∷ s) = (c == x) && starts_with p s

-- The listener's test of the path of a change.
abbrev pub is_state_path : Text → Bool
is_state_path path = text_eq path (codes "state") || starts_with (codes "state.") path

-- What the listener does about a change.
pub data Listened : Type 0 where
  ignored invalid_state noted : Listened
  -- noted, and the hook is called
  calls_hook : Listened

-- A change of the persisted data at a path, with the listener behind it. `serializable` is the
-- outcome of the check of the new value, `hooked` says whether `onStateChange` is configured and
-- the actor ready.
unfoldable pub change : Text → Persisted → Bool → Bool → Saver → Saver × Listened
change path p serializable hooked s =
    let s' : Saver = record s { persist = p } in
    if not (is_state_path path)
    then (s', ignored)
    else if not serializable
    then (s', invalid_state)
    else if hooked && not s.is_in_on_state_change
    then (record s' { changed = true; is_in_on_state_change = true }, calls_hook)
    else (record s' { changed = true }, noted)

unfoldable pub leave_on_state_change : Saver → Saver
leave_on_state_change s = record s { is_in_on_state_change = false }

-- The write, up to its `await`.
unfoldable pub begin_write : Saver → Saver
begin_write s = record s { changed = false; writing = some s.persist }

abbrev pub is_running : Queue (Unit {0}) → Bool
is_running q = elim q.running [ none ↦ false | some c ↦ true ]

-- `#persistWriteQueue.enqueue` of the write: an idle queue begins it at once.
unfoldable pub enqueue_write : ℕ → Saver → Saver
unfolding begin_write
enqueue_write caller s =
    let queued : Saver = record s { write_queue = PromiseQueue.enqueue caller tt s.write_queue } in
    if is_running s.write_queue then queued else begin_write queued

abbrev pub resolve : SavedPromise → SavedPromise
resolve absent = absent
resolve waiting = resolved
resolve resolved = resolved

-- `#savePersistInner()` up to its `await`.
unfoldable pub save_persist_inner : ℕ → ℕ → Saver → Saver
unfolding enqueue_write
save_persist_inner now caller s =
    let s' : Saver = record s { last_save_time = now } in
    if s.changed
    then enqueue_write caller s'
    else record s' { saved_promise = resolve s.saved_promise }

-- The write ends, by success or failure: the queue ends the cycle, and its callers go on behind
-- their `await`.
unfoldable pub end_write : Bool → Persisted → Saver → Saver
end_write success p s = record s {
  write_queue = PromiseQueue.settle s.write_queue;
  writing = none;
  saved_promise = resolve s.saved_promise;
  disk = (if success then p else s.disk);
}

-- The driver's write settles, and a queued write begins.
unfoldable pub write_settles : Bool → Saver → Saver
unfolding begin_write end_write
write_settles success s = elim s.writing [
  | none ↦ s
  | some p ↦
      let ended = end_write success p s in
      if is_running ended.write_queue then begin_write ended else ended
]

-- `#savePersistThrottled()`
unfoldable pub save_persist_throttled : ℕ → ℕ → ℕ → Saver → Saver
unfolding save_persist_inner
save_persist_throttled interval now caller s =
    if ltb now (s.last_save_time + interval)
    then elim s.pending_save [
      | none ↦ record s { pending_save = some (s.last_save_time + interval) }
      | some due ↦ s
    ]
    else save_persist_inner now caller s

-- `#pendingSaveTimeout` fires.
unfoldable pub pending_save_fires : ℕ → ℕ → Saver → Saver
unfolding save_persist_inner
pending_save_fires now caller s = save_persist_inner now caller (record s { pending_save = none })

-- What the promise of `saveState` waits for.
pub data Waits : Type 0 where
  refused nothing cycle saved_promise : Waits

-- `saveState({ immediate, allowStoppingState })`; `is_ready` is the outcome of `#assertReady`.
unfoldable pub save_state : Bool → Bool → ℕ → ℕ → ℕ → Saver → Saver × Waits
unfolding save_persist_inner save_persist_throttled
save_state is_ready immediate interval now caller s =
    if not is_ready
    then (s, refused)
    else if not s.changed
    then (s, nothing)
    else if immediate
    then (save_persist_inner now caller s, cycle)
    else (let created : SavedPromise = elim s.saved_promise [
      | absent ↦ waiting
      | waiting ↦ waiting
      | resolved ↦ resolved
    ] in
        let s' =
          save_persist_throttled interval now caller (record s { saved_promise = created }) in
        (
          s',
          elim s'.saved_promise [ absent ↦ nothing | waiting ↦ saved_promise | resolved ↦ nothing ],
        ))
