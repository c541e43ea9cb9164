-- ===== src/Tests/Saving.antt =====
-- Saving an actor: packages/rivetkit/src/actor/instance.ts.
use rivetkit.Base.{true, false, ◌≡◌, ◌<◌, ◌+◌, refl, some, [], ◌∷◌, codes, arith}
use rivetkit.PromiseQueue
use rivetkit.Actor.Persist.{
  Persisted, Saver, change, save_persist_inner, write_settles, save_state, is_running,
  is_state_path, resolved, write_settles,
}
use rivetkit.Actor.Persist.Safety.{restored, Reach, here, next, changes, saves, latest, saved_state}
use rivetkit.Actor.Persist.Gaps.{Flushed, save_persist_inner_flushes}

abbrev before : Persisted
before = record { state = 1 ∷ []; rest = 5 ∷ [] }

abbrev behind : Persisted
behind = record { state = 2 ∷ []; rest = 5 ∷ [] }

abbrev other_rest : Persisted
other_rest = record { state = 1 ∷ []; rest = 6 ∷ [] }

abbrev changed : Saver
changed = (change (codes "state.count") behind true true (restored before)).0

is_state : is_state_path (codes "state.count") ≡ false → behind.state ≡ before.state
is_state h = cc

changed-Reach : Reach changed
changed-Reach =
    next (here before) (changes (codes "state.count") behind true (restored before) is_state)

-- The changed state is being written.
abbrev saving : Saver
saving = save_persist_inner 10 3 changed

saving_run : (saving.changed ≡ false) × (saving.writing ≡ some behind)
unfolding save_persist_inner change
saving_run = (refl, refl)

saved_state_example : latest saving ≡ saving.persist.state
saved_state_example = saved_state (next changed-Reach (saves 10 3 changed)) saving_run.0

save_persist_inner_flushes_example :
    Flushed changed.persist.state
      (write_settles true (write_settles true (save_persist_inner 10 3 changed)))
save_persist_inner_flushes_example = save_persist_inner_flushes 10 3 changed-Reach

flushed_disk :
    (write_settles true (write_settles true (save_persist_inner 10 3 changed))).disk ≡ behind
unfolding write_settles save_persist_inner change PromiseQueue.settle PromiseQueue.enqueue
flushed_disk = refl

saving_ends : is_running (PromiseQueue.settle saving.write_queue) ≡ false
unfolding save_persist_inner change PromiseQueue.settle PromiseQueue.enqueue
saving_ends = refl

-- A change behind a throttled save whose promise was resolved by the write.
abbrev again : Saver
again =
    (change (codes "state.count") before true true
      (write_settles true (save_persist_inner 10 3 (save_state true false 100 5 3 changed).0))).0

again_run : (again.saved_promise ≡ resolved) × (again.changed ≡ true) × (again.last_save_time ≡ 10)
unfolding change write_settles save_persist_inner save_state PromiseQueue.settle
    PromiseQueue.enqueue
again_run = (refl, refl, refl)

again_early : 20 < again.last_save_time + 100
again_early = ground (arith, again_run.2)
