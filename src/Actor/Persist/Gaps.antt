-- ===== src/Actor/Persist/Gaps.antt =====
-- What a save guarantees, and what it does not: changes outside the user's state, writes that fail,
-- and a second throttled save.
use rivetkit.Base.{ℕ, ◌+◌, ◌<◌, ◌≡◌, sym, ap, ◌∙◌, Bool, true, false, none, some, List, arith, Text}
use mathlib.Core.Path.{subst}
use rivetkit.PromiseQueue
use rivetkit.PromiseQueue.{Queue, Cycle}
use rivetkit.PromiseQueue.Laws.{Slots, idle, busy, queue_of}
use rivetkit.Actor.Persist.{
  Value, Persisted, Saver, change, is_state_path, is_running, save_persist_inner, write_settles,
  save_state, resolved, nothing,
}
use rivetkit.Actor.Persist.Safety.{
  is_busy, is_some, latest, Reach, Reach-IsSafe, is_running-queue_of,
}

-- A saver over a queue that its operations lead to.
abbrev over : Saver → Slots (Unit {0}) → List (Cycle (Unit {0})) → Saver
over s t done = record s { write_queue = queue_of t done }

abbrev pub Flushed : Value → Saver → Type 0
Flushed state s = (s.writing ≡ none) × (s.changed ≡ false) × (s.disk.state ≡ state)

flush_slots :
    (now caller : ℕ) (s : Saver) (t : Slots (Unit {0})) (done : List (Cycle (Unit {0})))
    → is_busy t ≡ is_some s.writing
    → (s.changed ≡ false → latest s ≡ s.persist.state)
    → Flushed s.persist.state
        (write_settles true (write_settles true (save_persist_inner now caller (over s t done))))
unfolding write_settles save_persist_inner PromiseQueue.enqueue PromiseQueue.settle
flush_slots now caller s idle done runs safe = ground arith
flush_slots now caller s (busy c none) done runs safe = ground arith
flush_slots now caller s (busy c (some d)) done runs safe = ground arith

-- From any saver that is reached with writes that succeed, an immediate save and the end of two
-- writes bring the state to disk: nothing is marked, nothing is being written.
pub save_persist_inner_flushes :
    {s : Saver} (now caller : ℕ)
    → Reach s
    → Flushed s.persist.state
        (write_settles true (write_settles true (save_persist_inner now caller s)))
save_persist_inner_flushes {s} now caller r =
    let v = Reach-IsSafe r in
    let (t, done, e) = v.slots in
    subst
      (λ q. Flushed s.persist.state (
        write_settles true
          (write_settles true (save_persist_inner now caller (record s { write_queue = q })))))
      (sym e)
      (flush_slots now caller s t done
        (sym (is_running-queue_of t done) ∙ sym (ap is_running e) ∙ v.runs) v.safe)

-- A change outside the state's paths is not marked: where nothing else is marked, `saveState`
-- of a ready actor with any options then changes nothing and resolves at once, with what
-- changed neither written nor going to be.
pub rest_not_saved :
    (path : Text) (p : Persisted) (serializable hooked immediate : Bool) (interval now caller : ℕ)
    (s : Saver)
    → is_state_path path ≡ false
    → s.changed ≡ false
    → let s' = (change path p serializable hooked s).0 in
      (save_state true immediate interval now caller s' ≡ (s', nothing))
      × (s'.persist ≡ p)
      × (s'.disk ≡ s.disk)
      × (s'.pending_save ≡ s.pending_save)
      × (s'.writing ≡ s.writing)
unfolding change save_state
rest_not_saved path p serializable hooked immediate interval now caller s h c = ground arith

-- Where the promise of the throttled saves has been resolved once, a save of a marked change
-- within the throttle window waits for nothing: it resolves with the change still marked and
-- nothing written or queued.
pub stale_saved_promise :
    (interval now caller : ℕ) (s : Saver)
    → s.saved_promise ≡ resolved
    → s.changed ≡ true
    → now < s.last_save_time + interval
    → let (t, waits) = save_state true false interval now caller s in
      (waits ≡ nothing) × (t.changed ≡ true) × (t.disk ≡ s.disk) × (t.write_queue ≡ s.write_queue)
unfolding save_state
stale_saved_promise interval now caller s p c h = ground arith
