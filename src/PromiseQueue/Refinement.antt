-- ===== src/PromiseQueue/Refinement.antt =====
-- The queue implements the two slots of its specification, over whole runs.
use rivetkit.Base.{ℕ, ◌≡◌, refl, ap, ◌∙◌, List, [], ◌∷◌, ◌++◌, append_assoc, append-nil}
use rivetkit.PromiseQueue.{Cycle, Queue, new, enqueue, settle}
use rivetkit.PromiseQueue.Laws.{
  Slots, idle, spec_enqueue, spec_settle, ended, queue_of, enqueue-queue_of, settle-queue_of,
}
use rivetkit.PromiseQueue.Callers.{all_waiters, enqueue_slots, settle_slots}

-- What happens to a queue.
pub data Event (Op : Type 0) : Type 0 where
  calls : ℕ → Op → Event Op
  settles : Event Op

module _ {Op : Type 0} where
  unfoldable pub run_events : List (Event Op) → Queue Op → Queue Op
  unfolding enqueue settle
  run_events [] q = q
  run_events (calls caller op ∷ es) q = run_events es (enqueue caller op q)
  run_events (settles ∷ es) q = run_events es (settle q)

  -- The specification: the slots, and the cycles that have ended.
  unfoldable pub spec_events :
      List (Event Op) → Slots Op × List (Cycle Op) → Slots Op × List (Cycle Op)
  spec_events [] r = r
  spec_events (calls caller op ∷ es) (s, done) = spec_events es (spec_enqueue caller op s, done)
  spec_events (settles ∷ es) (s, done) = spec_events es (spec_settle s, done ++ ended s)

  -- The callers, in the order of their calls.
  abbrev pub callers_of : List (Event Op) → List ℕ
  callers_of [] = []
  callers_of (calls caller op ∷ es) = caller ∷ callers_of es
  callers_of (settles ∷ es) = callers_of es

  run_events-queue_of :
      (es : List (Event Op)) (s : Slots Op) (done : List (Cycle Op))
      → run_events es (queue_of s done)
        ≡ queue_of (spec_events es (s, done)).0 (spec_events es (s, done)).1
  unfolding run_events spec_events
  run_events-queue_of [] s done = refl
  run_events-queue_of (calls caller op ∷ es) s done =
      ap (run_events es) (enqueue-queue_of caller op s done)
      ∙ run_events-queue_of es (spec_enqueue caller op s) done
  run_events-queue_of (settles ∷ es) s done =
      ap (run_events es) (settle-queue_of s done)
      ∙ run_events-queue_of es (spec_settle s) (done ++ ended s)

  spec_events-all_waiters :
      (es : List (Event Op)) (s : Slots Op) (done : List (Cycle Op))
      → all_waiters (queue_of (spec_events es (s, done)).0 (spec_events es (s, done)).1)
        ≡ all_waiters (queue_of s done) ++ callers_of es
  unfolding spec_events
  spec_events-all_waiters [] s done = rw append-nil
  spec_events-all_waiters (calls caller op ∷ es) s done =
      spec_events-all_waiters es (spec_enqueue caller op s) done
      ∙ ap (λ ws. ws ++ callers_of es) (enqueue_slots caller op s done)
      ∙ append_assoc (all_waiters (queue_of s done)) (caller ∷ []) (callers_of es)
  spec_events-all_waiters (settles ∷ es) s done =
      spec_events-all_waiters es (spec_settle s) (done ++ ended s)
      ∙ ap (λ ws. ws ++ callers_of es) (settle_slots s done)

  -- After any sequence of calls of `enqueue` and of operations that settle, a new queue is the one
  -- that holds the slots and the ended cycles of the specification after that sequence; and the
  -- callers whose promises it has resolved or will resolve are all that have called, each once, in
  -- the order of their calls.
  pub run_events-new :
      (es : List (Event Op))
      → (run_events es new ≡ queue_of (spec_events es (idle, [])).0 (spec_events es (idle, [])).1)
        × (all_waiters (run_events es new) ≡ callers_of es)
  run_events-new es =
      let held = run_events-queue_of es idle [] in
      (held, ap all_waiters held ∙ spec_events-all_waiters es idle [])
