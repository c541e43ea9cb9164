-- ===== src/PromiseQueue.antt =====
-- `SinglePromiseQueue` of packages/rivetkit/src/utils.ts. A promise is its waiters: the callers
-- that hold it. The run-to-completion steps of the event loop are the operations: a call of
-- `enqueue`, and the moment at which the operation that the drain loop awaits settles.
pub mod Laws
pub mod Callers
pub mod Refinement
use rivetkit.Base.{ℕ, Option, none, some, List, [], ◌∷◌, ◌++◌}

-- A cycle of the drain loop: the operation and the callers whose promise it resolves.
pub record Cycle (Op : Type 0) : Type 0 where
  pub op : Op
  pub waiters : List ℕ

pub record Queue (Op : Type 0) : Type 0 where
  pub queued_op : Option Op
  -- The callers that hold the promise of `#pending`, if there is one.
  pub pending : Option (List ℕ)
  -- `runningDrainLoop`: the operation that it awaits, with the resolver captured for its cycle.
  pub running : Option (Op × Option (List ℕ))
  -- The cycles that have ended, the last one at the end.
  pub finished : List (Cycle Op)

-- The waiters of a promise that may not be there.
abbrev pub waiters_of : Option (List ℕ) → List ℕ
waiters_of none = []
waiters_of (some callers) = callers

module _ {Op : Type 0} where
  abbrev pub new : Queue Op
  new = record { queued_op = none; pending = none; running = none; finished = [] }

  -- The drain loop at the head of its `while`, up to the next `await` or to its end.
  unfoldable pub drain_loop : Queue Op → Queue Op
  drain_loop q = elim q.queued_op [
    | none ↦ record q { running = none }
    | some op ↦ record q { queued_op = none; pending = none; running = some (op, q.pending) }
  ]

  -- `enqueue(op)`, by a caller that then waits.
  unfoldable pub enqueue : ℕ → Op → Queue Op → Queue Op
  unfolding drain_loop
  enqueue caller op q =
      let joined : Queue Op = record q {
        queued_op = some op;
        pending = some (waiters_of q.pending ++ caller ∷ []);
      } in
      elim joined.running [ none ↦ drain_loop joined | some _ ↦ joined ]

  -- The operation that runs settles, by success or failure: both resolve the cycle's promise.
  unfoldable pub settle : Queue Op → Queue Op
  unfolding drain_loop
  settle q = elim q.running [
    | none ↦ q
    | some (op, resolver) ↦ drain_loop (record q {
      finished = q.finished ++ (record { op = op; waiters = waiters_of resolver }) ∷ [];
    })
  ]

  unfoldable pub enqueue_all : List (ℕ × Op) → Queue Op → Queue Op
  enqueue_all [] q = q
  enqueue_all ((caller, op) ∷ jobs) q = enqueue_all jobs (enqueue caller op q)
