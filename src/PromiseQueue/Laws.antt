-- ===== src/PromiseQueue/Laws.antt =====
-- The queue is a slot for the operation that runs and a slot for the one that runs next, into
-- which later calls coalesce.
use rivetkit.Base.{ℕ, ◌≡◌, refl, sym, ap, Option, none, some, List, [], ◌∷◌, ◌++◌, append-nil}
use rivetkit.PromiseQueue.{Cycle, Queue, new, enqueue, settle}

-- The specification of the queue.
pub data Slots (Op : Type 0) : Type 0 where
  idle : Slots Op
  busy : Cycle Op → Option (Cycle Op) → Slots Op

module _ {Op : Type 0} where
  -- The next cycle takes on one more caller, and the operation of that caller.
  abbrev pub join_cycle : ℕ → Op → Option (Cycle Op) → Cycle Op
  join_cycle caller op none = record { op = op; waiters = caller ∷ [] }
  join_cycle caller op (some c) = record { op = op; waiters = c.waiters ++ caller ∷ [] }

  abbrev pub spec_enqueue : ℕ → Op → Slots Op → Slots Op
  spec_enqueue caller op idle = busy (join_cycle caller op none) none
  spec_enqueue caller op (busy c next) = busy c (some (join_cycle caller op next))

  abbrev pub spec_settle : Slots Op → Slots Op
  spec_settle idle = idle
  spec_settle (busy c none) = idle
  spec_settle (busy c (some d)) = busy d none

  -- The cycle that a settled operation ends.
  abbrev pub ended : Slots Op → List (Cycle Op)
  ended idle = []
  ended (busy c next) = c ∷ []

  -- The queue that holds the slots.
  abbrev pub queue_of : Slots Op → List (Cycle Op) → Queue Op
  queue_of idle done = record { queued_op = none; pending = none; running = none; finished = done }
  queue_of (busy c none) done = record {
    queued_op = none;
    pending = none;
    running = some (c.op, some c.waiters);
    finished = done;
  }
  queue_of (busy c (some d)) done = record {
    queued_op = some d.op;
    pending = some d.waiters;
    running = some (c.op, some c.waiters);
    finished = done;
  }

  -- `enqueue` starts an idle queue, and replaces the operation of the next cycle of a busy one.
  pub enqueue-queue_of :
      (caller : ℕ) (op : Op) (s : Slots Op) (done : List (Cycle Op))
      → enqueue caller op (queue_of s done) ≡ queue_of (spec_enqueue caller op s) done
  unfolding enqueue
  enqueue-queue_of caller op idle done = refl
  enqueue-queue_of caller op (busy c none) done = refl
  enqueue-queue_of caller op (busy c (some d)) done = refl

  -- A settled operation ends its cycle, and the next cycle runs.
  pub settle-queue_of :
      (s : Slots Op) (done : List (Cycle Op))
      → settle (queue_of s done) ≡ queue_of (spec_settle s) (done ++ ended s)
  unfolding settle
  settle-queue_of idle done = ap (queue_of idle) (sym (append-nil done))
  settle-queue_of (busy c none) done = refl
  settle-queue_of (busy c (some d)) done = refl

  -- The steps of the event loop.
  pub data Step : Queue Op → Queue Op → Type 0 where
    call : (caller : ℕ) (op : Op) (q : Queue Op) → Step q (enqueue caller op q)
    settled : (q : Queue Op) → Step q (settle q)

  pub data Reach : Queue Op → Type 0 where
    here : Reach new
    next : {q r : Queue Op} → Reach q → Step q r → Reach r

  Step-slots :
      {q r : Queue Op} (s : Slots Op) (done : List (Cycle Op))
      → q ≡ queue_of s done
      → Step q r
      → (s' : Slots Op) × (done' : List (Cycle Op)) × (r ≡ queue_of s' done')
  Step-slots s done e (call caller op q) =
      (spec_enqueue caller op s, done, rw e (enqueue-queue_of caller op s done))
  Step-slots s done e (settled q) = (spec_settle s, done ++ ended s, rw e (settle-queue_of s done))

  -- Every queue that is reached holds two slots: nothing is queued unless an operation runs,
  -- and a queued operation has a promise.
  pub Reach-slots :
      {q : Queue Op} → Reach q → (s : Slots Op) × (done : List (Cycle Op)) × (q ≡ queue_of s done)
  Reach-slots here = (idle, [], refl)
  Reach-slots (next r st) = let (s, done, e) = Reach-slots r in Step-slots s done e st
