-- ===== src/PromiseQueue/Callers.antt =====
-- The callers of `enqueue`, and the operations that they wait for.
use rivetkit.Base.{ℕ, ◌≡◌, refl, ap, ◌∙◌, none, some, List, [], ◌∷◌, ◌++◌, append_assoc, append-nil}
use rivetkit.PromiseQueue.{Cycle, Queue, waiters_of, enqueue, settle, enqueue_all}
use rivetkit.PromiseQueue.Laws.{
  Slots, idle, busy, queue_of, enqueue-queue_of, settle-queue_of, spec_enqueue, spec_settle, ended,
  Reach, Reach-slots,
}

module _ {Op : Type 0} where
  abbrev pub waiters_of_all : List (Cycle Op) → List ℕ
  waiters_of_all [] = []
  waiters_of_all (c ∷ cs) = c.waiters ++ waiters_of_all cs

  -- All callers that the queue has taken on, in the order in which their promises resolve.
  abbrev pub all_waiters : Queue Op → List ℕ
  all_waiters q =
      waiters_of_all q.finished
      ++ (elim q.running [ none ↦ [] | some (op, resolver) ↦ waiters_of resolver ])
      ++ waiters_of q.pending

  waiters_of_all-append :
      (cs : List (Cycle Op)) (c : Cycle Op)
      → waiters_of_all (cs ++ c ∷ []) ≡ waiters_of_all cs ++ c.waiters
  waiters_of_all-append [] c = append-nil c.waiters
  waiters_of_all-append (d ∷ cs) c = simp (waiters_of_all-append cs c, append_assoc)

  pub enqueue_slots :
      (caller : ℕ) (op : Op) (s : Slots Op) (done : List (Cycle Op))
      → all_waiters (queue_of (spec_enqueue caller op s) done)
        ≡ all_waiters (queue_of s done) ++ caller ∷ []
  enqueue_slots caller op idle done = simp (append_assoc, append-nil)
  enqueue_slots caller op (busy c none) done = simp (append_assoc, append-nil)
  enqueue_slots caller op (busy c (some d)) done = simp append_assoc

  pub settle_slots :
      (s : Slots Op) (done : List (Cycle Op))
      → all_waiters (queue_of (spec_settle s) (done ++ ended s)) ≡ all_waiters (queue_of s done)
  settle_slots idle done = simp append-nil
  settle_slots (busy c none) done = simp (waiters_of_all-append, append_assoc, append-nil)
  settle_slots (busy c (some d)) done = simp (waiters_of_all-append, append_assoc, append-nil)

  -- In a queue that is reached, a caller of `enqueue` joins the end of all callers the queue
  -- has taken on, in the order in which their promises resolve, and no other caller is lost or
  -- moved.
  pub all_waiters-enqueue :
      (caller : ℕ) (op : Op) (q : Queue Op)
      → Reach q
      → all_waiters (enqueue caller op q) ≡ all_waiters q ++ caller ∷ []
  all_waiters-enqueue caller op q r =
      let (s, done, e) = Reach-slots r in rw (e, enqueue-queue_of) (enqueue_slots caller op s done)

  -- In a queue that is reached, an operation that settles loses no caller and moves none.
  pub all_waiters-settle : (q : Queue Op) → Reach q → all_waiters (settle q) ≡ all_waiters q
  all_waiters-settle q r =
      let (s, done, e) = Reach-slots r in rw (e, settle-queue_of) (settle_slots s done)

  abbrev pub last_op : Op → List (ℕ × Op) → Op
  last_op op [] = op
  last_op op ((caller, op') ∷ jobs) = last_op op' jobs

  abbrev pub callers : List (ℕ × Op) → List ℕ
  callers [] = []
  callers ((caller, op) ∷ jobs) = caller ∷ callers jobs

  enqueue_all-busy :
      (jobs : List (ℕ × Op)) (c : Cycle Op) (op : Op) (ws : List ℕ) (done : List (Cycle Op))
      → enqueue_all jobs (queue_of (busy c (some (record { op = op; waiters = ws }))) done)
        ≡ queue_of
            (busy c (some (record { op = last_op op jobs; waiters = ws ++ callers jobs })))
            done
  unfolding enqueue_all
  enqueue_all-busy [] c op ws done = rw append-nil
  enqueue_all-busy ((a, x) ∷ jobs) c op ws done =
      ap (enqueue_all jobs)
        (enqueue-queue_of a x (busy c (some (record { op = op; waiters = ws }))) done)
      ∙ enqueue_all-busy jobs c x (ws ++ a ∷ []) done
      ∙ rw append_assoc

  -- Of the operations that are queued while one runs, with none queued before them, only the
  -- last one runs next, and it runs for the callers of all of them.
  pub settle-enqueue_all :
      (jobs : List (ℕ × Op)) (a : ℕ) (x : Op) (c : Cycle Op) (done : List (Cycle Op))
      → settle (enqueue_all ((a, x) ∷ jobs) (queue_of (busy c none) done))
        ≡ queue_of
            (busy (record { op = last_op x jobs; waiters = a ∷ callers jobs }) none)
            (done ++ c ∷ [])
  unfolding enqueue_all
  settle-enqueue_all jobs a x c done =
      ap (λ q. settle (enqueue_all jobs q)) (enqueue-queue_of a x (busy c none) done)
      ∙ ap settle (enqueue_all-busy jobs c x (a ∷ []) done)
      ∙ settle-queue_of (busy c (some (record { op = last_op x jobs; waiters = a ∷ callers jobs })))
          done

  drain_slots :
      (caller : ℕ) (op : Op) (s : Slots Op) (done : List (Cycle Op))
      → (front : List (Cycle Op)) × (ws : List ℕ) × (settle
            (settle (enqueue caller op (queue_of s done)))
          ≡ queue_of idle (front ++ (record { op = op; waiters = ws ++ caller ∷ [] }) ∷ []))
  unfolding settle enqueue
  drain_slots caller op idle done = (done, [], refl)
  drain_slots caller op (busy c none) done = (done ++ c ∷ [], [], refl)
  drain_slots caller op (busy c (some d)) done = (done ++ c ∷ [], d.waiters, refl)

  -- In a queue that is reached, once nothing is queued behind a call of `enqueue`, two settled
  -- operations leave the queue idle, and the operation of that call is the last one that ran,
  -- with its caller the last of those it resolves.
  pub settle_twice :
      (caller : ℕ) (op : Op) (q : Queue Op)
      → Reach q
      → (front : List (Cycle Op)) × (ws : List ℕ) × (settle (settle (enqueue caller op q))
          ≡ queue_of idle (front ++ (record { op = op; waiters = ws ++ caller ∷ [] }) ∷ []))
  settle_twice caller op q r =
      let (s, done, e) = Reach-slots r in
      let (front, ws, drained) = drain_slots caller op s done in
      (front, ws, ap (λ p. settle (settle (enqueue caller op p))) e ∙ drained)
