-- ===== src/Actor/Persist/Safety.antt =====
-- The user's state while the driver's writes succeed: marked, being written or on disk.
use rivetkit.Base.{
  ℕ, ◌+◌, ◌≡◌, refl, sym, ap, ◌∙◌, Bool, true, false, Option, none, some, List, [], arith, ltb,
  Text, not, ◌&&◌, ◌++◌, if_elim, option_elim, if◌then◌else◌,
}
use rivetkit.PromiseQueue
use rivetkit.PromiseQueue.{Queue, Cycle}
use rivetkit.PromiseQueue.Laws.{
  Slots, idle, busy, queue_of, spec_enqueue, spec_settle, ended, enqueue-queue_of, settle-queue_of,
}
use rivetkit.Actor.Persist.{
  Value, Persisted, Saver, change, is_state_path, leave_on_state_change, begin_write, enqueue_write,
  is_running, end_write, resolve, save_persist_inner, write_settles, save_persist_throttled,
  pending_save_fires, absent, Listened, ignored, noted, calls_hook,
}

abbrev pub is_busy : Slots (Unit {0}) → Bool
is_busy idle = false
is_busy (busy c n) = true

pub is_running-queue_of :
    (t : Slots (Unit {0})) (done : List (Cycle (Unit {0})))
    → is_running (queue_of t done) ≡ is_busy t
is_running-queue_of idle done = refl
is_running-queue_of (busy c none) done = refl
is_running-queue_of (busy c (some d)) done = refl

is_running-enqueue :
    (caller : ℕ) (t : Slots (Unit {0})) (done : List (Cycle (Unit {0})))
    → is_running (PromiseQueue.enqueue caller tt (queue_of t done)) ≡ true
is_running-enqueue caller idle done = rw enqueue-queue_of
is_running-enqueue caller (busy c n) done = rw enqueue-queue_of

abbrev pub is_some : Option Persisted → Bool
is_some none = false
is_some (some p) = true

-- The state that is on disk, or will be once the write that runs succeeds.
abbrev pub latest : Saver → Value
latest s = elim s.writing [ none ↦ s.disk.state | some p ↦ p.state ]

pub record IsSafe (s : Saver) : Type 0 where
  -- The queue is one that its operations lead to.
  pub slots :
      (t : Slots (Unit {0})) × (done : List (Cycle (Unit {0}))) × (s.write_queue ≡ queue_of t done)
  -- A write runs exactly while the queue does.
  pub runs : is_running s.write_queue ≡ is_some s.writing
  pub safe : s.changed ≡ false → latest s ≡ s.persist.state

enqueue_write_queue :
    (caller : ℕ) (s : Saver)
    → (enqueue_write caller s).write_queue ≡ PromiseQueue.enqueue caller tt s.write_queue
unfolding enqueue_write
enqueue_write_queue caller s = ground arith

enqueue_slots :
    (caller : ℕ) (s : Saver)
    → IsSafe s
    → (is_running (enqueue_write caller s).write_queue ≡ true)
      × (t : Slots (Unit {0})) × (done : List (Cycle (Unit {0}))) × ((enqueue_write caller
            s).write_queue
          ≡ queue_of t done)
enqueue_slots caller s v =
    let (t, done, e) = v.slots in
    let q : (enqueue_write caller s).write_queue
        ≡ PromiseQueue.enqueue caller tt (queue_of t done) =
      enqueue_write_queue caller s ∙ ap (PromiseQueue.enqueue caller tt) e in
    (
      ap is_running q ∙ is_running-enqueue caller t done,
      spec_enqueue caller tt t,
      done,
      q ∙ enqueue-queue_of caller tt t done,
    )

enqueue_write-IsSafe : (caller : ℕ) (s : Saver) → IsSafe s → IsSafe (enqueue_write caller s)
enqueue_write-IsSafe caller s v =
    let (running, t, done, e) = enqueue_slots caller s v in
    record {
      slots = (t, done, e);
      runs = running ∙ (unfold enqueue_write in ground (arith, v.runs));
      safe = unfold enqueue_write in λ h. ground (arith, v.safe);
    }

save_persist_inner-IsSafe :
    (now caller : ℕ) (s : Saver) → IsSafe s → IsSafe (save_persist_inner now caller s)
unfolding save_persist_inner
save_persist_inner-IsSafe now caller s v =
    let s' : Saver = record s { last_save_time = now } in
    if_elim IsSafe s.changed (enqueue_write caller s')
      (record s' { saved_promise = resolve s.saved_promise })
      (λ e.
        enqueue_write-IsSafe caller s' (record { slots = v.slots; runs = v.runs; safe = v.safe }))
      (λ e. record { slots = v.slots; runs = v.runs; safe = v.safe })

save_persist_throttled-IsSafe :
    (interval now caller : ℕ) (s : Saver)
    → IsSafe s
    → IsSafe (save_persist_throttled interval now caller s)
unfolding save_persist_throttled
save_persist_throttled-IsSafe interval now caller s v =
    if_elim IsSafe (ltb now (s.last_save_time + interval)) _ (save_persist_inner now caller s)
      (λ e.
        option_elim IsSafe s.pending_save
          (record s { pending_save = some (s.last_save_time + interval) }) (λ due. s)
          (λ n. record { slots = v.slots; runs = v.runs; safe = v.safe }) (λ due h. v))
      (λ e. save_persist_inner-IsSafe now caller s v)

settle_slots :
    (s : Saver)
    → IsSafe s
    → (t : Slots (Unit {0})) × (done : List (Cycle (Unit {0}))) × (PromiseQueue.settle s.write_queue
        ≡ queue_of t done)
settle_slots s v =
    let (t, done, e) = v.slots in
    (spec_settle t, done ++ ended t, ap PromiseQueue.settle e ∙ settle-queue_of t done)

abbrev after_write : Saver → Persisted → Saver
after_write s p =
    let ended = end_write true p s in
    if is_running ended.write_queue then begin_write ended else ended

write_settles-IsSafe : (s : Saver) → IsSafe s → IsSafe (write_settles true s)
unfolding write_settles
write_settles-IsSafe s v =
    option_elim IsSafe s.writing s (after_write s) (λ e. v)
      λ p e.
        if_elim IsSafe (is_running (end_write true p s).write_queue)
          (begin_write (end_write true p s)) (end_write true p s)
          (λ r. record { slots = settle_slots s v; runs = r; safe = λ h. refl })
          (λ r. record {
            slots = settle_slots s v;
            runs = r;
            safe = λ h. ap latest_of (sym e) ∙ v.safe h;
          })
  where
    latest_of : Option Persisted → Value
    latest_of o = elim o [ none ↦ s.disk.state | some q ↦ q.state ]

-- The steps of a saver whose writes succeed. What a change outside the state's paths changes is
-- not the state, and a change of the state is serializable.
pub data Step : Saver → Saver → Type 0 where
  changes :
      (path : Text) (p : Persisted) (hooked : Bool) (s : Saver)
      → (is_state_path path ≡ false → p.state ≡ s.persist.state)
      → Step s (change path p true hooked s).0
  leaves : (s : Saver) → Step s (leave_on_state_change s)
  saves : (now caller : ℕ) (s : Saver) → Step s (save_persist_inner now caller s)
  throttles :
      (interval now caller : ℕ) (s : Saver) → Step s (save_persist_throttled interval now caller s)
  fires : (now caller : ℕ) (s : Saver) → Step s (pending_save_fires now caller s)
  settles : (s : Saver) → Step s (write_settles true s)

-- A saver whose data is on disk, as `#initialize` leaves it.
abbrev pub restored : Persisted → Saver
restored p = record {
  persist = p;
  changed = false;
  is_in_on_state_change = false;
  last_save_time = 0;
  pending_save = none;
  write_queue = PromiseQueue.new;
  writing = none;
  saved_promise = absent;
  disk = p;
}

pub data Reach : Saver → Type 0 where
  here : (p : Persisted) → Reach (restored p)
  next : {s t : Saver} → Reach s → Step s t → Reach t

not-eq_true : {b : Bool} → not b ≡ true → b ≡ false
not-eq_true {b} h = ground arith

change-IsSafe :
    (path : Text) (p : Persisted) (hooked : Bool) (s : Saver)
    → (is_state_path path ≡ false → p.state ≡ s.persist.state)
    → IsSafe s
    → IsSafe (change path p true hooked s).0
unfolding change
change-IsSafe path p hooked s same v =
    let s' : Saver = record s { persist = p } in
    if_elim (λ (r : Saver × Listened). IsSafe r.0) (not (is_state_path path)) (s', ignored)
      (if hooked && not s.is_in_on_state_change
        then (record s' { changed = true; is_in_on_state_change = true }, calls_hook)
        else (record s' { changed = true }, noted))
      (λ e. record {
        slots = v.slots;
        runs = v.runs;
        safe = λ h. v.safe h ∙ sym (same (not-eq_true e));
      })
      (λ e.
        if_elim (λ (r : Saver × Listened). IsSafe r.0) (hooked && not s.is_in_on_state_change)
          (record s' { changed = true; is_in_on_state_change = true }, calls_hook)
          (record s' { changed = true }, noted)
          (λ f. record { slots = v.slots; runs = v.runs; safe = λ h. cc })
          (λ f. record { slots = v.slots; runs = v.runs; safe = λ h. cc }))

Step-IsSafe : {s t : Saver} → Step s t → IsSafe s → IsSafe t
Step-IsSafe (changes path p hooked s same) v = change-IsSafe path p hooked s same v
Step-IsSafe (leaves s) v =
    unfold leave_on_state_change in record { slots = v.slots; runs = v.runs; safe = v.safe }
Step-IsSafe (saves now caller s) v = save_persist_inner-IsSafe now caller s v
Step-IsSafe (throttles interval now caller s) v =
    save_persist_throttled-IsSafe interval now caller s v
Step-IsSafe (fires now caller s) v =
    unfold pending_save_fires in
    save_persist_inner-IsSafe now caller (record s { pending_save = none })
      (record { slots = v.slots; runs = v.runs; safe = v.safe })
Step-IsSafe (settles s) v = write_settles-IsSafe s v

pub Reach-IsSafe : {s : Saver} → Reach s → IsSafe s
Reach-IsSafe (here p) = record { slots = (idle, [], refl); runs = refl; safe = λ h. refl }
Reach-IsSafe (next r st) = Step-IsSafe st (Reach-IsSafe r)

-- In any saver that is reached with writes that succeed and changes that are serializable, a
-- state that is not marked as changed is the one that the running write writes, or, without a
-- running write, the state on disk.
pub saved_state : {s : Saver} → Reach s → s.changed ≡ false → latest s ≡ s.persist.state
saved_state r h = (Reach-IsSafe r).safe h
