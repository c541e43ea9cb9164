-- ===== src/Timers/Laws.antt =====
-- When a long timeout calls its listener, and the timers that it takes.
use rivetkit.Base.{
  ℕ, zero, suc, ◌+◌, ◌-◌, ◌*◌, ◌/◌, ◌≤◌, ◌<◌, ◌≡◌, ◌∙◌, ap, refl, none, some, arith,
}
use rivetkit.Timers.{timeout_max, start, LongTimeout, set_long_timeout, fire, abort, fire_all}

-- Every delay that is armed is one that JavaScript timers keep.
pub start_fits : (remaining : ℕ) → (start remaining).delay ≤ timeout_max
unfolding start
start_fits remaining = ground arith

-- How many timers fire before the last one.
unfoldable pub rounds : ℕ → ℕ
rounds after = (after - 1) / timeout_max

-- The timeout once `remaining` is still to come at `now`.
abbrev waiting : ℕ → ℕ → LongTimeout
waiting remaining now = record { timeout = some (start remaining); elapsed = now; called_at = none }

fire_again :
    (remaining now : ℕ)
    → timeout_max < remaining
    → fire (waiting remaining now) ≡ waiting (remaining - timeout_max) (now + timeout_max)
unfolding fire start
fire_again remaining now h = ground arith

fire_last :
    (remaining now : ℕ)
    → remaining ≤ timeout_max
    → fire (waiting remaining now)
      ≡ record { timeout = none; elapsed = now + remaining; called_at = some (now + remaining) }
unfolding fire start
fire_last remaining now h = ground arith

waiting_eq : (a b c d : ℕ) → a ≡ b → c ≡ d → waiting a c ≡ waiting b d
waiting_eq a b c d p q = cc

fire_all-waiting :
    (k remaining now : ℕ)
    → k ≤ rounds remaining
    → fire_all k (waiting remaining now)
      ≡ waiting (remaining - k * timeout_max) (now + k * timeout_max)
unfolding fire_all rounds
fire_all-waiting zero remaining now h = waiting_eq _ _ _ _ (omega arith) (omega arith)
fire_all-waiting (suc k) remaining now h = rw (fire_again remaining now (omega arith)) (
    fire_all-waiting k (remaining - timeout_max) (now + timeout_max) (omega arith)
    ∙ waiting_eq _ _ _ _ (omega arith) (omega arith))

fire_all-suc : (k : ℕ) (t : LongTimeout) → fire_all (suc k) t ≡ fire (fire_all k t)
unfolding fire_all
fire_all-suc zero t = refl
fire_all-suc (suc k) t = fire_all-suc k (fire t)

fire_all-stopped : (n : ℕ) (t : LongTimeout) → t.timeout ≡ none → fire_all n t ≡ t
unfolding fire_all
fire_all-stopped zero t h = refl
fire_all-stopped (suc n) t h =
    let e : fire t ≡ t = unfold fire in rw h in rw e (fire_all-stopped n t h)

-- After `rounds` timers and one more, each at the end of the one before, the listener has been
-- called, when just the whole delay has passed, and no timer is armed.
pub set_long_timeout_calls :
    (after : ℕ)
    → fire_all (suc (rounds after)) (set_long_timeout after)
      ≡ record { timeout = none; elapsed = after; called_at = some after }
unfolding set_long_timeout rounds
set_long_timeout_calls after =
    let k = rounds after in
    fire_all-suc k _
    ∙ rw (fire_all-waiting k after 0 (omega arith)) (
        (fire_last (after - k * timeout_max) (0 + k * timeout_max) (omega arith)
          ∙ ap (λ t. record { timeout = none; elapsed = t; called_at = some t }) (omega arith)))

-- A long timeout that is aborted after at most `rounds` of its timers never calls its listener.
pub abort_prevents :
    (after k n : ℕ)
    → k ≤ rounds after
    → (fire_all n (abort (fire_all k (set_long_timeout after)))).called_at ≡ none
unfolding set_long_timeout abort
abort_prevents after k n h =
    let stopped : LongTimeout = record {
      timeout = none;
      elapsed = 0 + k * timeout_max;
      called_at = none;
    } in
    rw (fire_all-waiting k after 0 h) (ap (λ t. t.called_at) (fire_all-stopped n stopped refl))
