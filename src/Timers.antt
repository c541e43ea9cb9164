-- ===== src/Timers.antt =====
-- `setLongTimeout` of packages/rivetkit/src/utils.ts: a long delay as a chain of timers that
-- each fit a signed 32-bit integer.
pub mod Laws
use rivetkit.Base.{
  ℕ, zero, suc, ◌+◌, ◌-◌, ◌≤◌, Bool, true, false, Option, none, some, leb, if◌then◌else◌,
}

-- 2^31 - 1
abbrev pub timeout_max : ℕ
timeout_max = 2147483647

-- What the timer that is armed does when it fires.
pub data Then : Type 0 where
  call_listener : Then
  start_again : ℕ → Then

-- The timer that `timeout` names.
pub record Armed : Type 0 where
  pub delay : ℕ
  pub on_fire : Then

-- `start(remaining)`
unfoldable pub start : ℕ → Armed
start remaining =
    if leb remaining timeout_max
    then record { delay = remaining; on_fire = call_listener }
    else record { delay = timeout_max; on_fire = start_again (remaining - timeout_max) }

-- The closure of `setLongTimeout`: the timer armed, the time that has passed, and the times at
-- which the listener was called, the last one if it was called.
pub record LongTimeout : Type 0 where
  pub timeout : Option Armed
  pub elapsed : ℕ
  pub called_at : Option ℕ

unfoldable pub set_long_timeout : ℕ → LongTimeout
unfolding start
set_long_timeout after = record { timeout = some (start after); elapsed = 0; called_at = none }

unfoldable pub run_then : Then → ℕ → LongTimeout
unfolding start
run_then call_listener now = record { timeout = none; elapsed = now; called_at = some now }
run_then (start_again remaining) now = record {
  timeout = some (start remaining);
  elapsed = now;
  called_at = none;
}

-- The armed timer fires.
unfoldable pub fire : LongTimeout → LongTimeout
unfolding run_then
fire t = elim t.timeout [ none ↦ t | some armed ↦ run_then armed.on_fire (t.elapsed + armed.delay) ]

-- `abort`
unfoldable pub abort : LongTimeout → LongTimeout
abort t = record t { timeout = none }

unfoldable pub fire_all : ℕ → LongTimeout → LongTimeout
fire_all zero t = t
fire_all (suc n) t = fire_all n (fire t)
