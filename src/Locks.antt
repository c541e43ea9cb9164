-- ===== src/Locks.antt =====
-- `Lock` and `throttle` of packages/rivetkit/src/actor/utils.ts. Where a promise resolves, what
-- awaits it goes on in a step of its own, and other callers may come before it. The function of a
-- throttle returns.
pub mod Exclusion
pub mod Throttling
use rivetkit.Base.{
  ℕ, zero, suc, Bool, true, false, Option, none, some, List, [], ◌∷◌, ◌++◌, ltb, if◌then◌else◌,
  length, remove_at,
}

-- `Lock`, with the callers that it has resolved but that have not gone on, and those whose function
-- runs.
pub record Lock : Type 0 where
  pub locked : Bool
  pub waiting : List ℕ
  pub woken : List ℕ
  pub running : List ℕ

-- A new `Lock`.
abbrev pub new_lock : Lock
new_lock = record { locked = false; waiting = []; woken = []; running = [] }

-- The lock is taken and the function is called.
unfoldable pub enter : ℕ → Lock → Lock
enter c s = record s { locked = true; running = s.running ++ c ∷ [] }

-- `lock(fn)` up to its first `await`.
unfoldable pub lock : ℕ → Lock → Lock
unfolding enter
lock c s = if s.locked then record s { waiting = s.waiting ++ c ∷ [] } else enter c s

-- A caller goes on behind the `await` of its own promise.
unfoldable pub resume : Lock → Lock
unfolding enter
resume s = elim s.woken [ [] ↦ s | c ∷ cs ↦ enter c (record s { woken = cs }) ]

-- The `finally`, for the caller at an index of those that run.
unfoldable pub release : ℕ → Lock → Lock
release i s =
    if ltb i (length s.running)
    then elim s.waiting [
      | [] ↦ record s { locked = false; waiting = []; running = remove_at i s.running }
      | c ∷ cs ↦ record s {
        locked = false;
        waiting = cs;
        woken = s.woken ++ c ∷ [];
        running = remove_at i s.running;
      }
    ]
    else s

-- The closure of `throttle`, with the calls that it made of its function.
pub record Throttle : Type 0 where
  pub last_ran : Bool
  pub last_args : Option ℕ
  pub timers : ℕ
  pub ran : List ℕ

abbrev pub new_throttle : Throttle
new_throttle = record { last_ran = false; last_args = none; timers = 0; ran = [] }

-- The throttled function is called with arguments.
unfoldable pub throttled : ℕ → Throttle → Throttle
throttled args s =
    if s.last_ran
    then record s { last_args = some args }
    else record s { ran = s.ran ++ args ∷ []; last_ran = true; timers = suc s.timers }

-- A timeout fires.
unfoldable pub timer_fires : Throttle → Throttle
timer_fires s = elim s.timers [
  | zero ↦ s
  | suc n ↦ elim s.last_args [
    | none ↦ record s { last_ran = false; timers = n }
    | some args ↦ record s {
      ran = s.ran ++ args ∷ [];
      last_ran = true;
      last_args = none;
      timers = suc n;
    }
  ]
]
