-- ===== src/Tests/Locks.antt =====
-- Locks and throttled functions: packages/rivetkit/src/actor/utils.ts.
use rivetkit.Base.{◌+◌, ◌≤◌, ◌≡◌, refl, true, not, ◌&&◌, ◌||◌, some, [], ◌∷◌, is_empty, length}
use rivetkit.Locks.{
  Lock, new_lock, enter, lock, resume, release, Throttle, new_throttle, throttled, timer_fires,
}
use rivetkit.Locks.Exclusion
use rivetkit.Locks.Exclusion.{lock_holders}
use rivetkit.Locks.Throttling
use rivetkit.Locks.Throttling.{IsThrottled, Reach-IsThrottled}

-- Callers 1 and 2 come, 1 is done, and 3 comes before 2 goes on.
barged : Lock
barged = resume (lock 3 (release 0 (lock 2 (lock 1 new_lock))))

-- Both run.
barged_run : barged.running ≡ 3 ∷ 2 ∷ []
unfolding barged resume lock release enter
barged_run = refl

barged-Reach : Exclusion.Reach 1 barged
unfolding barged resume lock release enter
barged-Reach = Exclusion.resumes (
    Exclusion.calls 3
      (Exclusion.releases 0 (Exclusion.calls 2 (Exclusion.calls 1 Exclusion.start))))

lock_holders_example :
    (length barged.running ≤ 1 + 1)
    × ((is_empty barged.waiting || not (is_empty barged.running && is_empty barged.woken)) ≡ true)
lock_holders_example = lock_holders 1 barged barged-Reach

-- Three calls, and the time of the first is over: the first and the last ran.
quick : Throttle
quick = timer_fires (throttled 7 (throttled 6 (throttled 5 new_throttle)))

quick_run : quick.ran ≡ 5 ∷ 7 ∷ []
unfolding quick timer_fires throttled
quick_run = refl

quick-Reach : Throttling.Reach (some 7) quick
unfolding quick
quick-Reach =
    Throttling.fires (Throttling.calls 7 (Throttling.calls 6 (Throttling.calls 5 Throttling.start)))

Reach-IsThrottled_example : IsThrottled (some 7) quick
Reach-IsThrottled_example = Reach-IsThrottled (some 7) quick quick-Reach
