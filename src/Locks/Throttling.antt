-- ===== src/Locks/Throttling.antt =====
-- A throttled function: which of its calls run, and when.
use rivetkit.Base.{
  ℕ, zero, suc, ◌≡◌, refl, ◌∙◌, Bool, false, Option, none, some, List, [], ◌∷◌, ◌++◌, if◌then◌else◌,
  arith,
}
use rivetkit.Locks.{Throttle, new_throttle, throttled, timer_fires}

-- The last element, or `o` where there is none.
abbrev last_of : Option ℕ → List ℕ → Option ℕ
last_of o [] = o
last_of o (x ∷ xs) = last_of (some x) xs

-- The calls of a throttled function and its timers, with the arguments of the last call.
pub data Reach : Option ℕ → Throttle → Type 0 where
  start : Reach none new_throttle
  calls :
      {o : Option ℕ} {s : Throttle} (args : ℕ) → Reach o s → Reach (some args) (throttled args s)
  fires : {o : Option ℕ} {s : Throttle} → Reach o s → Reach o (timer_fires s)

-- One timer while the function is held back; the last arguments ran last or are kept.
pub record IsThrottled (last : Option ℕ) (s : Throttle) : Type 0 where
  pub one_timer : s.timers ≡ (if s.last_ran then 1 else 0)
  pub last_kept :
      (if s.last_ran
        then elim s.last_args [ none ↦ last_of none s.ran | some a ↦ some a ]
        else last_of none s.ran)
      ≡ last
  pub none_kept : s.last_ran ≡ false → s.last_args ≡ none

last-append : (o : Option ℕ) (xs : List ℕ) (a : ℕ) → last_of o (xs ++ a ∷ []) ≡ some a
last-append o [] a = refl
last-append o (x ∷ xs) a = last-append (some x) xs a

throttled-IsThrottled :
    (args : ℕ) (o : Option ℕ) (s : Throttle)
    → IsThrottled o s
    → IsThrottled (some args) (throttled args s)
unfolding throttled
throttled-IsThrottled args o s v = record {
  one_timer = ground (arith, v.one_timer);
  last_kept = ground (arith, v.none_kept, last-append none s.ran args);
  none_kept = λ h. ground (arith, h);
}

fired :
    (l : Bool) (k : Option ℕ) (n : ℕ) (rs : List ℕ) (o : Option ℕ)
    → IsThrottled o (record { last_ran = l; last_args = k; timers = n; ran = rs })
    → IsThrottled o (timer_fires (record { last_ran = l; last_args = k; timers = n; ran = rs }))
unfolding timer_fires
fired l k zero rs o v = v
fired l none (suc n) rs o v = record {
  one_timer = ground (arith, v.one_timer);
  last_kept = ground (arith, v.last_kept);
  none_kept = λ h. refl;
}
fired l (some a) (suc n) rs o v = record {
  one_timer = v.one_timer ∙ ground (arith, v.one_timer);
  last_kept = last-append none rs a ∙ ground (arith, v.last_kept, v.one_timer);
  none_kept = λ h. refl;
}

-- In every state that a throttled function reaches, a timer runs, and one alone, exactly while the
-- function may not be called at once; the arguments of the last call were those of the last run,
-- or they are kept for the timer.
pub Reach-IsThrottled : (o : Option ℕ) (s : Throttle) → Reach o s → IsThrottled o s
Reach-IsThrottled o s start = record { one_timer = refl; last_kept = refl; none_kept = λ h. refl }
Reach-IsThrottled o s (calls args r) = throttled-IsThrottled args _ _ (Reach-IsThrottled _ _ r)
Reach-IsThrottled o s (fires r) = fired _ _ _ _ _ (Reach-IsThrottled _ _ r)
