-- ===== src/Actor/Start/Scheduled.antt =====
-- The events of an actor after `#scheduleEventInner` of packages/rivetkit/src/actor/instance.ts.
use rivetkit.Base.{
  ℕ, zero, suc, ◌≡◌, refl, Bool, true, false, ◌||◌, ◌==◌, Option, none, some, List, [], ◌∷◌, ◌++◌,
  insert_at, Option-cases, inl, inr, arith,
}
use rivetkit.Actor.Stored.{PersistedActor, PersistedScheduleEvent}
use rivetkit.Actor.Start.{insert_index, insert_event}

-- An event of the time is scheduled.
abbrev pub has_time : {B : Type 0} → ℕ → List (PersistedScheduleEvent B) → Bool
has_time t [] = false
has_time t (e ∷ es) = e.timestamp == t || has_time t es

abbrev pub is_scheduled : {V B : Type 0} → Option (PersistedActor V B) → ℕ → Bool
is_scheduled none t = false
is_scheduled (some p) t = has_time t p.scheduled_events

pub or_right : (a b : Bool) → b ≡ true → (a || b) ≡ true
or_right true b h = refl
or_right false b h = h

has_time-insert_at :
    {B : Type 0} (t n : ℕ) (e : PersistedScheduleEvent B) (es : List (PersistedScheduleEvent B))
    → has_time t (insert_at n e es) ≡ (e.timestamp == t || has_time t es)
has_time-insert_at t zero e es = refl
has_time-insert_at t (suc n) e [] = refl
has_time-insert_at t (suc n) e (x ∷ es) = ground (arith, has_time-insert_at t n e es)

has_time-append :
    {B : Type 0} (t : ℕ) (e : PersistedScheduleEvent B) (es : List (PersistedScheduleEvent B))
    → has_time t (es ++ e ∷ []) ≡ (e.timestamp == t || has_time t es)
has_time-append t e [] = refl
has_time-append t e (x ∷ es) = ground (arith, has_time-append t e es)

pub has_time-insert_event :
    {B : Type 0} (t : ℕ) (e : PersistedScheduleEvent B) (es : List (PersistedScheduleEvent B))
    → has_time t (insert_event e es) ≡ (e.timestamp == t || has_time t es)
has_time-insert_event t e es = elim (Option-cases (insert_index e es)) [
  | inl k ↦ rw (k, insert_event) (has_time-append t e es)
  | inr (n, k) ↦ rw (k, insert_event) (has_time-insert_at t n e es)
]
