-- ===== src/Locks/Exclusion.antt =====
-- How many callers hold a lock, and who waits for it.
use rivetkit.Base.{
  ℕ, zero, suc, ◌+◌, ◌≤◌, ◌<◌, ◌≡◌, refl, Bool, true, false, not, ◌&&◌, ◌||◌, List, [], ◌∷◌, ◌++◌,
  ltb, ltb→lt, if◌then◌else◌, if_elim, is_empty, length, length-append, remove_at, arith,
}
use rivetkit.Locks.{Lock, new_lock, enter, lock, resume, release}

length-remove_at : (i : ℕ) (xs : List ℕ) → i < length xs → 1 + length (remove_at i xs) ≡ length xs
length-remove_at i [] h = absurd (omega arith)
length-remove_at zero (x ∷ xs) h = omega arith
length-remove_at (suc i) (x ∷ xs) h = omega (arith, length-remove_at i xs (omega arith))

-- The calls, releases and resumptions of a lock, with the number of calls that came between a
-- release and the resumption of the caller that it woke.
pub data Reach : ℕ → Lock → Type 0 where
  start : Reach 0 new_lock
  calls :
      {n : ℕ} {s : Lock} (c : ℕ)
      → Reach n s
      → Reach (if is_empty s.woken then n else 1 + n) (lock c s)
  resumes : {n : ℕ} {s : Lock} → Reach n s → Reach n (resume s)
  releases : {n : ℕ} {s : Lock} (i : ℕ) → Reach n s → Reach n (release i s)

abbrev holders : Lock → ℕ
holders s = length s.running + length s.woken

-- A lock's holders, and that somebody runs or is woken while others wait.
record IsSafe (n : ℕ) (s : Lock) : Type 0 where
  bounded : holders s ≤ 1 + n
  unlocked : s.locked ≡ false → is_empty s.woken ≡ true → holders s ≤ n
  held : s.locked ≡ true → 1 ≤ length s.running
  wakes : 1 ≤ length s.waiting → 1 ≤ holders s

empty_length : (xs : List ℕ) → is_empty xs ≡ true → length xs ≡ 0
empty_length [] h = refl
empty_length (x ∷ xs) h = ground arith

lock-IsSafe :
    (n c : ℕ) (s : Lock) → IsSafe n s → IsSafe (if is_empty s.woken then n else 1 + n) (lock c s)
unfolding lock enter
lock-IsSafe n c s v = record {
  bounded =
      ground (arith, v.bounded, v.unlocked, length-append s.running (c ∷ []), empty_length s.woken);
  unlocked = λ h k. ground (arith, h, k);
  held = λ h. ground (arith, h, v.held, length-append s.running (c ∷ []));
  wakes = λ h. ground (
    arith,
    h,
    v.held,
    v.wakes,
    length-append s.running (c ∷ []),
    length-append s.waiting (c ∷ []),
  );
}

abbrev a_lock : Bool → List ℕ → List ℕ → List ℕ → Lock
a_lock locked waiting woken running = record {
  locked = locked;
  waiting = waiting;
  woken = woken;
  running = running;
}

resumed-IsSafe :
    (n : ℕ) (l : Bool) (ws ks rs : List ℕ)
    → IsSafe n (a_lock l ws ks rs)
    → IsSafe n (resume (a_lock l ws ks rs))
unfolding resume enter
resumed-IsSafe n l ws [] rs v = v
resumed-IsSafe n l ws (c ∷ ks) rs v = record {
  bounded = omega (arith, v.bounded, length-append rs (c ∷ []));
  unlocked = λ h k. absurd (ground (arith, h));
  held = λ h. omega (arith, length-append rs (c ∷ []));
  wakes = λ h. omega (arith, length-append rs (c ∷ []));
}

released-IsSafe :
    (n i : ℕ) (l : Bool) (ws ks rs : List ℕ)
    → i < length rs
    → IsSafe n (a_lock l ws ks rs)
    → IsSafe n (elim ws [
      | [] ↦ a_lock false [] ks (remove_at i rs)
      | c ∷ cs ↦ a_lock false cs (ks ++ c ∷ []) (remove_at i rs)
    ])
released-IsSafe n i l [] ks rs h v = record {
  bounded = omega (arith, v.bounded, length-remove_at i rs h);
  unlocked = λ p k. omega (arith, v.bounded, length-remove_at i rs h);
  held = λ p. absurd (ground (arith, p));
  wakes = λ p. absurd (omega (arith, p));
}
released-IsSafe n i l (c ∷ cs) ks rs h v = record {
  bounded = omega (arith, v.bounded, length-remove_at i rs h, length-append ks (c ∷ []));
  unlocked =
      λ p k. absurd (omega (arith, empty_length (ks ++ c ∷ []) k, length-append ks (c ∷ [])));
  held = λ p. absurd (ground (arith, p));
  wakes = λ p. omega (arith, length-append ks (c ∷ []));
}

release-IsSafe : (n i : ℕ) (s : Lock) → IsSafe n s → IsSafe n (release i s)
unfolding release
release-IsSafe n i s v =
    if_elim (IsSafe n) (ltb i (length s.running)) _ s
      (λ h.
        released-IsSafe n i s.locked s.waiting s.woken s.running (ltb→lt i (length s.running) h) v)
      (λ h. v)

Reach-IsSafe : (n : ℕ) (s : Lock) → Reach n s → IsSafe n s
Reach-IsSafe n s start = record {
  bounded = omega arith;
  unlocked = λ h k. omega arith;
  held = λ h. absurd (ground (arith, h));
  wakes = λ h. absurd (omega (arith, h));
}
Reach-IsSafe n s (calls c r) = lock-IsSafe _ c _ (Reach-IsSafe _ _ r)
Reach-IsSafe n s (resumes r) = resumed-IsSafe _ _ _ _ _ (Reach-IsSafe _ _ r)
Reach-IsSafe n s (releases i r) = release-IsSafe _ i _ (Reach-IsSafe _ _ r)

some_holder :
    (ws rs ks : List ℕ)
    → (1 ≤ length ws → 1 ≤ length rs + length ks)
    → (is_empty ws || not (is_empty rs && is_empty ks)) ≡ true
some_holder [] rs ks h = refl
some_holder (w ∷ ws) (x ∷ rs) ks h = refl
some_holder (w ∷ ws) [] (x ∷ ks) h = refl
some_holder (w ∷ ws) [] [] h = absurd (omega (arith, h (omega arith)))

-- In every state that a lock reaches, no more functions run than one, and one for each call that
-- came between a release and the resumption of the caller that it woke; and while a caller waits,
-- some function runs or some caller is woken.
pub lock_holders :
    (n : ℕ) (s : Lock)
    → Reach n s
    → (length s.running ≤ 1 + n)
      × ((is_empty s.waiting || not (is_empty s.running && is_empty s.woken)) ≡ true)
lock_holders n s r =
    let v = Reach-IsSafe n s r in
    (omega (arith, v.bounded), some_holder s.waiting s.running s.woken v.wakes)
