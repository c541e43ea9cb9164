-- ===== src/Tests/Files.antt =====
-- The file-system driver: packages/rivetkit/src/drivers/file-system/global-state.ts.
use rivetkit.Base.{
  ℕ, zero, suc, ◌+◌, ◌*◌, ◌≤◌, ◌≡◌, ap, ◌∙◌, true, false, refl, none, some, List, [], ◌∷◌, ◌++◌,
  Text, codes, arith,
}
use rivetkit.Manager
use rivetkit.FileSystem.{
  StoredActor, DriverState, new_entry, ok, stored, entry_of, has_state, load_or_create_actor,
}
use rivetkit.FileSystem.Alarms.{alarm_of}
use rivetkit.FileSystem.Driver.{
  Environment, generate_actor_id, file_system_driver, get_or_create_with_key,
}
use rivetkit.FileSystem.Driver.Laws.{exists, HaveOneId, file_system_driver-DriverLaws}
use rivetkit.Manager.Requests.{DriverLaws}

abbrev pub no_actors : DriverState
no_actors = record {
  persist = true;
  actors = [];
  state_files = [];
  alarm_files = [];
  runner_started = true;
  woken = [];
}

abbrev actor : StoredActor
actor = stored 1 (codes "chat") (codes "k" ∷ []) 100 (7 ∷ [])

-- Actor 1 is loaded and has an alarm.
abbrev loaded : DriverState
loaded = record no_actors {
  actors = (1, record new_entry { state = some actor; alarm_timestamp = some 50 }) ∷ [];
}

created_run :
    (load_or_create_actor true true 100 1 (codes "chat") (codes "k" ∷ []) (7 ∷ []) no_actors).1
    ≡ ok tt
unfolding load_or_create_actor entry_of
created_run = refl

loaded_idle : (has_state 1 loaded ≡ true) × ((entry_of 1 loaded).running ≡ false)
unfolding entry_of
loaded_idle = (refl, refl)

loaded_alarm : alarm_of 1 loaded ≡ some 50
unfolding entry_of
loaded_alarm = refl

-- A number for each text, 2^c * (2 * n + 1) for a code unit c in front of
-- a text with the number n.
abbrev pair : ℕ → ℕ → ℕ
pair zero n = 2 * n + 1
pair (suc c) n = 2 * pair c n

abbrev number : Text → ℕ
number [] = 0
number (c ∷ t) = pair c (number t)

pair_positive : (c n : ℕ) → 1 ≤ pair c n
pair_positive zero n = omega arith
pair_positive (suc c) n = omega (arith, pair_positive c n)

pair-injective : (c d m n : ℕ) → pair c m ≡ pair d n → (c ≡ d) × (m ≡ n)
pair-injective zero zero m n h = (refl, omega arith)
pair-injective zero (suc d) m n h = absurd (omega (arith, h))
pair-injective (suc c) zero m n h = absurd (omega (arith, h))
pair-injective (suc c) (suc d) m n h =
    let half : pair c m ≡ pair d n = omega (arith, h) in
    let (e, k) = pair-injective c d m n half in (ap (λ x. suc x) e, k)

pub number-injective : (s t : Text) → number s ≡ number t → s ≡ t
number-injective [] [] h = refl
number-injective [] (d ∷ t) h = absurd (omega (arith, pair_positive d (number t), h))
number-injective (c ∷ s) [] h = absurd (omega (arith, pair_positive c (number s), h))
number-injective (c ∷ s) (d ∷ t) h =
    let (e, k) = pair-injective c d (number s) (number t) h in
    ap (λ x. x ∷ s) e ∙ ap (λ r. d ∷ r) (number-injective s t k)

-- A stand-in for the digits of SHA-256: the text itself.
abbrev joined : Text → List Text → Text
joined name [] = name
joined name (k ∷ key) = k ++ 34 ∷ joined name key

abbrev pub environment : Environment Text
environment = record {
  stringify = joined;
  sha256_hex = λ t. t;
  text_of = λ id. id ∷ [];
  id_of = number;
  input_data = λ input. [];
  now = 100;
  message = λ e. codes "no";
  reads = true;
  writes = true;
}

returned_run :
    (get_or_create_with_key environment (codes "a") [] none none no_actors).1
    ≡ Manager.ok (record { actor_id = number (codes "a") ∷ []; name = codes "a" })
unfolding get_or_create_with_key load_or_create_actor entry_of generate_actor_id
returned_run = refl

file_system_driver-DriverLaws_example :
    DriverLaws (file_system_driver environment) (exists environment) (HaveOneId environment)
file_system_driver-DriverLaws_example = file_system_driver-DriverLaws environment number-injective
