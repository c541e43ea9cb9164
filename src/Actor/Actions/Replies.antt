-- ===== src/Actor/Actions/Replies.antt =====
-- Every action request is answered once, under its own id.
use rivetkit.Base.{
  ℕ, Bool, true, false, ◌≡◌, ◌≢◌, refl, sym, ap, Option, none, some, if◌then◌else◌, List, [], ◌∷◌,
  arith, ◌⊎◌, inl, inr, Option-cases,
}
use mathlib.Core.Path.{subst}
use rivetkit.Actor.Actions.{
  Value, ActionError, thrown, thrown_null, unencodable_output, action_timed_out, unsupported_action,
  unsupported_subscriptions, reply_error, reply_to, action_not_found, before_ready,
  malformed_arguments, Run, returned, Entry, action, not_a_function, ActionConfig, Result, ok, err,
  Executed, execute_action, execute_entry, action_request, Reply, action_response, error, Handler,
  Codec, process_message,
}

-- The id that a reply names.
abbrev pub reply_id : Reply → Option ℕ
reply_id (action_response id output) = some id
reply_id (error e id) = id

-- The handler of actions that `ActorInstance.processMessage` passes, for a ready actor.
abbrev pub on_execute : {S : Type 0} → ActionConfig S → ℕ → List Value → S → S × Result Value
on_execute config name args s =
    let done = execute_action config true name args s in (done.state, done.result)

module _ {S : Type 0} (codec : Codec) (handler : Handler S) (id name : ℕ) (raw : Value)
    (s : S) where
  abbrev replies : List Reply
  replies = (process_message codec handler (action_request id name raw) s).1

  -- What a client hears of an action: one reply, under the id of its request.
  abbrev pub IsAnswered : List Reply → Type 0
  IsAnswered sent = (reply : Reply) × (sent ≡ reply ∷ []) × (reply_id reply ≡ some id)

  said :
      (e : ActionError)
      → codec.encodes_metadata e ≡ true
      → IsAnswered (if codec.encodes_metadata e then error e (some id) ∷ [] else [])
  said e h = rw h (error e (some id), refl, refl)

  answers_error :
      (e : ActionError)
      → e ≢ thrown_null
      → ((x : ActionError) → codec.encodes_metadata x ≡ true)
      → IsAnswered (reply_error codec handler e (some id))
  unfolding reply_error
  answers_error thrown_null n m = absurd (n refl)
  answers_error (action_not_found x) n m = said (action_not_found x) (m (action_not_found x))
  answers_error action_timed_out n m = said action_timed_out (m action_timed_out)
  answers_error unsupported_action n m = said unsupported_action (m unsupported_action)
  answers_error unsupported_subscriptions n m =
      said unsupported_subscriptions (m unsupported_subscriptions)
  answers_error before_ready n m = said before_ready (m before_ready)
  answers_error malformed_arguments n m = said malformed_arguments (m malformed_arguments)
  answers_error (thrown x) n m = said (thrown x) (m (thrown x))
  answers_error unencodable_output n m = said unencodable_output (m unencodable_output)

  answers_result :
      (r : Result Value)
      → r ≢ err thrown_null
      → ((x : ActionError) → codec.encodes_metadata x ≡ true)
      → IsAnswered (reply_to codec handler id r)
  unfolding reply_to
  answers_result (ok output) n m = elim (Option-cases (codec.encode output)) [
    | inl e ↦ rw (e, reply_to) (answers_error unencodable_output (λ h. cc) m)
    | inr (encoded, e) ↦ rw (e, reply_to) (action_response id encoded, refl, refl)
  ]
  answers_result (err e) n m = answers_error e (λ h. n (ap err h)) m

  refused :
      (execute : ℕ → List Value → S → S × Result Value)
      → handler.on_execute_action ≡ some execute
      → codec.decode_args raw ≡ none
      → replies ≡ reply_error codec handler malformed_arguments (some id)
  unfolding process_message
  refused execute e d = ground arith

  answered :
      (execute : ℕ → List Value → S → S × Result Value) (args : List Value)
      → handler.on_execute_action ≡ some execute
      → codec.decode_args raw ≡ some args
      → replies ≡ reply_to codec handler id (execute name args s).1
  unfolding process_message
  answered execute args e d = ground arith

  -- Where actions are handled and the metadata of errors can be encoded, an action request gets one
  -- reply, under its own id, whether its arguments decode, its output can be encoded or the action
  -- throws, unless it throws `null`.
  pub process_message_answers :
      (execute : ℕ → List Value → S → S × Result Value)
      → handler.on_execute_action ≡ some execute
      → ((args : List Value) → (execute name args s).1 ≢ err thrown_null)
      → ((x : ActionError) → codec.encodes_metadata x ≡ true)
      → IsAnswered replies
  unfolding process_message
  process_message_answers execute e n m = elim (Option-cases (codec.decode_args raw)) [
    | inl d ↦
        subst IsAnswered (sym (refused execute e d)) (answers_error malformed_arguments (λ h. cc) m)
    | inr (args, d) ↦
        subst IsAnswered (sym (answered execute args e d))
          (answers_result (execute name args s).1 (n args) m)
  ]

module _ {S : Type 0} (config : ActionConfig S) (name : ℕ) (args : List Value) (s : S) where
  -- An action ran, and a throttled save is asked for.
  abbrev pub HasRun : Executed S → Type 0
  HasRun done =
      (run : List Value → S → S × Run) × (config.actions name ≡ some (action run))
      × (done.save_requested ≡ true)
      × (done.state ≡ (run args s).0)

  -- Nothing ran, and the state stays.
  abbrev pub WasRefused : Executed S → Type 0
  WasRefused done =
      (done.save_requested ≡ false)
      × (done.state ≡ s)
      × ((done.result ≡ err before_ready) ⊎ (done.result ≡ err (action_not_found name)))

  by_entry :
      (entry : Entry S)
      → config.actions name ≡ some entry
      → HasRun (execute_entry config name args entry s)
        ⊎ WasRefused (execute_entry config name args entry s)
  unfolding execute_entry
  by_entry not_a_function e = inr (refl, refl, inr refl)
  by_entry (action run) e = inl (run, e, refl, refl)

  abbrev HasEnded : Executed S → Type 0
  HasEnded done = HasRun done ⊎ WasRefused done

  found :
      (entry : Entry S)
      → config.actions name ≡ some entry
      → execute_action config true name args s ≡ execute_entry config name args entry s
  unfolding execute_action
  found entry e = rw (e, execute_action)

  not_found :
      config.actions name ≡ none
      → execute_action config true name args s
        ≡ record { state = s; save_requested = false; result = err (action_not_found name) }
  unfolding execute_action
  not_found e = rw (e, execute_action)

  -- Either an action of the name ran, also one that threw or timed out, and a save is asked for; or
  -- none ran, the state stays as it was, and the error says that the actor was not ready or that
  -- the action was not found.
  pub execute_action_saves :
      (ready : Bool)
      → HasRun (execute_action config ready name args s)
        ⊎ WasRefused (execute_action config ready name args s)
  unfolding execute_action
  execute_action_saves false = inr (refl, refl, inl refl)
  execute_action_saves true = elim (Option-cases (config.actions name)) [
    | inl e ↦ subst HasEnded (sym (not_found e)) (inr (refl, refl, inr refl))
    | inr (entry, e) ↦ subst HasEnded (sym (found entry e)) (by_entry entry e)
  ]

  -- A hook `onBeforeActionResponse` that throws loses nothing: the client gets the output as it
  -- would without the hook.
  pub execute_action_hook_throws :
      (run : List Value → S → S × Run) (output : Value)
      (hook : ℕ → List Value → Value → Option Value)
      → config.actions name ≡ some (action run)
      → (run args s).1 ≡ returned output
      → config.on_before_action_response ≡ some hook
      → hook name args output ≡ none
      → (execute_action config true name args s).result ≡ ok output
  unfolding execute_action
  execute_action_hook_throws run output hook e r h t = ground arith
