-- ===== src/Tests/Replies.antt =====
-- Actions: packages/rivetkit/src/actor/instance.ts and protocol/old.ts.
use rivetkit.Base.{
  arith, List, true, ℕ, ◌+◌, ◌≡◌, ◌≢◌, refl, Option, none, some, [], ◌∷◌, ◌==◌, if◌then◌else◌,
}
use rivetkit.Actor.Actions.{
  Value, err, thrown_null, Entry, action, ActionConfig, returned, threw, execute_action, Codec,
  Handler, Reply, error, action_request, process_message, thrown,
}
use rivetkit.Actor.Actions.Replies.{on_execute, reply_id, process_message_answers}

-- A counter with one action, which adds one and returns nothing, and another that throws.
abbrev actions_of : ℕ → Option (Entry ℕ)
actions_of name =
    if name == 1
    then some (action (λ args count. (count + 1, returned [])))
    else if name == 2
    then some (action (λ args count. (count + 5, threw (8 ∷ []))))
    else none

abbrev config : ActionConfig ℕ
config = record { actions = actions_of; on_before_action_response = none }

abbrev codec : Codec
codec = record {
  decode_args = λ raw. some (raw ∷ []);
  encode = λ output. some (0 ∷ output);
  encodes_metadata = λ e. true;
}

abbrev handler : Handler ℕ
handler = record {
  on_execute_action = some (on_execute config);
  on_subscribe = none;
  on_unsubscribe = none;
}

-- The action that throws keeps what it changed, and its error goes back under the request's id.
throwing_run :
    process_message codec handler (action_request 6 2 (3 ∷ [])) 10
    ≡ (15, error (thrown (8 ∷ [])) (some 6) ∷ [])
unfolding process_message execute_action
throwing_run = refl

no_null_lem :
    (name : ℕ) (args : List Value) (s : ℕ) → (on_execute config name args s).1 ≢ err thrown_null
unfolding execute_action
no_null_lem name args s h = ground (arith, h)

process_message_answers_example :
    (reply : Reply) × ((process_message codec handler (action_request 6 1 (3 ∷ [])) 10).1
      ≡ reply ∷ [])
    × (reply_id reply ≡ some 6)
process_message_answers_example =
    process_message_answers codec handler 6 1 (3 ∷ []) 10 (on_execute config) refl
      (λ args. no_null_lem 1 args 10) (λ e. refl)
