-- ===== src/Actor/Actions.antt =====
-- `executeAction` of packages/rivetkit/src/actor/instance.ts and `processMessage` of
-- packages/rivetkit/src/actor/protocol/old.ts. The actions and the hooks are the user's code: a
-- parameter gives what a call does to the actor's state and how it ends. The codec of arguments and
-- outputs is a parameter too.
pub mod Replies
use rivetkit.Base.{ℕ, Bool, true, false, Option, none, some, List, [], ◌∷◌, ◌++◌, if◌then◌else◌}

-- Values, by their encoding.
abbrev pub Value : Type 0
Value = List ℕ

-- The errors that a client can be sent, by what is thrown.
pub data ActionError : Type 0 where
  action_not_found : ℕ → ActionError
  action_timed_out : ActionError
  unsupported_action unsupported_subscriptions : ActionError
  -- The invariant "executing action before ready".
  before_ready : ActionError
  malformed_arguments : ActionError
  -- What the user's code throws, and `null`.
  thrown : Value → ActionError
  thrown_null : ActionError
  -- What `cbor.encode` throws for an output.
  unencodable_output : ActionError

-- How the call of an action ends: it returns, throws, or is not done by the deadline.
pub data Run : Type 0 where
  returned : Value → Run
  threw : Value → Run
  threw_null : Run
  timed_out : Run

-- An entry of `config.actions`.
pub data Entry (S : Type 0) : Type 0 where
  action : (List Value → S → S × Run) → Entry S
  not_a_function : Entry S

pub record ActionConfig (S : Type 0) : Type 0 where
  pub actions : ℕ → Option (Entry S)
  -- `onBeforeActionResponse`: its result, or nothing where it throws.
  pub on_before_action_response : Option (ℕ → List Value → Value → Option Value)

pub data Result (A : Type 0) : Type 0 where
  ok : A → Result A
  err : ActionError → Result A

-- What `executeAction` leaves: the state, whether a throttled save was asked for, and the result.
pub record Executed (S : Type 0) : Type 0 where
  pub state : S
  pub save_requested : Bool
  pub result : Result Value

module _ {S : Type 0} (config : ActionConfig S) where
  -- The output as the hook leaves it; an error of the hook is logged and the output stays.
  unfoldable pub process_output : ℕ → List Value → Value → Value
  process_output name args output = elim config.on_before_action_response [
    | none ↦ output
    | some hook ↦ elim (hook name args output) [ none ↦ output | some processed ↦ processed ]
  ]

  unfoldable pub finish_run : ℕ → List Value → Run → Result Value
  unfolding process_output
  finish_run name args (returned output) = ok (process_output name args output)
  finish_run name args (threw error) = err (thrown error)
  finish_run name args threw_null = err thrown_null
  finish_run name args timed_out = err action_timed_out

  -- An action that is found.
  unfoldable pub execute_entry : ℕ → List Value → Entry S → S → Executed S
  unfolding finish_run
  execute_entry name args not_a_function s = record {
    state = s;
    save_requested = false;
    result = err (action_not_found name);
  }
  execute_entry name args (action run) s =
      let (s', ended) = run args s in
      record { state = s'; save_requested = true; result = finish_run name args ended }

  -- `executeAction(ctx, actionName, args)`
  unfoldable pub execute_action : Bool → ℕ → List Value → S → Executed S
  unfolding execute_entry
  execute_action false name args s = record {
    state = s;
    save_requested = false;
    result = err before_ready;
  }
  execute_action true name args s = elim (config.actions name) [
    | none ↦ record { state = s; save_requested = false; result = err (action_not_found name) }
    | some entry ↦ execute_entry name args entry s
  ]

-- `protocol.ToServer`
pub data ToServer : Type 0 where
  -- the action's id, name and encoded arguments
  action_request : ℕ → ℕ → Value → ToServer
  -- the event's name, and whether to subscribe
  subscription_request : ℕ → Bool → ToServer

-- What is sent back to the connection.
pub data Reply : Type 0 where
  action_response : ℕ → Value → Reply
  -- the error, and the id of the action if one was being run
  error : ActionError → Option ℕ → Reply

-- `ProcessMessageHandler`: the handlers that are defined. A handler of an action returns the state
-- and the result, one of a subscription the state and the error that it throws, if it throws.
pub record Handler (S : Type 0) : Type 0 where
  pub on_execute_action : Option (ℕ → List Value → S → S × Result Value)
  pub on_subscribe : Option (ℕ → S → S × Option ActionError)
  pub on_unsubscribe : Option (ℕ → S → S × Option ActionError)

-- The codec of packages that the source calls: nothing where the bytes do not decode or the value
-- cannot be encoded, and whether the metadata of an error can be encoded.
pub record Codec : Type 0 where
  pub decode_args : Value → Option (List Value)
  pub encode : Value → Option Value
  pub encodes_metadata : ActionError → Bool

module _ {S : Type 0} (codec : Codec) (handler : Handler S) where
  -- The `catch`: `deconstructError` throws on `null`, and nothing is sent; the same where the
  -- metadata cannot be encoded.
  unfoldable pub reply_error : ActionError → Option ℕ → List Reply
  reply_error thrown_null id = []
  reply_error e id = if codec.encodes_metadata e then error e id ∷ [] else []

  -- The reply to an action's result.
  unfoldable pub reply_to : ℕ → Result Value → List Reply
  unfolding reply_error
  reply_to id (ok output) = elim (codec.encode output) [
    | none ↦ reply_error unencodable_output (some id)
    | some encoded ↦ action_response id encoded ∷ []
  ]
  reply_to id (err e) = reply_error e (some id)

  unfoldable pub process_action : ℕ → ℕ → Value → S → S × List Reply
  unfolding reply_to reply_error
  process_action id name raw s = elim handler.on_execute_action [
    -- thrown before the id is noted
    | none ↦ (s, reply_error unsupported_action none)
    | some execute ↦ elim (codec.decode_args raw) [
      | none ↦ (s, reply_error malformed_arguments (some id))
      | some args ↦ let (s', result) = execute name args s in (s', reply_to id result)
    ]
  ]

  unfoldable pub reply_to_subscription : S × Option ActionError → S × List Reply
  unfolding reply_error
  reply_to_subscription (s, none) = (s, [])
  reply_to_subscription (s, some e) = (s, reply_error e none)

  unfoldable pub process_subscription : ℕ → Bool → S → S × List Reply
  unfolding reply_to_subscription reply_error
  process_subscription name subscribe s = elim handler.on_subscribe [
    | none ↦ (s, reply_error unsupported_subscriptions none)
    | some on_subscribe ↦ elim handler.on_unsubscribe [
      | none ↦ (s, reply_error unsupported_subscriptions none)
      | some on_unsubscribe ↦
          reply_to_subscription (if subscribe then on_subscribe name s else on_unsubscribe name s)
    ]
  ]

  -- `processMessage(message, actor, conn, handler)`
  unfoldable pub process_message : ToServer → S → S × List Reply
  unfolding process_action process_subscription
  process_message (action_request id name raw) s = process_action id name raw s
  process_message (subscription_request name subscribe) s = process_subscription name subscribe s
