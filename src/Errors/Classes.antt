-- ===== src/Errors/Classes.antt =====
-- The error classes, each by its code, message, status and whether it is public.
use rivetkit.Base.{ℕ, Bool, true, false, Option, none, some, List, ◌++◌, Text, codes, if◌then◌else◌}

-- Metadata, by its encoding.
abbrev pub Metadata : Type 0
Metadata = List ℕ

-- `ActorError`
pub record ActorError : Type 0 where
  pub code : Text
  pub message : Text
  pub is_public : Bool
  pub metadata : Option Metadata
  pub status_code : ℕ

-- The constructor of `ActorError`.
abbrev pub actor_error : Text → Text → Bool → Option Metadata → ActorError
actor_error code message is_public metadata = record {
  code = code;
  message = message;
  is_public = is_public;
  metadata = metadata;
  status_code = if is_public then 400 else 500;
}

-- `this.statusCode = status`
abbrev pub with_status : ℕ → ActorError → ActorError
with_status status e = record e { status_code = status }

abbrev pub internal_error_code : Text
internal_error_code = codes "internal_error"

abbrev pub internal_error_description : Text
internal_error_description = codes "Internal error. Read the server logs for more details."

abbrev pub user_error_code : Text
user_error_code = codes "user_error"

-- The classes, with the arguments of their constructors. A text that only goes into the message
-- comes as it stands there.
pub data ErrorClass : Type 0 where
  internal_error unreachable : Text → ErrorClass
  state_not_enabled conn_state_not_enabled vars_not_enabled : ErrorClass
  action_timed_out : ErrorClass
  action_not_found invalid_encoding conn_not_found : Text → ErrorClass
  incorrect_conn_token message_too_long : ErrorClass
  malformed_message : Text → ErrorClass
  invalid_state_type : Option Text → ErrorClass
  unsupported : Text → ErrorClass
  -- the message, the code and the metadata
  user_error : Text → Option Text → Option Metadata → ErrorClass
  invalid_query_json invalid_request : Text → ErrorClass
  actor_not_found : Option Text → ErrorClass
  -- the name, and the key as JSON
  actor_already_exists : Text → Text → ErrorClass
  -- the operation, and the error
  proxy_error : Text → Text → ErrorClass
  invalid_action_request invalid_params : Text → ErrorClass
  unauthorized : Option Text → ErrorClass
  forbidden : Option Text → Option Metadata → ErrorClass
  database_not_enabled fetch_handler_not_defined : ErrorClass
  websocket_handler_not_defined invalid_fetch_response : ErrorClass

abbrev pub or_else : Option Text → Text → Text
or_else none default = default
or_else (some text) default = text

-- The message of `InvalidStateType`, up to the list of valid types.
abbrev pub invalid_state_message : Option Text → Text
invalid_state_message none = codes "Attempted to set invalid state."
invalid_state_message (some path) =
    codes "Attempted to set invalid state at path `" ++ path ++ codes "`."

abbrev pub actor_not_found_message : Option Text → Text
actor_not_found_message none =
    codes "Actor not found (https://www.rivet.gg/docs/actors/clients/#actor-client)"
actor_not_found_message (some identifier) =
    codes "Actor not found: "
    ++ identifier
    ++ codes " (https://www.rivet.gg/docs/actors/clients/#actor-client)"

-- What the constructor of a class makes.
unfoldable pub construct : ErrorClass → ActorError
construct (internal_error message) = actor_error internal_error_code message false none
construct (unreachable x) =
    actor_error internal_error_code (codes "Unreachable case: " ++ x) false none
construct state_not_enabled =
    actor_error (codes "state_not_enabled")
      (codes
        "State not enabled. Must implement `createState` or `state` to use state. (https://www.rivet.gg/docs/actors/state/#initializing-state)")
      false none
construct conn_state_not_enabled =
    actor_error (codes "conn_state_not_enabled")
      (codes
        "Connection state not enabled. Must implement `createConnectionState` or `connectionState` to use connection state. (https://www.rivet.gg/docs/actors/connections/#connection-state)")
      false none
construct vars_not_enabled =
    actor_error (codes "vars_not_enabled")
      (codes
        "Variables not enabled. Must implement `createVars` or `vars` to use state. (https://www.rivet.gg/docs/actors/ephemeral-variables/#initializing-variables)")
      false none
construct action_timed_out =
    actor_error (codes "action_timed_out")
      (codes
        "Action timed out. This can be increased with: `actor({ options: { action: { timeout: ... } } })`")
      true none
construct (action_not_found name) =
    actor_error (codes "action_not_found")
      (codes "Action '" ++ name ++ codes "' not found. Validate the action exists on your actor.")
      true none
construct (invalid_encoding format) =
    actor_error (codes "invalid_encoding")
      (codes "Invalid encoding `"
        ++ format
        ++ codes "`. (https://www.rivet.gg/docs/actors/clients/#actor-client)")
      true none
construct (conn_not_found id) =
    actor_error (codes "conn_not_found") (codes "Connection not found for ID: " ++ id) true none
construct incorrect_conn_token =
    actor_error (codes "incorrect_conn_token") (codes "Incorrect connection token.") true none
construct message_too_long =
    actor_error (codes "message_too_long")
      (codes
        "Message too long. This can be configured with: `registry.runServer({ maxIncomingMessageSize: ... })`")
      true none
construct (malformed_message cause) =
    actor_error (codes "malformed_message") (codes "Malformed message: " ++ cause) true none
construct (invalid_state_type path) =
    actor_error (codes "invalid_state_type")
      (invalid_state_message path
        ++ codes
            " Valid types include: null, undefined, boolean, string, number, BigInt, Date, RegExp, Error, typed arrays (Uint8Array, Int8Array, Float32Array, etc.), Map, Set, Array, and plain objects. (https://www.rivet.gg/docs/actors/state/#limitations)")
      false none
construct (unsupported feature) =
    actor_error (codes "unsupported") (codes "Unsupported feature: " ++ feature) false none
construct (user_error message code metadata) =
    actor_error (or_else code user_error_code) message true metadata
construct (invalid_query_json error) =
    actor_error (codes "invalid_query_json") (codes "Invalid query JSON: " ++ error) true none
construct (invalid_request error) =
    actor_error (codes "invalid_request") (codes "Invalid request: " ++ error) true none
construct (actor_not_found identifier) =
    actor_error (codes "actor_not_found") (actor_not_found_message identifier) true none
construct (actor_already_exists name key) =
    actor_error (codes "actor_already_exists")
      (codes "Actor already exists with name '"
        ++ name
        ++ codes "' and key '"
        ++ key
        ++ codes "' (https://www.rivet.gg/docs/actors/clients/#actor-client)")
      true none
construct (proxy_error operation error) =
    actor_error (codes "proxy_error")
      (codes "Error proxying "
        ++ operation
        ++ codes ", this is likely an internal error: "
        ++ error)
      true none
construct (invalid_action_request message) =
    actor_error (codes "invalid_action_request") message true none
construct (invalid_params message) = actor_error (codes "invalid_params") message true none
construct (unauthorized message) = with_status 401 (
    actor_error (codes "unauthorized")
      (or_else message
        (codes "Unauthorized. Access denied. (https://www.rivet.gg/docs/actors/authentication/)"))
      true none)
construct (forbidden message metadata) = with_status 403 (
    actor_error (codes "forbidden")
      (or_else message
        (codes "Forbidden. Access denied. (https://www.rivet.gg/docs/actors/authentication/)"))
      true metadata)
construct database_not_enabled =
    actor_error (codes "database_not_enabled")
      (codes "Database not enabled. Must implement `database` to use database.") false none
construct fetch_handler_not_defined = with_status 404 (
    actor_error (codes "fetch_handler_not_defined")
      (codes
        "Raw HTTP handler not defined. Actor must implement `onFetch` to handle raw HTTP requests. (https://www.rivet.gg/docs/actors/fetch-and-websocket-handler/)")
      true none)
construct websocket_handler_not_defined = with_status 404 (
    actor_error (codes "websocket_handler_not_defined")
      (codes
        "Raw WebSocket handler not defined. Actor must implement `onWebSocket` to handle raw WebSocket connections. (https://www.rivet.gg/docs/actors/fetch-and-websocket-handler/)")
      true none)
construct invalid_fetch_response = with_status 500 (
    actor_error (codes "invalid_fetch_response")
      (codes
        "Actor's onFetch handler must return a Response object. Returning void/undefined is not allowed. (https://www.rivet.gg/docs/actors/fetch-and-websocket-handler/)")
      true none)
