-- ===== src/Errors/Deconstruct.antt =====
-- `deconstructError`
use rivetkit.Base.{Option, Bool, true, false, none, some, [], ◌==◌, Text, if◌then◌else◌}
use rivetkit.Errors.Classes.{Metadata, ActorError, internal_error_code, internal_error_description}

-- What a `catch` gets, but for `null`: an `ActorError` or a `DeconstructedError`, which
-- `isActorError` both accepts, or anything else, by the message that `getErrorMessage` reads off it.
pub data Thrown : Type 0 where
  thrown_error : ActorError → Thrown
  thrown_other : Text → Thrown

-- `DeconstructedError`, an object with the fields of an `ActorError`.
abbrev pub DeconstructedError : Type 0
DeconstructedError = ActorError

-- `InternalErrorMetadata`: the object with no field, by its encoding.
abbrev pub empty_metadata : Metadata
empty_metadata = []

abbrev pub get_error_message : Thrown → Text
get_error_message (thrown_error e) = e.message
get_error_message (thrown_other message) = message

abbrev pub is_public_error : Thrown → Bool
is_public_error (thrown_error e) = e.is_public
is_public_error (thrown_other message) = false

-- The branch of public errors.
unfoldable pub reveal : ActorError → DeconstructedError
reveal e = record {
  code = e.code;
  message = e.message;
  is_public = true;
  metadata = e.metadata;
  status_code = if e.status_code == 0 then 400 else e.status_code;
}

-- The branches behind `exposeInternalError`.
unfoldable pub expose : Thrown → DeconstructedError
expose (thrown_error e) = record {
  code = e.code;
  message = e.message;
  is_public = false;
  metadata = e.metadata;
  status_code = 500;
}
expose (thrown_other message) = record {
  code = internal_error_code;
  message = message;
  is_public = false;
  metadata = none;
  status_code = 500;
}

abbrev pub masked : DeconstructedError
masked = record {
  code = internal_error_code;
  message = internal_error_description;
  is_public = false;
  metadata = some empty_metadata;
  status_code = 500;
}

abbrev pub mask : Bool → Thrown → DeconstructedError
mask expose_internal_error error = if expose_internal_error then expose error else masked

-- The branches of `deconstructError`, for what `isActorError` can look at.
unfoldable pub deconstruct_error : Bool → Thrown → DeconstructedError
unfolding reveal expose
deconstruct_error expose_internal_error (thrown_error e) =
    if e.is_public then reveal e else mask expose_internal_error (thrown_error e)
deconstruct_error expose_internal_error (thrown_other message) =
    mask expose_internal_error (thrown_other message)

-- What JavaScript can throw.
pub data Caught : Type 0 where
  null_value : Caught
  caught : Thrown → Caught

-- `deconstructError(error, logger, extraLog, exposeInternalError)`: nothing where it throws itself,
-- as `isActorError` does that reads a field of `null`.
unfoldable pub deconstruct_caught : Bool → Caught → Option DeconstructedError
unfolding deconstruct_error
deconstruct_caught expose_internal_error null_value = none
deconstruct_caught expose_internal_error (caught e) =
    some (deconstruct_error expose_internal_error e)

-- `error.public` of an `ActorError`.
abbrev pub is_public_caught : Caught → Bool
is_public_caught null_value = false
is_public_caught (caught e) = is_public_error e
