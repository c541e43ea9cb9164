-- ===== src/Serde.antt =====
-- The encodings of messages: packages/rivetkit/src/serde.ts, actor/protocol/serde.ts and
-- `parseMessage` of actor/protocol/old.ts. `JSON`, CBOR, text decoding and base64 are arguments;
-- the versioned handlers are those of Versioned.
pub mod Laws
pub mod Cached
pub mod Messages
use rivetkit.Base.{
  ℕ, ◌%◌, Bool, true, false, ◌&&◌, Option, none, some, List, map, ltb, if◌then◌else◌, length, Text,
  codes,
}
use rivetkit.Versioned.{
  Bytes, Config, VersionError, serialize_with_embedded_version, deserialize_with_embedded_version,
}
use rivetkit.Versioned

-- `Encoding`
pub data Encoding : Type 0 where
  json cbor bare : Encoding

-- `OutputData`
pub data OutputData : Type 0 where
  text : Text → OutputData
  bytes : Bytes → OutputData

-- `InputData`; a `Buffer` is a `Uint8Array`.
pub data InputData : Type 0 where
  input_text : Text → InputData
  blob : Bytes → InputData
  array_buffer : Bytes → InputData
  shared_array_buffer : Bytes → InputData
  uint8_array : Bytes → InputData

pub data SerdeError : Type 0 where
  -- `JSON.parse` or `cbor.decode` throws.
  syntax_error cbor_error : SerdeError
  version_error : VersionError → SerdeError
  -- A string where bytes are due.
  invariant_violation : SerdeError
  message_too_long : SerdeError
  -- `atob` throws, and an event that is no string.
  invalid_base64 not_a_string : SerdeError

pub data Result (A : Type 0) : Type 0 where
  ok : A → Result A
  err : SerdeError → Result A

-- The formats of the values of a type: `JSON.stringify` with the replacer for big integers,
-- `JSON.parse`, the UTF-8 decoder, CBOR and the versioned handler.
pub record Formats (T : Type 0) : Type 0 where
  pub stringify : T → Text
  pub parse : Text → Option T
  pub decode_utf8 : Bytes → Text
  pub encode : T → Bytes
  pub decode : Bytes → Option T
  pub versioned : Config T

abbrev pub or_throw : {A : Type 0} → SerdeError → Option A → Result A
or_throw e none = err e
or_throw e (some a) = ok a

abbrev pub of_version : {A : Type 0} → Versioned.Result A → Result A
of_version (Versioned.ok a) = ok a
of_version (Versioned.err e) = err (version_error e)

-- `encodingIsBinary`
unfoldable pub encoding_is_binary : Encoding → Bool
encoding_is_binary json = false
encoding_is_binary cbor = true
encoding_is_binary bare = true

-- `contentTypeForEncoding`
unfoldable pub content_type_for_encoding : Encoding → Text
content_type_for_encoding json = codes "application/json"
content_type_for_encoding cbor = codes "application/octet-stream"
content_type_for_encoding bare = codes "application/octet-stream"

-- `getValueLength`
unfoldable pub get_value_length : InputData → ℕ
get_value_length (input_text t) = length t
get_value_length (blob b) = length b
get_value_length (array_buffer b) = length b
get_value_length (shared_array_buffer b) = length b
get_value_length (uint8_array b) = length b

-- `inputDataToBuffer`
unfoldable pub input_data_to_buffer : InputData → OutputData
input_data_to_buffer (input_text t) = text t
input_data_to_buffer (blob b) = bytes b
input_data_to_buffer (array_buffer b) = bytes b
input_data_to_buffer (shared_array_buffer b) = bytes b
input_data_to_buffer (uint8_array b) = bytes b

module _ {T : Type 0} (formats : Formats T) where
  -- `serializeWithEncoding`
  unfoldable pub serialize_with_encoding : Encoding → T → OutputData
  serialize_with_encoding json v = text (formats.stringify v)
  serialize_with_encoding cbor v = bytes (formats.encode v)
  serialize_with_encoding bare v = bytes (serialize_with_embedded_version formats.versioned v)

  -- `deserializeWithEncoding`
  unfoldable pub deserialize_with_encoding : Encoding → OutputData → Result T
  deserialize_with_encoding json (text t) = or_throw syntax_error (formats.parse t)
  deserialize_with_encoding json (bytes b) =
      or_throw syntax_error (formats.parse (formats.decode_utf8 b))
  deserialize_with_encoding cbor (text t) = err invariant_violation
  deserialize_with_encoding cbor (bytes b) = or_throw cbor_error (formats.decode b)
  deserialize_with_encoding bare (text t) = err invariant_violation
  deserialize_with_encoding bare (bytes b) =
      of_version (deserialize_with_embedded_version formats.versioned b)

  -- `parseMessage`
  unfoldable pub parse_message : ℕ → Encoding → InputData → Result T
  unfolding get_value_length input_data_to_buffer deserialize_with_encoding
  parse_message max_incoming_message_size encoding value =
      if ltb max_incoming_message_size (get_value_length value)
      then err message_too_long
      else deserialize_with_encoding encoding (input_data_to_buffer value)

-- The message of an event stream: `encodeDataToString`, with `btoa`. The loop of
-- `base64EncodeUint8Array` makes a string of the bytes as its code units.
unfoldable pub encode_data_to_string : (Text → Text) → OutputData → Text
encode_data_to_string btoa (text t) = t
encode_data_to_string btoa (bytes b) = btoa b

-- `#parseMessage` of the client's connection, whose transport is there, with `atob`, which may
-- throw. The code units that `charCodeAt` reads are taken modulo 256 by the array.
module _ {T : Type 0} (formats : Formats T) (atob : Text → Option Text) where
  unfoldable pub parse_client_message : Encoding → Bool → InputData → Result T
  unfolding encoding_is_binary input_data_to_buffer deserialize_with_encoding
  parse_client_message encoding is_sse data_received =
      if encoding_is_binary encoding && is_sse
      then elim data_received [
        | input_text t ↦ elim (atob t) [
          | none ↦ err invalid_base64
          | some binary ↦
              deserialize_with_encoding formats encoding (bytes (map (λ c. c % 256) binary))
        ]
        | blob b ↦ err not_a_string
        | array_buffer b ↦ err not_a_string
        | shared_array_buffer b ↦ err not_a_string
        | uint8_array b ↦ err not_a_string
      ]
      else deserialize_with_encoding formats encoding (input_data_to_buffer data_received)
