-- ===== src/Serde/Messages.antt =====
-- Messages from one side to the other: `parseMessage` of the actor and `#parseMessage` of the
-- client.
use rivetkit.Base.{
  ℕ, ◌%◌, ◌<◌, ◌≡◌, refl, ◌∙◌, true, false, Option, some, [], ◌∷◌, map, ltb, if◌then◌else◌, length,
  Text, All, arith,
}
use rivetkit.Versioned.{Bytes, serialize_with_embedded_version}
use rivetkit.Serde.{
  Encoding, json, cbor, bare, OutputData, text, bytes, InputData, input_text, uint8_array, blob, ok,
  err, message_too_long, Formats, serialize_with_encoding, deserialize_with_encoding, parse_message,
  get_value_length, encode_data_to_string, parse_client_message, encoding_is_binary,
  input_data_to_buffer,
}
use rivetkit.Serde.Laws.{ReadsBack, deserialize-serialize_with_encoding}

-- Serialized data, as the platform hands it to the receiver of a socket: text stays text, and
-- bytes come in any of the binary types.
pub data Arrives : OutputData → InputData → Type 0 where
  as_text : {t : Text} → Arrives (text t) (input_text t)
  as_blob : {b : Bytes} → Arrives (bytes b) (blob b)
  as_bytes : {b : Bytes} → Arrives (bytes b) (uint8_array b)

-- The length of data: code units of a string, and bytes.
abbrev pub output_length : OutputData → ℕ
output_length (text t) = length t
output_length (bytes b) = length b

Arrives-buffer : {o : OutputData} {i : InputData} → Arrives o i → input_data_to_buffer i ≡ o
unfolding input_data_to_buffer
Arrives-buffer as_text = refl
Arrives-buffer as_blob = refl
Arrives-buffer as_bytes = refl

Arrives-length :
    {o : OutputData} {i : InputData} → Arrives o i → get_value_length i ≡ output_length o
unfolding get_value_length
Arrives-length as_text = refl
Arrives-length as_blob = refl
Arrives-length as_bytes = refl

-- A message that is serialized in CBOR or BARE and arrives over a socket is parsed to itself, unless
-- its length is more than the limit, where it is refused as too long; the two formats read the
-- message back.
pub parse_message-serialize_with_encoding :
    {T : Type 0} (formats : Formats T) (max : ℕ) (e : Encoding) (v : T) (i : InputData)
    → encoding_is_binary e ≡ true
    → ReadsBack formats v
    → Arrives (serialize_with_encoding formats e v) i
    → parse_message formats max e i ≡ (
        if ltb max (output_length (serialize_with_encoding formats e v))
        then err message_too_long
        else ok v)
unfolding parse_message
parse_message-serialize_with_encoding formats max e v i b h a =
    rw (Arrives-length a, Arrives-buffer a, deserialize-serialize_with_encoding formats e v b h)
      refl

abbrev pub IsByte : ℕ → Type 0
IsByte c = c < 256

abbrev pub AreBytes : OutputData → Type 0
AreBytes (text t) = Unit
AreBytes (bytes b) = All IsByte b

map_mod : (b : Bytes) → All IsByte b → map (λ c. c % 256) b ≡ b
map_mod [] h = refl
map_mod (c ∷ b) (hc, hb) = let same : c % 256 ≡ c = omega arith in rw (same, map_mod b hb) refl

-- The output is text exactly in JSON, where it goes over an event stream as it is.
module _ {T : Type 0} (formats : Formats T) (btoa : Text → Text) (atob : Text → Option Text)
    (reads : (t : Text) → All IsByte t → atob (btoa t) ≡ some t) where
  sse_event :
      (e : Encoding) (v : T)
      → AreBytes (serialize_with_encoding formats e v)
      → parse_client_message formats atob e true
          (input_text (encode_data_to_string btoa (serialize_with_encoding formats e v)))
        ≡ deserialize_with_encoding formats e (serialize_with_encoding formats e v)
  unfolding parse_client_message encode_data_to_string serialize_with_encoding encoding_is_binary
      input_data_to_buffer
  sse_event json v h = refl
  sse_event cbor v h = rw (reads (formats.encode v) h, map_mod (formats.encode v) h) refl
  sse_event bare v h =
      let b : Bytes = serialize_with_embedded_version formats.versioned v in
      rw (reads b h, map_mod b h) refl

  socket_event :
      (e : Encoding) (v : T) (i : InputData)
      → Arrives (serialize_with_encoding formats e v) i
      → parse_client_message formats atob e false i
        ≡ deserialize_with_encoding formats e (serialize_with_encoding formats e v)
  unfolding parse_client_message encoding_is_binary
  socket_event json v i a = rw (Arrives-buffer a) refl
  socket_event cbor v i a = rw (Arrives-buffer a) refl
  socket_event bare v i a = rw (Arrives-buffer a) refl

  -- A message that the actor serializes in CBOR or BARE is what the client's connection parses, from
  -- the event of an event stream and from the message of a socket; the two formats read it back, its
  -- bytes are below 256, and `atob` undoes `btoa` on such bytes.
  pub parse_client_message-serialize_with_encoding :
      (e : Encoding) (v : T) (i : InputData)
      → encoding_is_binary e ≡ true
      → ReadsBack formats v
      → AreBytes (serialize_with_encoding formats e v)
      → Arrives (serialize_with_encoding formats e v) i
      → (parse_client_message formats atob e true
            (input_text (encode_data_to_string btoa (serialize_with_encoding formats e v)))
          ≡ ok v)
        × (parse_client_message formats atob e false i ≡ ok v)
  parse_client_message-serialize_with_encoding e v i k h b a = (
    sse_event e v b ∙ deserialize-serialize_with_encoding formats e v k h,
    socket_event e v i a ∙ deserialize-serialize_with_encoding formats e v k h,
  )
