-- ===== src/Tests/Encodings.antt =====
-- The encodings of messages: packages/rivetkit/src/serde.ts with actor/protocol/serde.ts and
-- actor/protocol/old.ts.
use rivetkit.Base.{
  ℕ, ◌≤◌, ◌≡◌, refl, true, false, Option, none, some, List, [], ◌∷◌, map, ltb, if◌then◌else◌, Text,
  arith,
}
use rivetkit.Versioned
use rivetkit.Versioned.{Bytes, Config}
use rivetkit.Serde.{
  Encoding, json, cbor, bare, bytes, input_text, uint8_array, ok, err, message_too_long, Formats,
  encoding_is_binary, serialize_with_encoding, parse_message, parse_client_message,
  encode_data_to_string,
}
use rivetkit.Serde.Laws.{ReadsBack}
use rivetkit.Serde.Cached.{
  new_cached, serialize, serialize_all, times, is_truthy, serialize_all_lem,
}
use rivetkit.Serde.Messages.{
  AreBytes, Arrives, as_bytes, output_length, parse_message-serialize_with_encoding,
  parse_client_message-serialize_with_encoding,
}

-- Values are numbers below 256, each one byte or one code unit.
abbrev first : List ℕ → Option ℕ
first [] = none
first (b ∷ bs) = some b

abbrev read_byte : Bytes → Versioned.Result ℕ
read_byte [] = Versioned.err Versioned.malformed
read_byte (b ∷ bs) = Versioned.ok b

abbrev formats : Formats ℕ
formats = record {
  stringify = λ v. v ∷ [];
  parse = first;
  decode_utf8 = λ b. b;
  encode = λ v. v ∷ [];
  decode = first;
  versioned = record {
    current_version = 1;
    migrations = λ v. none;
    serialize_version = λ v. v ∷ [];
    deserialize_version = read_byte;
  };
}

seven_reads : ReadsBack formats 7
seven_reads = record { cbor_reads = refl; version_fits = omega arith; bare_reads = refl }

bare_run : serialize_with_encoding formats bare 7 ≡ bytes (1 ∷ 0 ∷ 0 ∷ 0 ∷ 7 ∷ [])
unfolding serialize_with_encoding Versioned.serialize_with_embedded_version
bare_run = refl

-- Two connections in one encoding and one in another: two are serialized.
serializations_run :
    (serialize_all formats (cbor ∷ json ∷ cbor ∷ []) (new_cached formats 7)).0.serializations
    ≡ json ∷ cbor ∷ []
unfolding serialize_all serialize new_cached serialize_with_encoding
serializations_run = refl

too_long_run : parse_message formats 0 json (input_text (7 ∷ [])) ≡ err message_too_long
unfolding parse_message
too_long_run = refl

serialize_all_lem_example :
    let (left, outputs) = serialize_all formats (cbor ∷ json ∷ cbor ∷ []) (new_cached formats 7) in
    (outputs ≡ map (λ e. serialize_with_encoding formats e 7) (cbor ∷ json ∷ cbor ∷ []))
    × ((x : Encoding)
        → is_truthy (serialize_with_encoding formats x 7) ≡ true
        → times formats x left.serializations ≤ 1)
serialize_all_lem_example = serialize_all_lem formats 7 (cbor ∷ json ∷ cbor ∷ [])

bare_is_binary : encoding_is_binary bare ≡ true
unfolding encoding_is_binary
bare_is_binary = refl

Arrives-bytes :
    Arrives (serialize_with_encoding formats bare 7) (uint8_array (1 ∷ 0 ∷ 0 ∷ 0 ∷ 7 ∷ []))
unfolding serialize_with_encoding Versioned.serialize_with_embedded_version
Arrives-bytes = as_bytes

parse_message-serialize_with_encoding_example :
    parse_message formats 65536 bare (uint8_array (1 ∷ 0 ∷ 0 ∷ 0 ∷ 7 ∷ [])) ≡ (
      if ltb 65536 (output_length (serialize_with_encoding formats bare 7))
      then err message_too_long
      else ok 7)
parse_message-serialize_with_encoding_example =
    parse_message-serialize_with_encoding formats 65536 bare 7
      (uint8_array (1 ∷ 0 ∷ 0 ∷ 0 ∷ 7 ∷ [])) bare_is_binary seven_reads Arrives-bytes

-- Stand-ins for base64 that put a mark in front.
abbrev btoa : Text → Text
btoa t = 61 ∷ t

abbrev atob : Text → Option Text
atob [] = none
atob (c ∷ t) = some t

bare_bytes : AreBytes (serialize_with_encoding formats bare 7)
unfolding serialize_with_encoding Versioned.serialize_with_embedded_version
bare_bytes = (omega arith, (omega arith, (omega arith, (omega arith, (omega arith, tt)))))

parse_client_message-serialize_with_encoding_example :
    (parse_client_message formats atob bare true
        (input_text (encode_data_to_string btoa (serialize_with_encoding formats bare 7)))
      ≡ ok 7)
    × (parse_client_message formats atob bare false (uint8_array (1 ∷ 0 ∷ 0 ∷ 0 ∷ 7 ∷ [])) ≡ ok 7)
parse_client_message-serialize_with_encoding_example =
    parse_client_message-serialize_with_encoding formats btoa atob (λ t h. refl) bare 7
      (uint8_array (1 ∷ 0 ∷ 0 ∷ 0 ∷ 7 ∷ [])) bare_is_binary seven_reads bare_bytes Arrives-bytes
