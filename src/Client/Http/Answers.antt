-- ===== src/Client/Http/Answers.antt =====
-- The answers of the manager: `handleRouteError` of packages/rivetkit/src/common/router.ts and the
-- end of `handleResolveRequest` of manager/router.ts, and what the client makes of them.
use rivetkit.Base.{
  ℕ, ◌≤◌, Bool, true, false, ◌∙◌, ◌&&◌, ◌≡◌, refl, ap, Option, some, [], leb, if◌then◌else◌, Text,
  codes, text_eq, arith, lt→leb_false,
}
use rivetkit.Versioned.{Bytes}
use rivetkit.Serde
use rivetkit.Serde.{
  Encoding, json, cbor, bare, encoding_is_binary, OutputData, text, bytes, Formats,
  serialize_with_encoding, deserialize_with_encoding,
}
use rivetkit.Serde.Laws.{ReadsBack, deserialize-serialize_with_encoding}
use rivetkit.Errors.{Metadata, Thrown, deconstruct_error}
use rivetkit.Manager
use rivetkit.Manager.{Headers, get_request_encoding}
use rivetkit.Client.Http.{
  HttpResponse, HttpResponseError, responds, actor_error, ok, err, HttpRequestOpts, Platform,
  response_error, read_response,
}

-- The encoding of a name that the schema accepts.
abbrev pub encoding_of : Text → Encoding
encoding_of t =
    if text_eq t (codes "cbor") then cbor else if text_eq t (codes "bare") then bare else json

-- The body of a response as bytes, a string in UTF-8.
abbrev pub body_bytes : (Text → Bytes) → OutputData → Bytes
body_bytes utf8 (text t) = utf8 t
body_bytes utf8 (bytes b) = b

-- `c.body(output, { status })`
abbrev pub respond : (Text → Bytes) → ℕ → OutputData → HttpResponse
respond utf8 status output = record {
  status = status;
  status_text = [];
  is_ok = leb 200 status && leb status 299;
  body = body_bytes utf8 output;
}

-- The server's side: UTF-8, the formats of errors and the CBOR of their metadata.
pub record ServerFormats : Type 0 where
  pub utf8 : Text → Bytes
  pub error_formats : Formats HttpResponseError
  pub encode_metadata : Option Metadata → Bytes

module _ (server : ServerFormats) where
  -- The encoding of the answer to an error: that of the request, if it has a valid one.
  abbrev pub answer_encoding : Headers → Encoding
  answer_encoding h = elim (get_request_encoding h) [
    | Manager.ok t ↦ encoding_of t
    | Manager.err e ↦ json
  ]

  -- The body of `handleRouteError`.
  abbrev pub error_body : Bool → Thrown → HttpResponseError
  error_body expose error =
      let e = deconstruct_error expose error in
      record {
        code = e.code;
        message = e.message;
        metadata = some (server.encode_metadata e.metadata);
      }

  -- `handleRouteError`
  unfoldable pub handle_route_error : Bool → Thrown → Headers → HttpResponse
  unfolding deconstruct_error serialize_with_encoding
  handle_route_error expose error h =
      respond server.utf8 (deconstruct_error expose error).status_code
        (serialize_with_encoding server.error_formats (answer_encoding h) (error_body expose error))

  -- The answer with a value, as `c.body(serialized)` gives it.
  unfoldable pub answer : {A : Type 0} → Formats A → Encoding → A → HttpResponse
  unfolding serialize_with_encoding
  answer formats encoding a = respond server.utf8 200 (serialize_with_encoding formats encoding a)

body_bytes-serialize_with_encoding :
    {A : Type 0} (utf8 : Text → Bytes) (formats : Formats A) (e : Encoding) (a : A)
    → encoding_is_binary e ≡ true
    → bytes (body_bytes utf8 (serialize_with_encoding formats e a))
      ≡ serialize_with_encoding formats e a
unfolding serialize_with_encoding encoding_is_binary
body_bytes-serialize_with_encoding utf8 formats json a h = absurd (ground (arith, h))
body_bytes-serialize_with_encoding utf8 formats cbor a h = refl
body_bytes-serialize_with_encoding utf8 formats bare a h = refl

deserialize_body :
    {A : Type 0} (utf8 : Text → Bytes) (formats : Formats A) (e : Encoding) (a : A)
    → encoding_is_binary e ≡ true
    → ReadsBack formats a
    → deserialize_with_encoding formats e
        (bytes (body_bytes utf8 (serialize_with_encoding formats e a)))
      ≡ Serde.ok a
deserialize_body utf8 formats e a h r =
    ap (deserialize_with_encoding formats e) (body_bytes-serialize_with_encoding utf8 formats e a h)
    ∙ deserialize-serialize_with_encoding formats e a h r

module _ {S V : Type 0} (platform : Platform S V) (server : ServerFormats) where
  structured :
      (encoding : Encoding) (response : HttpResponse) (code message : Text) (b : Bytes) (v : V)
      → deserialize_with_encoding platform.error_formats encoding (bytes response.body)
        ≡ Serde.ok (record { code = code; message = message; metadata = some b })
      → platform.decode_value b ≡ some v
      → response_error platform encoding response ≡ actor_error code message (some v)
  unfolding response_error
  structured encoding response code message b v h k = rw (h, response_error) (rw k refl)

  module _ {Req Resp : Type 0} (request_formats : Formats Req) (response_formats : Formats Resp)
      (opts : HttpRequestOpts Req) where
    -- In a binary encoding, an answer of a value is read as that value.
    pub read_response-answer :
        (a : Resp)
        → opts.skip_parse_response ≡ false
        → encoding_is_binary opts.encoding ≡ true
        → ReadsBack response_formats a
        → read_response platform request_formats response_formats opts
            (responds (answer server response_formats opts.encoding a))
          ≡ ok (some a)
    unfolding read_response answer
    read_response-answer a h u r =
        rw (h, deserialize_body server.utf8 response_formats opts.encoding a u r) refl

    -- In a binary encoding, an answer to an error, with the status of a failed request, is read as an error of its code, its message and its
    -- metadata.
    pub read_response-handle_route_error :
        (x : Thrown) (expose : Bool) (h : Headers) (v : V)
        → let e = deconstruct_error expose x in
          (300 ≤ e.status_code)
          → answer_encoding server h ≡ opts.encoding
          → encoding_is_binary opts.encoding ≡ true
          → ReadsBack server.error_formats (error_body server expose x)
          → platform.error_formats ≡ server.error_formats
          → platform.decode_value (server.encode_metadata e.metadata) ≡ some v
          → read_response platform request_formats response_formats opts
              (responds (handle_route_error server expose x h))
            ≡ err (actor_error e.code e.message (some v))
    unfolding read_response handle_route_error response_error
    read_response-handle_route_error x expose h v failed same u r agree decodes =
        let e = deconstruct_error expose x in
        let late : leb e.status_code 299 ≡ false = lt→leb_false e.status_code 299 (omega arith) in
        let not_ok : (leb 200 e.status_code && leb e.status_code 299) ≡ false =
          ground (arith, late) in
        let reads : deserialize_with_encoding platform.error_formats opts.encoding (
              bytes (
                body_bytes server.utf8 (
                  serialize_with_encoding server.error_formats opts.encoding
                    (error_body server expose x))))
            ≡ Serde.ok (error_body server expose x) =
          rw agree (
            deserialize_body server.utf8 server.error_formats opts.encoding
              (error_body server expose x) u r) in
        let response : HttpResponse = record {
          status = e.status_code;
          status_text = [];
          is_ok = false;
          body = body_bytes server.utf8 (
              serialize_with_encoding server.error_formats opts.encoding
                (error_body server expose x));
        } in
        rw (not_ok, same)
          (ap err (
            structured opts.encoding response e.code e.message (server.encode_metadata e.metadata) v
              reads decodes))
