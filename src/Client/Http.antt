-- ===== src/Client/Http.antt =====
-- `sendHttpRequest` of packages/rivetkit/src/client/utils.ts, and the requests of the driver in
-- client/http-client-driver.ts. `fetch` is an argument, on states `S` of the network.
pub mod Requests
pub mod Routes
pub mod Answers
pub mod Serving
use rivetkit.Base.{ℕ, Bool, true, false, not, Option, none, some, if◌then◌else◌, Text}
use rivetkit.Versioned.{Bytes}
use rivetkit.Serde
use rivetkit.Serde.{
  Encoding, json, cbor, bare, OutputData, bytes, Formats, SerdeError, serialize_with_encoding,
  deserialize_with_encoding, content_type_for_encoding,
}

pub data Method : Type 0 where
  get_method head_method post put delete_method : Method

-- The headers that the client sets.
pub record RequestHeaders : Type 0 where
  pub encoding : Option Text
  pub actor_query : Option Text
  pub conn_params : Option Text
  pub actor_id : Option Text
  pub conn_id : Option Text
  pub conn_token : Option Text
  pub content_type : Option Text
  pub user_agent : Option Text

pub record HttpRequest : Type 0 where
  pub method : Method
  pub url : Text
  pub headers : RequestHeaders
  pub body : Option OutputData

-- A `Response`, with its body read.
pub record HttpResponse : Type 0 where
  pub status : ℕ
  pub status_text : Text
  pub is_ok : Bool
  pub body : Bytes

-- What a call of `fetch` comes to.
pub data Fetched : Type 0 where
  responds : HttpResponse → Fetched
  fails : Text → Fetched

-- `HttpResponseError`
pub record HttpResponseError : Type 0 where
  pub code : Text
  pub message : Text
  pub metadata : Option Bytes

-- What is thrown: the three uses of `HttpRequestError`, the errors of client/errors.ts, and what
-- the invariant and CBOR throw.
pub data ClientError (V : Type 0) : Type 0 where
  request_failed : Text → ClientError V
  unstructured : Text → ℕ → Bytes → ClientError V
  unparsed : SerdeError → ClientError V
  -- the code, the message and the metadata
  actor_error : Text → Text → Option V → ClientError V
  internal_error : ClientError V
  invariant_violation : ClientError V
  cbor_throws : ClientError V
  -- a property of `undefined`, and what `fetch` throws outside `sendHttpRequest`
  undefined_property : ClientError V
  fetch_throws : Text → ClientError V

pub data Outcome (V A : Type 0) : Type 0 where
  ok : A → Outcome V A
  err : ClientError V → Outcome V A

abbrev pub and_then :
    {S V A B : Type 0} → S × Outcome V A → (A → S → S × Outcome V B) → S × Outcome V B
and_then (s, ok a) f = f a s
and_then (s, err e) f = (s, err e)

-- `HttpRequestOpts`, less what is the same for all calls.
pub record HttpRequestOpts (Req : Type 0) : Type 0 where
  pub method : Method
  pub url : Text
  pub headers : RequestHeaders
  pub body : Option Req
  pub encoding : Encoding
  pub skip_parse_response : Bool

abbrev pub has_body : Method → Bool
has_body post = true
has_body put = true
has_body get_method = false
has_body head_method = false
has_body delete_method = false

-- `fetch`, `httpUserAgent()`, `cbor.decode` and the formats of errors.
pub record Platform (S V : Type 0) : Type 0 where
  pub fetch : HttpRequest → S → S × Fetched
  pub user_agent : Text
  pub decode_value : Bytes → Option V
  pub error_formats : Formats HttpResponseError

module _ {S V : Type 0} (platform : Platform S V) where
  -- The branch of a response that is not `ok`.
  unfoldable pub response_error : Encoding → HttpResponse → ClientError V
  response_error encoding response =
      elim (deserialize_with_encoding platform.error_formats encoding (bytes response.body)) [
        | Serde.err e ↦ unstructured response.status_text response.status response.body
        | Serde.ok error ↦ elim error.metadata [
          | none ↦ actor_error error.code error.message none
          | some b ↦ elim (platform.decode_value b) [
            | none ↦ cbor_throws
            | some v ↦ actor_error error.code error.message (some v)
          ]
        ]
      ]

  module _ {Req Resp : Type 0} (request_formats : Formats Req)
      (response_formats : Formats Resp) where
    -- The request that is sent, with the body and the type of its content where there is a body.
    unfoldable pub http_request : HttpRequestOpts Req → Option Req → HttpRequest
    http_request opts body = record {
      method = opts.method;
      url = opts.url;
      headers = record (opts.headers) {
        content_type = elim body [
          | none ↦ opts.headers.content_type
          | some b ↦ some (content_type_for_encoding opts.encoding)
        ];
        user_agent = some platform.user_agent;
      };
      body = elim body [
        | none ↦ none
        | some b ↦ some (serialize_with_encoding request_formats opts.encoding b)
      ];
    }

    -- Behind the request: `none` is `undefined`.
    unfoldable pub read_response : HttpRequestOpts Req → Fetched → Outcome V (Option Resp)
    unfolding response_error
    read_response opts (fails message) = err (request_failed message)
    read_response opts (responds response) =
        if not response.is_ok
        then err (response_error opts.encoding response)
        else if opts.skip_parse_response
        then ok none
        else elim (deserialize_with_encoding response_formats opts.encoding (bytes response.body)) [
          | Serde.err e ↦ err (unparsed e)
          | Serde.ok r ↦ ok (some r)
        ]

    abbrev fetch_and_read : HttpRequestOpts Req → Option Req → S → S × Outcome V (Option Resp)
    fetch_and_read opts body s =
        let (t, fetched) = platform.fetch (http_request opts body) s in
        (t, read_response opts fetched)

    -- `sendHttpRequest`
    unfoldable pub send_http_request : HttpRequestOpts Req → S → S × Outcome V (Option Resp)
    unfolding http_request read_response
    send_http_request opts s =
        if has_body opts.method
        then elim opts.body [
          | none ↦ (s, err invariant_violation)
          | some b ↦ fetch_and_read opts (some b) s
        ]
        else fetch_and_read opts none s
