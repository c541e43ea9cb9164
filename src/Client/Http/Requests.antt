-- ===== src/Client/Http/Requests.antt =====
-- The driver of packages/rivetkit/src/client/http-client-driver.ts: its requests to the manager.
-- `JSON.stringify`, CBOR and `encodeURIComponent` are arguments.
use rivetkit.Base.{
  Bool, false, Option, none, some, List, [], ◌∷◌, ◌++◌, ◌==◌, if◌then◌else◌, Text, codes,
}
use rivetkit.Versioned.{Bytes}
use rivetkit.Serde.{
  Encoding, json, cbor, bare, Formats, serialize_with_encoding, encoding_is_binary,
}
use rivetkit.Manager.{ActorQuery}
use rivetkit.Manager.Subprotocols.{client_protocols, strip_prefix}
use rivetkit.Client.Http.{
  post, RequestHeaders, HttpRequest, HttpResponse, responds, fails, actor_error, internal_error,
  cbor_throws, undefined_property, fetch_throws, Outcome, ok, err, and_then, HttpRequestOpts,
  Platform, send_http_request,
}

-- The manager's endpoint and what the driver calls; `Message` is `protocol.ToServer`.
pub record Browser (V Message : Type 0) : Type 0 where
  pub manager_endpoint : Text
  pub stringify_query : ActorQuery V → Text
  pub stringify : V → Text
  pub is_truthy : V → Bool
  pub encode_uri_component : Text → Text
  pub encode_value : V → Bytes
  -- `HTTP_ACTION_REQUEST_VERSIONED` and the handlers beside it, for the fields that there are.
  pub action_request : Formats Bytes
  pub action_response : Formats Bytes
  pub resolve_request : Formats Unit
  pub resolve_response : Formats Text
  pub to_server : Formats Message

abbrev pub encoding_text : Encoding → Text
encoding_text json = codes "json"
encoding_text cbor = codes "cbor"
encoding_text bare = codes "bare"

abbrev pub no_headers : RequestHeaders
no_headers = record {
  encoding = none;
  actor_query = none;
  conn_params = none;
  actor_id = none;
  conn_id = none;
  conn_token = none;
  content_type = none;
  user_agent = none;
}

-- `path.startsWith("/") ? path.slice(1) : path`
abbrev pub normalized_path : Text → Text
normalized_path [] = []
normalized_path (c ∷ path) = if c == 47 then path else c ∷ path

-- One `replace` of a prefix.
abbrev replace_prefix : Text → Text → Text → Text
replace_prefix from to t = elim (strip_prefix from t) [ none ↦ t | some rest ↦ to ++ rest ]

-- `managerEndpoint.replace(/^http:/, "ws:").replace(/^https:/, "wss:")`
unfoldable pub ws_endpoint : Text → Text
ws_endpoint t =
    replace_prefix (codes "https:") (codes "wss:") (replace_prefix (codes "http:") (codes "ws:") t)

-- The arguments of `new WebSocket`, and its binary type: `true` for array buffers.
pub record Opening : Type 0 where
  pub url : Text
  pub protocols : List Text
  pub binary_type : Option Bool

-- The `catch` of `resolveActorId`.
abbrev pub as_internal_error : {S V A : Type 0} → S × Outcome V A → S × Outcome V A
as_internal_error (s, ok a) = (s, ok a)
as_internal_error (s, err (actor_error code message metadata)) =
    (s, err (actor_error code message metadata))
as_internal_error (s, err _) = (s, err internal_error)

module _ {S V Message : Type 0} (platform : Platform S V) (browser : Browser V Message) where
  -- The headers that say which actor, in which encoding and with which parameters.
  unfoldable pub actor_headers : ActorQuery V → Encoding → Option V → RequestHeaders
  actor_headers query encoding params = record no_headers {
    encoding = some (encoding_text encoding);
    actor_query = some (browser.stringify_query query);
    conn_params = elim params [ none ↦ none | some p ↦ some (browser.stringify p) ];
  }

  unfoldable pub action_opts : ActorQuery V → Encoding → Option V → Text → V → HttpRequestOpts Bytes
  unfolding actor_headers
  action_opts query encoding params name args = record {
    method = post;
    url =
        browser.manager_endpoint
        ++ codes "/registry/actors/actions/"
        ++ browser.encode_uri_component name;
    headers = actor_headers query encoding params;
    body = some (browser.encode_value args);
    encoding = encoding;
    skip_parse_response = false;
  }

  -- `action`
  unfoldable pub action : ActorQuery V → Encoding → Option V → Text → V → S → S × Outcome V V
  unfolding action_opts send_http_request
  action query encoding params name args s =
      and_then
        (send_http_request platform browser.action_request browser.action_response
          (action_opts query encoding params name args) s)
        (λ response t. elim response [
          | none ↦ (t, err undefined_property)
          | some output ↦ elim (platform.decode_value output) [
            | none ↦ (t, err cbor_throws)
            | some v ↦ (t, ok v)
          ]
        ])

  unfoldable pub resolve_opts : ActorQuery V → Encoding → Option V → HttpRequestOpts Unit
  unfolding actor_headers
  resolve_opts query encoding params = record {
    method = post;
    url = browser.manager_endpoint ++ codes "/registry/actors/resolve";
    headers = actor_headers query encoding params;
    body = some tt;
    encoding = encoding;
    skip_parse_response = false;
  }

  -- `resolveActorId`
  unfoldable pub resolve_actor_id : ActorQuery V → Encoding → Option V → S → S × Outcome V Text
  unfolding resolve_opts send_http_request
  resolve_actor_id query encoding params s = as_internal_error (
      and_then
        (send_http_request platform browser.resolve_request browser.resolve_response
          (resolve_opts query encoding params) s)
        (λ response t. elim response [ none ↦ (t, err undefined_property) | some id ↦ (t, ok id) ]))

  -- The parameters of a subprotocol, where they are truthy.
  abbrev pub truthy_params : Option V → Option Text
  truthy_params none = none
  truthy_params (some p) = if browser.is_truthy p then some (browser.stringify p) else none

  -- `connectWebSocket`
  unfoldable pub connect_web_socket : ActorQuery V → Encoding → Option V → Opening
  unfolding ws_endpoint client_protocols encoding_is_binary
  connect_web_socket query encoding params = record {
    url = ws_endpoint browser.manager_endpoint ++ codes "/registry/actors/connect/websocket";
    protocols =
        client_protocols browser.encode_uri_component (browser.stringify_query query)
          (encoding_text encoding) (truthy_params params) [];
    binary_type = some (encoding_is_binary encoding);
  }

  -- `rawWebSocket`
  unfoldable pub raw_web_socket : ActorQuery V → Encoding → Option V → Text → List Text → Opening
  unfolding ws_endpoint client_protocols
  raw_web_socket query encoding params path protocols = record {
    url =
        ws_endpoint browser.manager_endpoint
        ++ codes "/registry/actors/raw/websocket/"
        ++ normalized_path path;
    protocols =
        client_protocols browser.encode_uri_component (browser.stringify_query query)
          (encoding_text encoding) (truthy_params params) protocols;
    binary_type = none;
  }

  -- `connectSse`: the address and the headers that its `fetch` sets.
  unfoldable pub connect_sse : ActorQuery V → Encoding → Option V → Text × RequestHeaders
  unfolding actor_headers
  connect_sse query encoding params = (
    browser.manager_endpoint ++ codes "/registry/actors/connect/sse",
    record (actor_headers query encoding params) { user_agent = some platform.user_agent },
  )

  -- A call of `fetch` outside `sendHttpRequest`.
  abbrev fetch_response : HttpRequest → S → S × Outcome V HttpResponse
  fetch_response request s =
      let (t, fetched) = platform.fetch request s in
      elim fetched [
        | fails message ↦ (t, err (fetch_throws message))
        | responds response ↦ (t, ok response)
      ]

  -- `sendHttpMessage`
  unfoldable pub send_http_message :
      Text → Encoding → Text → Text → Message → S → S × Outcome V Unit
  unfolding serialize_with_encoding
  send_http_message actor_id encoding conn_id conn_token message s =
      and_then
        (fetch_response
          (record {
            method = post;
            url = browser.manager_endpoint ++ codes "/registry/actors/message";
            headers = record no_headers {
              user_agent = some platform.user_agent;
              encoding = some (encoding_text encoding);
              actor_id = some actor_id;
              conn_id = some conn_id;
              conn_token = some conn_token;
            };
            body = some (serialize_with_encoding browser.to_server encoding message);
          })
          s)
        (λ response t. if response.is_ok then (t, ok tt) else (t, err internal_error))

  -- The request that `rawHttpRequest` sends; `init` is the user's, whose headers stay unless the
  -- driver sets them.
  unfoldable pub raw_request : ActorQuery V → Encoding → Option V → Text → HttpRequest → HttpRequest
  raw_request query encoding params path init = record init {
    url = browser.manager_endpoint ++ codes "/registry/actors/raw/http/" ++ normalized_path path;
    headers = record (init.headers) {
      user_agent = some platform.user_agent;
      actor_query = some (browser.stringify_query query);
      encoding = some (encoding_text encoding);
      conn_params = elim params [
        | none ↦ init.headers.conn_params
        | some p ↦ some (browser.stringify p)
      ];
    };
  }

  -- `rawHttpRequest`
  unfoldable pub raw_http_request :
      ActorQuery V → Encoding → Option V → Text → HttpRequest → S → S × Outcome V HttpResponse
  unfolding raw_request
  raw_http_request query encoding params path init s =
      fetch_response (raw_request query encoding params path init) s
