-- ===== src/Manager/Router.antt =====
-- The handlers of the router: what they read of a request, and what they pass on to the actor.
use rivetkit.Base.{
  Bool, false, Option, none, some, List, [], ◌∷◌, ◌||◌, if◌then◌else◌, is_empty, Text, codes,
  text_eq,
}
use rivetkit.Manager.Query.{
  ActorQuery, AuthIntent, connect, action, ManagerError, thrown, invalid_encoding, invalid_request,
  invalid_query_json, invalid_params, syntax_error, proxy_error, Outcome, ok, err, ManagerDriver,
  Registry, and_then, authenticate_endpoint, query_actor,
}

-- JavaScript values: `JSON.parse`, which may throw, `JSON.stringify`, what counts as true, and a
-- string, `null` and `undefined` as values; and the schema `ActorQuerySchema` with the tests that
-- an unvalidated query passes through.
pub record Json (V : Type 0) : Type 0 where
  pub parse : Text → Option V
  pub stringify : V → Text
  pub is_truthy : V → Bool
  pub text : Text → V
  pub null : V
  pub undefined : V
  pub validate_query : V → Option (ActorQuery V)
  pub cast_query : V → Outcome (ActorQuery V)

-- The headers that the manager and the actor read.
pub record Headers : Type 0 where
  pub encoding : Option Text
  pub query : Option Text
  pub conn_params : Option Text
  pub auth_data : Option Text

-- The result of `parseWebSocketProtocols`.
pub record Protocols : Type 0 where
  pub query_raw : Option Text
  pub encoding_raw : Option Text
  pub conn_params_raw : Option Text

-- The request of `proxyRequest`.
pub record ProxyRequest : Type 0 where
  pub actor_id : Text
  pub headers : Headers

-- The arguments of `proxyWebSocket`.
pub record ProxyWebSocket (V : Type 0) : Type 0 where
  pub actor_id : Text
  pub encoding : Text
  pub conn_params : V
  pub auth_data : V

-- What a handler read: the query, the intents of its endpoint and the parameters that
-- authentication gets.
pub record Target (V : Type 0) : Type 0 where
  pub query : ActorQuery V
  pub intents : List AuthIntent
  pub params : V

abbrev pub bind : {A B : Type 0} → Outcome A → (A → Outcome B) → Outcome B
bind (ok a) f = f a
bind (err e) f = err e

-- A header or a part that is not empty.
abbrev pub non_empty : Option Text → Option Text
non_empty none = none
non_empty (some t) = if is_empty t then none else some t

-- `EncodingSchema`
abbrev pub is_encoding : Text → Bool
is_encoding t = text_eq t (codes "json") || text_eq t (codes "cbor") || text_eq t (codes "bare")

abbrev pub or_error : {A : Type 0} → ManagerError → Option A → Outcome A
or_error e none = err e
or_error e (some a) = ok a

-- `getRequestEncoding`
unfoldable pub get_request_encoding : Headers → Outcome Text
get_request_encoding h = elim (non_empty h.encoding) [
  | none ↦ err invalid_encoding
  | some t ↦ if is_encoding t then ok t else err invalid_encoding
]

-- The field `encoding` of the request schemas.
abbrev pub validate_encoding : Option Text → Outcome Text
validate_encoding none = err invalid_request
validate_encoding (some t) = if is_encoding t then ok t else err invalid_request

-- The `catch` of the handlers of actions and raw requests.
abbrev pub as_proxy_error : {S A : Type 0} → S × Outcome A → S × Outcome A
as_proxy_error (s, ok a) = (s, ok a)
as_proxy_error (s, err syntax_error) = (s, err proxy_error)
as_proxy_error (s, err (thrown false message)) = (s, err proxy_error)
as_proxy_error (s, err e) = (s, err e)

module _ {S V : Type 0} (json : Json V) (driver : ManagerDriver S V) (registry : Registry V) where
  -- `getRequestQuery`
  unfoldable pub get_request_query : Headers → Outcome V
  get_request_query h = elim (non_empty h.query) [
    | none ↦ err invalid_request
    | some t ↦ or_error invalid_query_json (json.parse t)
  ]

  -- The parameters that authentication reads.
  abbrev pub parse_conn_params : Option Text → Outcome V
  parse_conn_params t = elim (non_empty t) [
    | none ↦ ok json.undefined
    | some t ↦ or_error syntax_error (json.parse t)
  ]

  -- `authenticateEndpoint` and then `queryActor`: the actor's id and what `onAuth` returned.
  unfoldable pub authorize : ActorQuery V → List AuthIntent → V → S → S × Outcome (Text × V)
  authorize query intents params s =
      and_then (authenticate_endpoint driver registry query intents params s)
        (λ auth t. and_then (query_actor driver registry query t) (λ id u. (u, ok (id, auth))))

  -- The header of the authentication's data in a fresh request.
  abbrev pub auth_header : V → Option Text
  auth_header auth = if json.is_truthy auth then some (json.stringify auth) else none

  -- The fresh request of `handleSseConnectRequest` and `handleActionRequest`.
  abbrev pub fresh_request : Text → Headers → Text × V → ProxyRequest
  fresh_request encoding h (id, auth) = record {
    actor_id = id;
    headers = record {
      encoding = some encoding;
      query = none;
      conn_params = non_empty h.conn_params;
      auth_data = auth_header auth;
    };
  }

  -- Behind the reading: the actor is authorized, found and given to what passes the request on.
  unfoldable pub proceed :
      {A B : Type 0} → Outcome (A × Target V) → (A → Text × V → B) → S → S × Outcome B
  unfolding authorize
  proceed (err e) pass s = (s, err e)
  proceed (ok (a, target)) pass s =
      and_then (authorize target.query target.intents target.params s)
        (λ found t. (t, ok (pass a found)))

  -- `handleSseConnectRequest` up to the authentication.
  unfoldable pub read_sse_connect : Headers → Outcome (Text × Target V)
  unfolding get_request_encoding get_request_query
  read_sse_connect h = bind (get_request_encoding h) (λ encoding. bind (get_request_query h) (λ raw.
      bind (or_error invalid_request (json.validate_query raw)) (λ query.
        bind (parse_conn_params h.conn_params) (λ params.
          ok (encoding, record { query = query; intents = connect ∷ []; params = params })))))

  -- `handleSseConnectRequest`
  unfoldable pub handle_sse_connect_request : Headers → S → S × Outcome ProxyRequest
  unfolding proceed read_sse_connect
  handle_sse_connect_request h s =
      proceed (read_sse_connect h) (λ encoding found. fresh_request encoding h found) s

  -- `handleActionRequest` up to the authentication.
  unfoldable pub read_action : Headers → Outcome (Text × Target V)
  unfolding get_request_query
  read_action h = bind (get_request_query h) (λ raw.
      bind (or_error invalid_request (json.validate_query raw)) (λ query.
        bind (validate_encoding h.encoding) (λ encoding.
          bind (parse_conn_params h.conn_params) (λ params.
            ok (encoding, record { query = query; intents = action ∷ []; params = params })))))

  -- `handleActionRequest`
  unfoldable pub handle_action_request : Headers → S → S × Outcome ProxyRequest
  unfolding proceed read_action
  handle_action_request h s =
      as_proxy_error (proceed (read_action h) (λ encoding found. fresh_request encoding h found) s)

  -- `handleResolveRequest` up to the authentication.
  unfoldable pub read_resolve : Headers → Outcome (Text × Target V)
  unfolding get_request_encoding get_request_query
  read_resolve h = bind (get_request_encoding h) (λ encoding. bind (get_request_query h) (λ raw.
      bind (or_error invalid_request (json.validate_query raw)) (λ query.
        bind (parse_conn_params h.conn_params)
          (λ params. ok (encoding, record { query = query; intents = []; params = params })))))

  -- `handleResolveRequest`: the actor's id.
  unfoldable pub handle_resolve_request : Headers → S → S × Outcome Text
  unfolding proceed read_resolve
  handle_resolve_request h s = proceed (read_resolve h) (λ encoding found. found.0) s

  -- The headers of a raw request, those of the client with what the manager sets.
  abbrev pub raw_headers : Headers → V → V → Headers
  raw_headers h params auth = record h {
    conn_params = if json.is_truthy params then some (json.stringify params) else h.conn_params;
    auth_data = if json.is_truthy auth then some (json.stringify auth) else h.auth_data;
  }

  -- `handleRawHttpRequest` up to the authentication.
  unfoldable pub read_raw_http : Headers → Outcome (V × Target V)
  read_raw_http h = bind (or_error invalid_request (non_empty h.query)) (λ t.
      bind (or_error syntax_error (json.parse t)) (λ raw.
        bind (parse_conn_params h.conn_params) (λ params. bind (json.cast_query raw) (λ query.
          ok (params, record { query = query; intents = action ∷ []; params = params })))))

  -- `handleRawHttpRequest`
  unfoldable pub handle_raw_http_request : Headers → S → S × Outcome ProxyRequest
  unfolding proceed read_raw_http
  handle_raw_http_request h s = as_proxy_error (
      proceed (read_raw_http h)
        (λ params found. record { actor_id = found.0; headers = raw_headers h params found.1 }) s)

  -- `handleWebSocketConnectRequest` up to the authentication, where web sockets are enabled.
  unfoldable pub read_web_socket : Protocols → Outcome ((Text × V) × Target V)
  read_web_socket p =
      bind (or_error invalid_query_json (elim p.query_raw [ none ↦ none | some t ↦ json.parse t ]))
        (λ raw.
          bind
            (elim (non_empty p.conn_params_raw) [
              | none ↦ ok json.null
              | some t ↦ or_error invalid_params (json.parse t)
            ])
            (λ params. bind (or_error invalid_request (json.validate_query raw)) (λ query.
              bind (validate_encoding p.encoding_raw) (λ encoding. ok (
                (encoding, params),
                record {
                  query = query;
                  intents = connect ∷ [];
                  params = elim p.conn_params_raw [ none ↦ json.undefined | some t ↦ json.text t ];
                },
              )))))

  -- `handleWebSocketConnectRequest`, where web sockets are enabled.
  unfoldable pub handle_web_socket_connect_request : Protocols → S → S × Outcome (ProxyWebSocket V)
  unfolding proceed read_web_socket
  handle_web_socket_connect_request p s =
      proceed (read_web_socket p)
        (λ read found. record {
          actor_id = found.0;
          encoding = read.0;
          conn_params = read.1;
          auth_data = found.1;
        })
        s

  -- `handleRawWebSocketRequest` up to the authentication, where web sockets are enabled.
  unfoldable pub read_raw_web_socket : Protocols → Outcome (V × Target V)
  read_raw_web_socket p = bind (or_error invalid_request (non_empty p.query_raw)) (λ t.
      bind (or_error syntax_error (json.parse t)) (λ raw.
        bind (parse_conn_params p.conn_params_raw) (λ params. bind (json.cast_query raw) (λ query.
          ok (params, record { query = query; intents = action ∷ []; params = params })))))

  -- `handleRawWebSocketRequest`, where web sockets are enabled.
  unfoldable pub handle_raw_web_socket_request : Protocols → S → S × Outcome (ProxyWebSocket V)
  unfolding proceed read_raw_web_socket
  handle_raw_web_socket_request p s =
      proceed (read_raw_web_socket p)
        (λ params found. record {
          actor_id = found.0;
          encoding = codes "json";
          conn_params = params;
          auth_data = found.1;
        })
        s
