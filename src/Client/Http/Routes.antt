-- ===== src/Client/Http/Routes.antt =====
-- What the manager's router reads from the requests of the client's driver.
use rivetkit.Base.{false, ◌≡◌, refl, Option, none, some, List, [], ◌∷◌, is_empty, Text}
use rivetkit.Serde.{Encoding, json, cbor, bare}
use rivetkit.Manager
use rivetkit.Manager.{
  ActorQuery, AuthIntent, connect, action, ManagerDriver, Registry, Json, Headers, Target,
  non_empty, get_request_encoding, get_request_query, read_sse_connect, read_action, read_resolve,
  read_raw_http, parse_conn_params, validate_encoding,
}
use rivetkit.Client.Http.{RequestHeaders, HttpRequest, Platform, http_request}
use rivetkit.Client.Http.Requests.{
  Browser, encoding_text, actor_headers, action_opts, resolve_opts, connect_sse, raw_request,
}

-- A request's headers, by what the manager reads.
abbrev pub manager_headers : RequestHeaders → Headers
manager_headers h = record {
  encoding = h.encoding;
  query = h.actor_query;
  conn_params = h.conn_params;
  auth_data = none;
}

-- The parameters that the manager authenticates with.
abbrev pub params_value : {V : Type 0} → Json V → Option V → V
params_value js none = js.undefined
params_value js (some p) = p

-- `JSON` reads back the query, which is valid, and the parameters; no text of them is empty.
pub record JsonReads {V Message : Type 0} (js : Json V) (browser : Browser V Message)
    (query : ActorQuery V) (params : Option V) : Type 0 where
  pub raw : V
  pub parses : js.parse (browser.stringify_query query) ≡ some raw
  pub validates : js.validate_query raw ≡ some query
  pub casts : js.cast_query raw ≡ Manager.ok query
  pub query_text : is_empty (browser.stringify_query query) ≡ false
  pub params_parse : (p : V) → params ≡ some p → js.parse (browser.stringify p) ≡ some p
  pub params_text : (p : V) → params ≡ some p → is_empty (browser.stringify p) ≡ false

non_empty_lem : (t : Text) → is_empty t ≡ false → non_empty (some t) ≡ some t
non_empty_lem t h = rw h refl

validate_encoding_lem :
    (e : Encoding) → validate_encoding (some (encoding_text e)) ≡ Manager.ok (encoding_text e)
validate_encoding_lem json = refl
validate_encoding_lem cbor = refl
validate_encoding_lem bare = refl

pub encoding_lem :
    (e : Encoding) (h : Headers)
    → h.encoding ≡ some (encoding_text e)
    → get_request_encoding h ≡ Manager.ok (encoding_text e)
unfolding get_request_encoding
encoding_lem json h p = rw p refl
encoding_lem cbor h p = rw p refl
encoding_lem bare h p = rw p refl

module _ {S V Message : Type 0} (platform : Platform S V) (browser : Browser V Message)
    (js : Json V) (driver : ManagerDriver S V) (registry : Registry V) where
  -- What the manager reads of the client's headers.
  abbrev pub client_headers : ActorQuery V → Encoding → Option V → Headers
  client_headers query e params = manager_headers (actor_headers platform browser query e params)

  abbrev target : ActorQuery V → List AuthIntent → Option V → Target V
  target query intents params = record {
    query = query;
    intents = intents;
    params = params_value js params;
  }

  -- The headers' parts, as they are read.
  query_lem :
      (query : ActorQuery V) (e : Encoding) (params : Option V)
      (r : JsonReads js browser query params)
      → get_request_query js driver registry (client_headers query e params) ≡ Manager.ok r.raw
  unfolding get_request_query actor_headers
  query_lem query e params r =
      rw (non_empty_lem (browser.stringify_query query) r.query_text, get_request_query)
        (rw (r.parses) refl)

  params_lem :
      (query : ActorQuery V) (e : Encoding) (params : Option V)
      → JsonReads js browser query params
      → parse_conn_params js driver registry (client_headers query e params).conn_params
        ≡ Manager.ok (params_value js params)
  unfolding actor_headers
  params_lem query e none r = refl
  params_lem query e (some p) r =
      rw (non_empty_lem (browser.stringify p) (r.params_text p refl), parse_conn_params)
        (rw (r.params_parse p refl) refl)

  pub read_headers :
      (query : ActorQuery V) (e : Encoding) (params : Option V)
      → JsonReads js browser query params
      → let h : Headers = client_headers query e params in
        (read_sse_connect js driver registry h
          ≡ Manager.ok (encoding_text e, target query (connect ∷ []) params))
        × (read_action js driver registry h
            ≡ Manager.ok (encoding_text e, target query (action ∷ []) params))
        × (read_resolve js driver registry h ≡ Manager.ok (encoding_text e, target query [] params))
        × (read_raw_http js driver registry h
            ≡ Manager.ok (params_value js params, target query (action ∷ []) params))
  unfolding read_sse_connect read_action read_resolve read_raw_http
  read_headers query e params r =
      let h : Headers = client_headers query e params in
      let encoding : get_request_encoding h ≡ Manager.ok (encoding_text e) =
        encoding_lem e h (unfold actor_headers in refl) in
      let field : validate_encoding h.encoding ≡ Manager.ok (encoding_text e) =
        unfold actor_headers in validate_encoding_lem e in
      let text : non_empty h.query ≡ some (browser.stringify_query query) =
        unfold actor_headers in non_empty_lem (browser.stringify_query query) r.query_text in
      let q = query_lem query e params r in
      let p = params_lem query e params r in
      (
        rw (encoding, q, r.validates, p) refl,
        rw (q, r.validates, field, p) refl,
        rw (encoding, q, r.validates, p) refl,
        rw (text, r.parses, p, r.casts) refl,
      )

  raw_request_headers :
      (query : ActorQuery V) (e : Encoding) (params : Option V) (path : Text) (init : HttpRequest)
      → init.headers.conn_params ≡ none
      → manager_headers (raw_request platform browser query e params path init).headers
        ≡ client_headers query e params
  unfolding raw_request actor_headers
  raw_request_headers query e none path init h = rw h refl
  raw_request_headers query e (some p) path init h = refl

  -- From the headers of each request that the client sends, to connect an event stream, to run an
  -- action, to resolve an actor and a raw one whose own headers have no parameters, the manager
  -- reads the query, the encoding and the parameters that the client gave, with the intent of the
  -- request. `JSON` reads back the query and the parameters.
  pub read-client_headers :
      (query : ActorQuery V) (e : Encoding) (params : Option V) (name path : Text) (args : V)
      (init : HttpRequest)
      → JsonReads js browser query params
      → init.headers.conn_params ≡ none
      → let opts = action_opts platform browser query e params name args in
        let resolving = resolve_opts platform browser query e params in
        (read_sse_connect js driver registry
            (manager_headers (connect_sse platform browser query e params).1)
          ≡ Manager.ok (encoding_text e, target query (connect ∷ []) params))
        × (read_action js driver registry (
              manager_headers
                (http_request platform browser.action_request browser.action_response opts
                  opts.body).headers)
            ≡ Manager.ok (encoding_text e, target query (action ∷ []) params))
        × (read_resolve js driver registry (
              manager_headers
                (http_request platform browser.resolve_request browser.resolve_response resolving
                  resolving.body).headers)
            ≡ Manager.ok (encoding_text e, target query [] params))
        × (read_raw_http js driver registry
              (manager_headers (raw_request platform browser query e params path init).headers)
            ≡ Manager.ok (params_value js params, target query (action ∷ []) params))
  unfolding connect_sse http_request action_opts resolve_opts
  read-client_headers query e params name path args init r none_of_its_own =
      let (sse, acts, resolves, raw) = read_headers query e params r in
      (sse, acts, resolves, rw (raw_request_headers query e params path init none_of_its_own) raw)
