-- ===== src/Manager/Forwarding.antt =====
-- What the manager passes on: the authentication's data and the parameters of a connection.
use rivetkit.Base.{false, ◌≡◌, refl, Option, some, [], ◌∷◌, is_empty, Text}
use rivetkit.Manager.Query.{ok, ManagerDriver, Registry, ActorQuery, connect}
use rivetkit.Manager.Router.{
  Json, Headers, Protocols, read_sse_connect, read_action, read_web_socket,
  handle_sse_connect_request, handle_action_request, parse_conn_params, get_request_encoding,
  get_request_query, validate_encoding,
}

module _ {S V : Type 0} (json : Json V) (driver : ManagerDriver S V) (registry : Registry V) where
  -- The request for an event stream and that for an action do not depend on the client's header of
  -- authentication data: what the actor gets is what `onAuth` returned.
  pub client_auth_data_ignored :
      (client : Option Text) (h : Headers) (s : S)
      → (handle_sse_connect_request json driver registry (record h { auth_data = client }) s
          ≡ handle_sse_connect_request json driver registry h s)
        × (handle_action_request json driver registry (record h { auth_data = client }) s
            ≡ handle_action_request json driver registry h s)
  unfolding handle_sse_connect_request handle_action_request read_sse_connect read_action
      get_request_encoding get_request_query
  client_auth_data_ignored client h s = (refl, refl)

  -- Two requests to connect, for an event stream and for a web socket, that carry the same query,
  -- encoding and parameters are read the same, and the actor gets the same parameters, but the
  -- authentication of the event stream gets their value and that of the web socket their text.
  pub web_socket_auth_params :
      (h : Headers) (p : Protocols) (t q encoding : Text) (raw params : V) (query : ActorQuery V)
      → get_request_encoding h ≡ ok encoding
      → validate_encoding p.encoding_raw ≡ ok encoding
      → get_request_query json driver registry h ≡ ok raw
      → p.query_raw ≡ some q
      → json.parse q ≡ some raw
      → json.validate_query raw ≡ some query
      → h.conn_params ≡ some t
      → p.conn_params_raw ≡ some t
      → is_empty t ≡ false
      → json.parse t ≡ some params
      → (read_sse_connect json driver registry h
          ≡ ok (encoding, record { query = query; intents = connect ∷ []; params = params }))
        × (read_web_socket json driver registry p
            ≡ ok (
              (encoding, params),
              record { query = query; intents = connect ∷ []; params = json.text t },
            ))
  unfolding read_sse_connect read_web_socket
  web_socket_auth_params h p t q encoding raw params query he pe hq pq j v hp pp n jt =
      (rw (he, hq, v, hp, parse_conn_params, n, jt) refl, rw (pq, j, pp, n, jt, v, pe) refl)
