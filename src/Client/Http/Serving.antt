-- ===== src/Client/Http/Serving.antt =====
-- The client resolves an actor against the manager: `resolveActorId` of the client's driver, over a
-- network that is the route of `handleResolveRequest`.
use rivetkit.Base.{◌≤◌, true, false, ◌≡◌, refl, ap, ◌∙◌, Option, none, some, [], Text}
use rivetkit.Serde.{Encoding, json, cbor, bare, encoding_is_binary, Formats}
use rivetkit.Serde.Laws.{ReadsBack}
use rivetkit.Errors.{Thrown, deconstruct_error}
use rivetkit.Manager
use rivetkit.Manager.{
  ActorQuery, ManagerError, ManagerDriver, Registry, Json, Headers, authorize, proceed,
  read_resolve, handle_resolve_request, get_request_encoding,
}
use rivetkit.Client.Http.{
  HttpRequest, Fetched, responds, actor_error, internal_error, invariant_violation, cbor_throws,
  fetch_throws, request_failed, unparsed, unstructured, Outcome, ok, err, and_then, Platform,
  send_http_request, http_request, read_response, undefined_property,
}
use rivetkit.Client.Http.Requests.{
  Browser, encoding_text, actor_headers, resolve_opts, resolve_actor_id, as_internal_error,
}
use rivetkit.Client.Http.Routes.{
  manager_headers, params_value, JsonReads, client_headers, encoding_lem, read_headers,
}
use rivetkit.Client.Http.Answers.{
  ServerFormats, encoding_of, answer_encoding, error_body, handle_route_error, answer,
  read_response-answer, read_response-handle_route_error,
}

module _ {S V : Type 0} (js : Json V) (driver : ManagerDriver S V) (registry : Registry V)
    (server : ServerFormats) (resolve_response : Formats Text)
    (report : ManagerError → Thrown) where
  -- The answer to what the handler came to; `report` is what it threw.
  unfoldable pub respond_resolved : Headers → S × Manager.Outcome Text → S × Fetched
  unfolding answer handle_route_error
  respond_resolved h (s, Manager.ok id) =
      (s, responds (answer server resolve_response (answer_encoding server h) id))
  respond_resolved h (s, Manager.err e) =
      (s, responds (handle_route_error server false (report e) h))

  -- The route: `handleResolveRequest` with the router's `onError`.
  unfoldable pub serve_resolve : HttpRequest → S → S × Fetched
  unfolding respond_resolved handle_resolve_request
  serve_resolve request s =
      let h = manager_headers request.headers in
      respond_resolved h (handle_resolve_request js driver registry h s)

-- What both sides share: the binary formats of answers read back every id and every error that is
-- reported, the metadata of an error comes back as some value, and errors have the status of a
-- failed request.
pub record Agreement {S V : Type 0} (platform : Platform S V) (server : ServerFormats)
    (resolve_response : Formats Text) (report : ManagerError → Thrown) (metadata : ManagerError → V)
    : Type 0 where
  pub same_formats : platform.error_formats ≡ server.error_formats
  pub reads_id : (id : Text) → ReadsBack resolve_response id
  pub reads_error :
      (e : ManagerError) → ReadsBack server.error_formats (error_body server false (report e))
  pub decodes :
      (e : ManagerError)
      → platform.decode_value (server.encode_metadata (deconstruct_error false (report e)).metadata)
        ≡ some (metadata e)
  pub fails : (e : ManagerError) → 300 ≤ (deconstruct_error false (report e)).status_code

encoding_back : (e : Encoding) → encoding_of (encoding_text e) ≡ e
encoding_back json = refl
encoding_back cbor = refl
encoding_back bare = refl

module _ {S V Message : Type 0} (platform : Platform S V) (browser : Browser V Message)
    (js : Json V) (driver : ManagerDriver S V) (registry : Registry V) (server : ServerFormats)
    (report : ManagerError → Thrown) (metadata : ManagerError → V) where
  answer_encoding_lem :
      (query : ActorQuery V) (e : Encoding) (params : Option V)
      → answer_encoding server (client_headers platform browser js driver registry query e params)
        ≡ e
  answer_encoding_lem query e params =
      rw
        (
          answer_encoding,
          encoding_lem e (client_headers platform browser js driver registry query e params)
              (unfold actor_headers in refl),
        )
        (encoding_back e)

  -- What the client's `resolveActorId` comes to, for what the manager's authorization came to.
  abbrev pub resolution : S × Manager.Outcome (Text × V) → S × Outcome V Text
  resolution (s, Manager.ok (id, auth)) = (s, ok id)
  resolution (s, Manager.err m) =
      let e = deconstruct_error false (report m) in
      (s, err (actor_error e.code e.message (some (metadata m))))

  -- The answer as the client reads it.
  abbrev read_resolved : ActorQuery V → Encoding → Option V → S × Fetched → S × Outcome V Text
  read_resolved query e params (t, fetched) = as_internal_error (
      and_then
        (
          t,
          read_response platform browser.resolve_request browser.resolve_response
              (resolve_opts platform browser query e params) fetched,
        )
        (λ response t. elim response [ none ↦ (t, err undefined_property) | some id ↦ (t, ok id) ]))

  respond_resolved_state :
      (h : Headers) (r : S × Manager.Outcome Text)
      → (respond_resolved js driver registry server browser.resolve_response report h r).0 ≡ r.0
  unfolding respond_resolved
  respond_resolved_state h (s, Manager.ok id) = refl
  respond_resolved_state h (s, Manager.err e) = refl

  as_internal_error_state : {A : Type 0} (r : S × Outcome V A) → (as_internal_error r).0 ≡ r.0
  as_internal_error_state (s, ok a) = refl
  as_internal_error_state (s, err (actor_error c m x)) = refl
  as_internal_error_state (s, err internal_error) = refl
  as_internal_error_state (s, err invariant_violation) = refl
  as_internal_error_state (s, err cbor_throws) = refl
  as_internal_error_state (s, err undefined_property) = refl
  as_internal_error_state (s, err (fetch_throws t)) = refl
  as_internal_error_state (s, err (request_failed t)) = refl
  as_internal_error_state (s, err (unparsed x)) = refl
  as_internal_error_state (s, err (unstructured x y z)) = refl

  id_of_state :
      (t : S) (o : Outcome V (Option Text))
      → (and_then {B = Text}
          (t, o)
          (λ response t. elim response [
            | none ↦ (t, err undefined_property)
            | some id ↦ (t, ok id)
          ])).0
        ≡ t
  id_of_state t (ok none) = refl
  id_of_state t (ok (some id)) = refl
  id_of_state t (err e) = refl

  read_resolved_state :
      (query : ActorQuery V) (e : Encoding) (params : Option V) (r : S × Fetched)
      → (read_resolved query e params r).0 ≡ r.0
  read_resolved_state query e params (t, fetched) =
      as_internal_error_state _
      ∙ id_of_state t (
          read_response platform browser.resolve_request browser.resolve_response
            (resolve_opts platform browser query e params) fetched)

  resolve_lem :
      (query : ActorQuery V) (e : Encoding) (params : Option V) (s : S)
      → ((request : HttpRequest) (t : S)
          → platform.fetch request t
            ≡ serve_resolve js driver registry server browser.resolve_response report request t)
      → resolve_actor_id platform browser query e params s
        ≡ read_resolved query e params (
            respond_resolved js driver registry server browser.resolve_response report
              (client_headers platform browser js driver registry query e params)
              (handle_resolve_request js driver registry
                (client_headers platform browser js driver registry query e params)
                s))
  unfolding resolve_actor_id send_http_request http_request resolve_opts serve_resolve
  resolve_lem query e params s h = rw (h, send_http_request) refl

  passed_state :
      (r : S × Manager.Outcome (Text × V))
      → (Manager.and_then r (λ found t. (t, Manager.ok found.0))).0 ≡ r.0
  passed_state (s, Manager.ok a) = refl
  passed_state (s, Manager.err e) = refl

  handled_lem :
      (query : ActorQuery V) (e : Encoding) (params : Option V) (s : S)
      → JsonReads js browser query params
      → handle_resolve_request js driver registry
          (client_headers platform browser js driver registry query e params)
          s
        ≡ Manager.and_then
            (authorize js driver registry query [] (params_value js params) s)
            (λ found t. (t, Manager.ok found.0))
  unfolding handle_resolve_request proceed
  handled_lem query e params s r =
      rw ((read_headers platform browser js driver registry query e params r).2, proceed) refl

  -- In every encoding, a client that resolves leaves the state that authorizing its query leaves.
  pub resolve_actor_id_state :
      (query : ActorQuery V) (e : Encoding) (params : Option V) (s : S)
      → JsonReads js browser query params
      → ((request : HttpRequest) (t : S)
          → platform.fetch request t
            ≡ serve_resolve js driver registry server browser.resolve_response report request t)
      → (resolve_actor_id platform browser query e params s).0
        ≡ (authorize js driver registry query [] (params_value js params) s).0
  resolve_actor_id_state query e params s r fetches =
      let h = client_headers platform browser js driver registry query e params in
      ap (λ x. x.0) (resolve_lem query e params s fetches)
      ∙ read_resolved_state query e params _
      ∙ respond_resolved_state h (handle_resolve_request js driver registry h s)
      ∙ ap (λ x. x.0) (handled_lem query e params s r)
      ∙ passed_state (authorize js driver registry query [] (params_value js params) s)

  -- Whatever the authorization came to, the client reads it off the answer.
  read_lem :
      (query : ActorQuery V) (e : Encoding) (params : Option V) (h : Headers)
      (r : S × Manager.Outcome (Text × V))
      → encoding_is_binary e ≡ true
      → Agreement platform server browser.resolve_response report metadata
      → answer_encoding server h ≡ e
      → read_resolved query e params (
          respond_resolved js driver registry server browser.resolve_response report h
            (Manager.and_then r (λ found t. (t, Manager.ok found.0))))
        ≡ resolution r
  unfolding respond_resolved read_response resolve_opts
  read_lem query e params h (s, Manager.ok (id, auth)) b a same =
      rw
        (
          same,
          read_response-answer platform server browser.resolve_request browser.resolve_response
              (resolve_opts platform browser query e params) id refl b (a.reads_id id),
        )
        refl
  read_lem query e params h (s, Manager.err m) b a same =
      rw
        (read_response-handle_route_error platform server browser.resolve_request
          browser.resolve_response (resolve_opts platform browser query e params) (report m) false h
          (metadata m) (a.fails m) same b (a.reads_error m) a.same_formats (a.decodes m))
        refl

  -- In CBOR and BARE, where `fetch` reaches the manager's route, the client's `resolveActorId` does
  -- to the manager's state what authorizing its query does, without further intents; it returns the
  -- id found there, and throws an `ActorError` of the code, the message and the metadata of every
  -- error that is thrown there, which is never `null`. `JSON` reads back the query and the
  -- parameters, and both sides agree on the binary formats of answers.
  pub resolve_actor_id-serve_resolve :
      (query : ActorQuery V) (e : Encoding) (params : Option V) (s : S)
      → encoding_is_binary e ≡ true
      → JsonReads js browser query params
      → Agreement platform server browser.resolve_response report metadata
      → ((request : HttpRequest) (t : S)
          → platform.fetch request t
            ≡ serve_resolve js driver registry server browser.resolve_response report request t)
      → resolve_actor_id platform browser query e params s
        ≡ resolution (authorize js driver registry query [] (params_value js params) s)
  resolve_actor_id-serve_resolve query e params s b r a fetches =
      resolve_lem query e params s fetches
      ∙ rw (handled_lem query e params s r) (
          read_lem query e params
            (client_headers platform browser js driver registry query e params)
            (authorize js driver registry query [] (params_value js params) s) b a
            (answer_encoding_lem query e params))
