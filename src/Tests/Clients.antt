-- ===== src/Tests/Clients.antt =====
-- The client: packages/rivetkit/src/client/client.ts, actor-handle.ts and http-client-driver.ts.
use rivetkit.Base.{
  ◌≤◌, Option, ◌++◌, length, take, drop, ℕ, ◌≡◌, refl, true, false, not, none, some, [], ◌∷◌, ◌⊎◌,
  if◌then◌else◌, is_empty, lookup, has, Text, codes, arith,
}
use mathlib.Core.Path.{subst}
use rivetkit.Versioned
use rivetkit.Versioned.{Bytes, Config}
use rivetkit.Serde.{cbor, encoding_is_binary, Formats, deserialize_with_encoding}
use rivetkit.Serde.Laws.{ReadsBack}
use rivetkit.Errors.{
  Thrown, thrown_other, actor_not_found, construct, thrown_error, deconstruct_error,
}
use rivetkit.Manager
use rivetkit.Manager.{
  ActorQuery, create_for_key, connect, action, ManagerError, Json, Headers, authorize,
  read_sse_connect, read_action, read_resolve, read_raw_http, handle_resolve_request, proceed,
  get_request_encoding, get_request_query, authenticate_endpoint, query_actor,
  get_actor_name_from_query, authenticate_request,
}
use rivetkit.Manager.Authorizing.{MayCreate}
use rivetkit.Client.Http.{
  post, HttpRequest, HttpResponseError, Platform, send_http_request, http_request,
}
use rivetkit.Client.Http.Requests.{
  Browser, resolve_actor_id, resolve_opts, actor_headers, action_opts, connect_sse, raw_request,
  no_headers,
}
use rivetkit.Client.Http.Routes.{JsonReads, manager_headers, read-client_headers}
use rivetkit.Client.Http.Answers.{ServerFormats, error_body}
use rivetkit.Client.Http.Serving.{
  Agreement, serve_resolve, resolution, resolve_actor_id-serve_resolve, respond_resolved,
}
use rivetkit.Client.Handles.{
  ClientOptions, ClientRaw, ActorHandle, CreateOptions, no_key, new_client,
  connect as connect_handle, dispose_conn, dispose, client_create, client_get,
}
use rivetkit.Client.Handles.Resolving.{http_driver, client_create_was_authorized}
use rivetkit.Client.Handles.Disposing.{
  Reach, start, next, connects, disposes_conn, IsTracked, Reach-IsTracked, is_there, count,
  dispose_lem,
}
use rivetkit.Tests.Manager.{chat, driver, registry, laws}
use rivetkit.Tests.Files.{environment, no_actors}
use rivetkit.FileSystem.{DriverState, create_actor, store_new, entry_of}
use rivetkit.FileSystem.Driver.{generate_actor_id, create_with_key}
use rivetkit.FileSystem.Driver.Laws.{exists, knows, HaveOneId}

-- Values are texts, which are their own JSON and their own CBOR.
abbrev query : ActorQuery Text
query = create_for_key chat [] none none

abbrev js : Json Text
js = record {
  parse = λ t. some t;
  stringify = λ t. t;
  is_truthy = λ t. not (is_empty t);
  text = λ t. t;
  null = [];
  undefined = [];
  validate_query = λ t. some query;
  cast_query = λ t. Manager.ok query;
}

-- Formats that write texts as they are.
abbrev text_formats : Formats Text
text_formats = record {
  stringify = λ t. t;
  parse = λ t. some t;
  decode_utf8 = λ b. b;
  encode = λ t. t;
  decode = λ b. some b;
  versioned = record {
    current_version = 1;
    migrations = λ v. none;
    serialize_version = λ t. t;
    deserialize_version = λ b. Versioned.ok b;
  };
}

-- Formats of the value that has no content.
abbrev unit_formats : Formats Unit
unit_formats = record {
  stringify = λ v. codes "{}";
  parse = λ t. some tt;
  decode_utf8 = λ b. b;
  encode = λ v. 160 ∷ [];
  decode = λ b. some tt;
  versioned = record {
    current_version = 1;
    migrations = λ v. none;
    serialize_version = λ v. [];
    deserialize_version = λ b. Versioned.ok tt;
  };
}

-- A text behind its length.
abbrev frame : Text → Bytes
frame t = length t ∷ t

abbrev read_frame : Bytes → Text × Bytes
read_frame [] = ([], [])
read_frame (n ∷ b) = (take n b, drop n b)

-- Errors as the frames of their code, their message and their metadata.
abbrev encode_error : HttpResponseError → Bytes
encode_error e = frame e.code ++ frame e.message ++ elim e.metadata [ none ↦ [] | some m ↦ frame m ]

abbrev read_metadata : Bytes → Option Bytes
read_metadata [] = none
read_metadata (n ∷ b) = some (read_frame (n ∷ b)).0

abbrev decode_error : Bytes → HttpResponseError
decode_error b =
    let (code, rest) = read_frame b in
    let (message, last) = read_frame rest in
    record { code = code; message = message; metadata = read_metadata last }

-- In JSON the metadata are lost, as `ArrayBuffer`s are.
abbrev error_formats : Formats HttpResponseError
error_formats = record {
  stringify = λ e. frame e.code ++ frame e.message;
  parse = λ t. some (decode_error t);
  decode_utf8 = λ b. b;
  encode = encode_error;
  decode = λ b. some (decode_error b);
  versioned = record {
    current_version = 1;
    migrations = λ v. none;
    serialize_version = encode_error;
    deserialize_version = λ b. Versioned.ok (decode_error b);
  };
}

abbrev browser : Browser Text Text
browser = record {
  manager_endpoint = codes "http://m";
  stringify_query = λ q. codes "q";
  stringify = λ t. t;
  is_truthy = λ t. not (is_empty t);
  encode_uri_component = λ t. t;
  encode_value = λ t. t;
  action_request = text_formats;
  action_response = text_formats;
  resolve_request = unit_formats;
  resolve_response = text_formats;
  to_server = text_formats;
}

-- A missing actor, and everything else as an internal error of its own.
abbrev report : ManagerError → Thrown
report Manager.actor_not_found = thrown_error (construct (actor_not_found none))
report _ = thrown_other (codes "no")

abbrev server : ServerFormats
server = record {
  utf8 = λ t. t;
  error_formats = error_formats;
  encode_metadata = λ m. elim m [ none ↦ [] | some b ↦ 1 ∷ b ];
}

abbrev platform : Platform DriverState Text
platform = record {
  fetch = serve_resolve js driver registry server text_formats report;
  user_agent = codes "agent";
  decode_value = λ b. some b;
  error_formats = error_formats;
}

some_text : {a b : Text} → some a ≡ some b → a ≡ b
some_text h = cc

reads : JsonReads js browser query (some (codes "p"))
reads = record {
  raw = codes "q";
  parses = refl;
  validates = refl;
  casts = refl;
  query_text = refl;
  params_parse = λ p h. refl;
  params_text = λ p h. subst (λ t. is_empty t ≡ false) (some_text h) refl;
}

abbrev metadata : ManagerError → Text
metadata e =
    let found = deconstruct_error false (report e) in
    elim found.metadata [ none ↦ [] | some b ↦ 1 ∷ b ]

reads_missing :
    ReadsBack error_formats
      (error_body server false (thrown_error (construct (actor_not_found none))))
unfolding deconstruct_error construct
reads_missing = record { cbor_reads = refl; version_fits = omega arith; bare_reads = refl }

reads_other : ReadsBack error_formats (error_body server false (thrown_other (codes "no")))
unfolding deconstruct_error
reads_other = record { cbor_reads = refl; version_fits = omega arith; bare_reads = refl }

reads_report :
    (e : ManagerError) → ReadsBack server.error_formats (error_body server false (report e))
reads_report Manager.actor_not_found = reads_missing
reads_report Manager.forbidden = reads_other
reads_report (Manager.thrown b t) = reads_other
reads_report Manager.invalid_encoding = reads_other
reads_report Manager.invalid_request = reads_other
reads_report Manager.invalid_query_json = reads_other
reads_report Manager.invalid_params = reads_other
reads_report Manager.syntax_error = reads_other
reads_report Manager.proxy_error = reads_other

fails_missing :
    300 ≤ (deconstruct_error false (thrown_error (construct (actor_not_found none)))).status_code
unfolding deconstruct_error construct
fails_missing = omega arith

fails_other : 300 ≤ (deconstruct_error false (thrown_other (codes "no"))).status_code
unfolding deconstruct_error
fails_other = omega arith

fails_report : (e : ManagerError) → 300 ≤ (deconstruct_error false (report e)).status_code
fails_report Manager.actor_not_found = fails_missing
fails_report Manager.forbidden = fails_other
fails_report (Manager.thrown b t) = fails_other
fails_report Manager.invalid_encoding = fails_other
fails_report Manager.invalid_request = fails_other
fails_report Manager.invalid_query_json = fails_other
fails_report Manager.invalid_params = fails_other
fails_report Manager.syntax_error = fails_other
fails_report Manager.proxy_error = fails_other

agreement : Agreement platform server text_formats report metadata
agreement = record {
  same_formats = refl;
  reads_id = λ id. record { cbor_reads = refl; version_fits = omega arith; bare_reads = refl };
  reads_error = reads_report;
  decodes = λ e. refl;
  fails = fails_report;
}

abbrev init : HttpRequest
init = record { method = post; url = []; headers = no_headers; body = none }

read-client_headers_example :
    let opts = action_opts platform browser query cbor (some (codes "p")) (codes "run") [] in
    let resolving = resolve_opts platform browser query cbor (some (codes "p")) in
    (read_sse_connect js driver registry
        (manager_headers (connect_sse platform browser query cbor (some (codes "p"))).1)
      ≡ Manager.ok
          (codes "cbor", record { query = query; intents = connect ∷ []; params = codes "p" }))
    × (read_action js driver registry (
          manager_headers
            (http_request platform browser.action_request browser.action_response opts
              opts.body).headers)
        ≡ Manager.ok
            (codes "cbor", record { query = query; intents = action ∷ []; params = codes "p" }))
    × (read_resolve js driver registry (
          manager_headers
            (http_request platform browser.resolve_request browser.resolve_response resolving
              resolving.body).headers)
        ≡ Manager.ok (codes "cbor", record { query = query; intents = []; params = codes "p" }))
    × (read_raw_http js driver registry (
          manager_headers
            (raw_request platform browser query cbor (some (codes "p")) (codes "/x") init).headers)
        ≡ Manager.ok
            (codes "p", record { query = query; intents = action ∷ []; params = codes "p" }))
read-client_headers_example =
    read-client_headers platform browser js driver registry query cbor (some (codes "p"))
      (codes "run") (codes "/x") [] init reads refl

cbor_is_binary : encoding_is_binary cbor ≡ true
unfolding encoding_is_binary
cbor_is_binary = refl

resolve_actor_id-serve_resolve_example :
    resolve_actor_id platform browser query cbor (some (codes "p")) no_actors
    ≡ resolution platform browser js driver registry server report metadata
        (authorize js driver registry query [] (codes "p") no_actors)
resolve_actor_id-serve_resolve_example =
    resolve_actor_id-serve_resolve platform browser js driver registry server report metadata query
      cbor (some (codes "p")) no_actors cbor_is_binary reads agreement (λ r t. refl)

abbrev opts : ClientOptions
opts = record { encoding = some cbor; transport = none }

abbrev created : CreateOptions Text
created = record { params = some (codes "p"); region = none; input = none }

abbrev client : ClientRaw Text
client = new_client opts

-- The actor is created over the wire.
wire_run :
    exists environment chat []
      (client_create (http_driver platform browser) client chat no_key created no_actors).0
    ≡ true
unfolding client_create new_client resolve_actor_id send_http_request http_request resolve_opts
    actor_headers serve_resolve respond_resolved handle_resolve_request proceed read_resolve
    authorize get_request_encoding get_request_query authenticate_endpoint query_actor
    get_actor_name_from_query authenticate_request deserialize_with_encoding create_with_key
    create_actor store_new entry_of generate_actor_id knows
wire_run = refl

client_create_was_authorized_example :
    (exists environment chat [] no_actors ≡ true)
    ⊎ MayCreate js driver registry
        (exists environment)
        (HaveOneId environment)
        laws
        query
        []
        (codes "p")
        chat
        []
client_create_was_authorized_example =
    client_create_was_authorized platform browser js driver registry server report
      (exists environment) (HaveOneId environment) laws client chat no_key created chat [] no_actors
      reads (λ r t. refl) wire_run

-- Two connections; the first is disposed.
abbrev handle : ActorHandle Text
handle = client_get client chat no_key none

abbrev busy : ClientRaw Text
busy = dispose_conn 0 (connect_handle handle (connect_handle handle client))

busy-Reach : Reach opts busy
busy-Reach =
    next
      (next (next start (connects handle client)) (connects handle (connect_handle handle client)))
      (disposes_conn 0 (connect_handle handle (connect_handle handle client)))

Reach-IsTracked_example : IsTracked busy
Reach-IsTracked_example = Reach-IsTracked opts busy busy-Reach

busy_run : busy.disposed ≡ false
unfolding new_client connect_handle dispose_conn
busy_run = refl

dispose_lem_example :
    ((id : ℕ)
      → (has id (dispose busy).actor_conns ≡ false)
        × (count id (dispose busy).closed ≡ (if is_there (lookup id busy.objects) then 1 else 0)))
    × ((h : ActorHandle Text)
        → dispose (connect_handle h (dispose busy)) ≡ connect_handle h (dispose busy))
dispose_lem_example = dispose_lem opts busy busy-Reach busy_run
