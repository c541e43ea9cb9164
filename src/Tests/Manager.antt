-- ===== src/Tests/Manager.antt =====
-- The manager's router: packages/rivetkit/src/manager/router.ts and auth.ts.
use rivetkit.Base.{
  arith, ℕ, ◌+◌, ◌-◌, ap, true, not, ◌≡◌, refl, ◌⊎◌, none, some, [], ◌∷◌, is_empty, Text, codes,
}
use rivetkit.Manager.{
  ActorQuery, get_or_create_for_key, ok, ManagerDriver, Registry, Json, Headers, Protocols,
  authorize, read_sse_connect, handle_sse_connect_request, proceed, get_request_encoding,
  get_request_query, authenticate_endpoint, query_actor, get_actor_name_from_query,
  authenticate_request,
}
use rivetkit.Manager.Subprotocols.{parse_web_socket_protocols, client_protocols}
use rivetkit.Manager.Subprotocols.Header.{
  IsToken, IsTokenChar, joined, are_tokens-IsToken, parse-client_protocols,
}
use rivetkit.Manager.Requests.{DriverLaws, sse, state_after}
use rivetkit.Manager.Authorizing.{RequestMayCreate, created_was_authorized}
use rivetkit.FileSystem.{DriverState, entry_of, load_or_create_actor}
use rivetkit.FileSystem.Driver.{generate_actor_id, file_system_driver, get_or_create_with_key}
use rivetkit.FileSystem.Driver.Laws.{exists, knows, HaveOneId, file_system_driver-DriverLaws}
use rivetkit.Tests.Files.{environment, no_actors, number-injective}

-- Values are texts; the parsed value of a text has a mark in front.
abbrev pub chat : Text
chat = codes "chat"

abbrev query : ActorQuery Text
query = get_or_create_for_key chat [] none none

abbrev json : Json Text
json = record {
  parse = λ t. some (0 ∷ t);
  stringify = λ t. t;
  is_truthy = λ t. not (is_empty t);
  text = λ t. t;
  null = [];
  undefined = [];
  validate_query = λ t. some query;
  cast_query = λ t. ok query;
}

-- The driver over files.
abbrev pub driver : ManagerDriver DriverState Text
driver = file_system_driver environment

pub laws : DriverLaws driver (exists environment) (HaveOneId environment)
laws = file_system_driver-DriverLaws environment number-injective

-- Every actor lets everybody in and says nothing.
abbrev pub registry : Registry Text
registry name = some (record { on_auth = some (λ intents params. ok []) })

abbrev headers : Headers
headers = record {
  encoding = some (codes "json");
  query = some (codes "q");
  conn_params = some (codes "p");
  auth_data = some (codes "admin");
}

created_run :
    exists environment chat [] (state_after json driver registry (sse headers) no_actors) ≡ true
unfolding handle_sse_connect_request read_sse_connect proceed authorize get_request_encoding
    get_request_query authenticate_endpoint query_actor get_actor_name_from_query
    authenticate_request get_or_create_with_key load_or_create_actor entry_of generate_actor_id
    knows
created_run = refl

created_was_authorized_example :
    (exists environment chat [] no_actors ≡ true)
    ⊎ RequestMayCreate json driver registry
        (exists environment)
        (HaveOneId environment)
        laws
        (sse headers)
        chat
        []
created_was_authorized_example =
    created_was_authorized json driver registry (exists environment) (HaveOneId environment) laws
      (sse headers) chat [] no_actors created_run

abbrev protocols : Protocols
protocols = record {
  query_raw = some (codes "q");
  encoding_raw = some (codes "json");
  conn_params_raw = some (codes "p");
}

-- A stand-in for the encoding of URI components, which moves all code units beyond the comma and
-- the white space.
abbrev encode : Text → Text
encode [] = []
encode (c ∷ t) = (c + 100) ∷ encode t

abbrev decode : Text → Text
decode [] = []
decode (c ∷ t) = (c - 100) ∷ decode t

decode-encode : (t : Text) → decode (encode t) ≡ t
decode-encode [] = refl
decode-encode (c ∷ t) =
    let same : c + 100 - 100 ≡ c = omega arith in rw (same, decode-encode t) refl

moved-IsTokenChar : (c : ℕ) → IsTokenChar (c + 100)
moved-IsTokenChar c = (ground arith, ground arith)

encode-IsToken : (t : Text) → IsToken (encode t)
encode-IsToken [] = tt
encode-IsToken (c ∷ t) = (moved-IsTokenChar c, encode-IsToken t)

parse-client_protocols_example :
    parse_web_socket_protocols
      (λ t. some (decode t))
      (some (
        joined (
          client_protocols encode
            (codes "q")
            (codes "json")
            (some (codes "p"))
            (codes "mine" ∷ []))))
    ≡ some protocols
parse-client_protocols_example =
    parse-client_protocols encode (λ t. some (decode t)) (λ t. ap some (decode-encode t))
      (codes "q") (codes "json") (some (codes "p")) (codes "mine" ∷ []) encode-IsToken
      (are_tokens-IsToken (codes "json") refl) (are_tokens-IsToken (codes "mine") refl, tt)
      ((refl, refl, refl), tt)
