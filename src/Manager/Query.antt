-- ===== src/Manager/Query.antt =====
-- Actor queries, their authentication and what they resolve to. The manager's driver is an
-- interface, `onAuth` of an actor is the user's code.
use rivetkit.Base.{Bool, Option, none, some, List, [], ◌∷◌, ◌++◌, Text}

-- `ActorQuery`; `V` are the JavaScript values.
pub data ActorQuery (V : Type 0) : Type 0 where
  -- the name and the actor's id
  get_for_id : Text → Text → ActorQuery V
  -- the name and the key
  get_for_key : Text → List Text → ActorQuery V
  -- the name, the key, the input and the region
  get_or_create_for_key : Text → List Text → Option V → Option Text → ActorQuery V
  create_for_key : Text → List Text → Option V → Option Text → ActorQuery V

pub data AuthIntent : Type 0 where
  get create connect action : AuthIntent

pub data ManagerError : Type 0 where
  actor_not_found : ManagerError
  forbidden : ManagerError
  -- what `onAuth` or the driver throws, and whether it is an `ActorError`
  thrown : Bool → Text → ManagerError
  invalid_encoding invalid_request invalid_query_json invalid_params : ManagerError
  -- a `SyntaxError` of `JSON.parse`
  syntax_error : ManagerError
  proxy_error : ManagerError

pub data Outcome (A : Type 0) : Type 0 where
  ok : A → Outcome A
  err : ManagerError → Outcome A

pub record ActorOutput : Type 0 where
  pub actor_id : Text
  pub name : Text

-- `ManagerDriver`, as far as a query uses it, on states `S`.
pub record ManagerDriver (S V : Type 0) : Type 0 where
  pub get_for_id : Text → Text → S → S × Outcome (Option ActorOutput)
  pub get_with_key : Text → List Text → S → S × Outcome (Option ActorOutput)
  pub get_or_create_with_key :
      Text → List Text → Option V → Option Text → S → S × Outcome ActorOutput
  pub create_actor : Text → List Text → Option V → Option Text → S → S × Outcome ActorOutput

-- `onAuth` of a definition, if it has one: what it returns for the intents and the parameters.
pub record ActorDefinition (V : Type 0) : Type 0 where
  pub on_auth : Option (List AuthIntent → V → Outcome V)

abbrev pub and_then : {S A B : Type 0} → S × Outcome A → (A → S → S × Outcome B) → S × Outcome B
and_then (s, ok a) f = f a s
and_then (s, err e) f = (s, err e)

abbrev pub found : {S : Type 0} → Option ActorOutput → S → S × Outcome ActorOutput
found none s = (s, err actor_not_found)
found (some output) s = (s, ok output)

-- `getIntentsFromQuery`
unfoldable pub get_intents_from_query : {V : Type 0} → ActorQuery V → List AuthIntent
get_intents_from_query (get_for_id name id) = get ∷ []
get_intents_from_query (get_for_key name key) = get ∷ []
get_intents_from_query (get_or_create_for_key name key input region) = get ∷ create ∷ []
get_intents_from_query (create_for_key name key input region) = create ∷ []

-- `registryConfig.use`
abbrev pub Registry : Type 0 → Type 0
Registry V = Text → Option (ActorDefinition V)

module _ {S V : Type 0} (driver : ManagerDriver S V) (registry : Registry V) where
  -- `getActorNameFromQuery`
  unfoldable pub get_actor_name_from_query : ActorQuery V → S → S × Outcome Text
  get_actor_name_from_query (get_for_id name id) s =
      and_then (and_then (driver.get_for_id name id s) found) (λ output t. (t, ok output.name))
  get_actor_name_from_query (get_for_key name key) s = (s, ok name)
  get_actor_name_from_query (get_or_create_for_key name key input region) s = (s, ok name)
  get_actor_name_from_query (create_for_key name key input region) s = (s, ok name)

  -- `authenticateRequest`
  unfoldable pub authenticate_request : ActorDefinition V → List AuthIntent → V → Outcome V
  authenticate_request definition intents params = elim definition.on_auth [
    | none ↦ err forbidden
    | some on_auth ↦ on_auth intents params
  ]

  -- `authenticateEndpoint`
  unfoldable pub authenticate_endpoint : ActorQuery V → List AuthIntent → V → S → S × Outcome V
  unfolding get_actor_name_from_query authenticate_request get_intents_from_query
  authenticate_endpoint query additional params s =
      and_then (get_actor_name_from_query query s) (λ name t. elim (registry name) [
        | none ↦ (t, err actor_not_found)
        | some definition ↦
            (t, authenticate_request definition (get_intents_from_query query ++ additional) params)
      ])

  -- `queryActor`
  unfoldable pub query_actor : ActorQuery V → S → S × Outcome Text
  query_actor (get_for_id name id) s =
      and_then (and_then (driver.get_for_id name id s) found) (λ output t. (t, ok output.actor_id))
  query_actor (get_for_key name key) s =
      and_then (and_then (driver.get_with_key name key s) found)
        (λ output t. (t, ok output.actor_id))
  query_actor (get_or_create_for_key name key input region) s =
      and_then (driver.get_or_create_with_key name key input region s)
        (λ output t. (t, ok output.actor_id))
  query_actor (create_for_key name key input region) s =
      and_then (driver.create_actor name key input region s) (λ output t. (t, ok output.actor_id))
