-- ===== src/Manager/Requests.antt =====
-- The requests of the router, the laws of a driver, and the states that the handlers leave.
use rivetkit.Base.{
  Bool, true, false, ◌≡◌, refl, sym, Option, none, some, List, [], ◌∷◌, ◌⊎◌, Text, arith,
}
use mathlib.Core.Path.{subst}
use rivetkit.Manager.Query.{
  ActorQuery, get_for_id, get_for_key, get_or_create_for_key, create_for_key, AuthIntent, get,
  create, connect, action, Outcome, ok, err, ManagerDriver, Registry, and_then,
}
use rivetkit.Manager.Router.{
  Target, read_sse_connect, read_action, read_resolve, read_raw_http, read_web_socket,
  read_raw_web_socket, Json, Headers, Protocols, as_proxy_error, handle_sse_connect_request,
  handle_action_request, handle_resolve_request, handle_raw_http_request,
  handle_web_socket_connect_request, handle_raw_web_socket_request,
}

-- What the manager relies on: a driver's lookups create no actor, and its other operations create
-- the actor of the name and the key that they are given, if any. `Same` says which names and keys
-- the driver does not tell apart.
pub record DriverLaws {S V : Type 0} (driver : ManagerDriver S V)
    (exists : Text → List Text → S → Bool) (Same : Text → List Text → Text → List Text → Type 0)
    : Type 0 where
  pub id_keeps :
      (name id m : Text) (k : List Text) (s : S)
      → exists m k (driver.get_for_id name id s).0 ≡ exists m k s
  pub key_keeps :
      (name : Text) (key : List Text) (m : Text) (k : List Text) (s : S)
      → exists m k (driver.get_with_key name key s).0 ≡ exists m k s
  pub get_or_creates :
      (name : Text) (key : List Text) (input : Option V) (region : Option Text) (m : Text)
      (k : List Text) (s : S)
      → exists m k (driver.get_or_create_with_key name key input region s).0 ≡ true
      → (exists m k s ≡ true) ⊎ Same m k name key
  pub creates :
      (name : Text) (key : List Text) (input : Option V) (region : Option Text) (m : Text)
      (k : List Text) (s : S)
      → exists m k (driver.create_actor name key input region s).0 ≡ true
      → (exists m k s ≡ true) ⊎ Same m k name key

abbrev pub asks_create : List AuthIntent → Bool
asks_create [] = false
asks_create (create ∷ intents) = true
asks_create (get ∷ intents) = asks_create intents
asks_create (connect ∷ intents) = asks_create intents
asks_create (action ∷ intents) = asks_create intents

-- The name and the key of the actor that a query may create.
abbrev pub creation : {V : Type 0} → ActorQuery V → Option (Text × List Text)
creation (get_for_id name id) = none
creation (get_for_key name key) = none
creation (get_or_create_for_key name key input region) = some (name, key)
creation (create_for_key name key input region) = some (name, key)

-- The requests of the router that a client can make for an actor. The proxy of the inspector is not
-- among them.
pub data Request : Type 0 where
  sse : Headers → Request
  acts : Headers → Request
  resolves : Headers → Request
  raw_http : Headers → Request
  web_socket : Protocols → Request
  raw_web_socket : Protocols → Request

-- The state that a handler leaves passes every test that its parts pass.
pub and_then_state :
    {S A B : Type 0} (P : S → Type 0) (r : S × Outcome A) (f : A → S → S × Outcome B)
    → P r.0
    → ((a : A) (t : S) → P t → P (f a t).0)
    → P (and_then r f).0
and_then_state P (s, ok a) f h g = g a s h
and_then_state P (s, err e) f h g = h

pub and_then_state_at :
    {S A B : Type 0} (P : S → Type 0) (r : S × Outcome A) (f : A → S → S × Outcome B)
    → P r.0
    → ((a : A) (t : S) → r ≡ (t, ok a) → P t → P (f a t).0)
    → P (and_then r f).0
and_then_state_at P (s, ok a) f h g = g a s refl h
and_then_state_at P (s, err e) f h g = h

pub option_state :
    {S A B : Type 0} (P : S → Type 0) (o : Option A) (n : S × Outcome B) (f : A → S × Outcome B)
    → P n.0
    → ((a : A) → P (f a).0)
    → (let r : S × Outcome B = elim o [ none ↦ n | some a ↦ f a ] in P r.0)
option_state P none n f h g = h
option_state P (some a) n f h g = g a

proxy_first : {S A : Type 0} (r : S × Outcome A) → (as_proxy_error r).0 ≡ r.0
proxy_first (s, ok a) = refl
proxy_first (s, err e) = ground arith

pub proxy_state :
    {S A : Type 0} (P : S → Type 0) (r : S × Outcome A) → P r.0 → P (as_proxy_error r).0
proxy_state P r h = subst P (sym (proxy_first r)) h

module _ {S V : Type 0} (json : Json V) (driver : ManagerDriver S V) (registry : Registry V) where
  abbrev pub read_target : {A : Type 0} → Outcome (A × Target V) → Option (Target V)
  read_target (ok (a, target)) = some target
  read_target (err e) = none

  -- The query, the intents and the parameters that a request is for, if it can be read.
  abbrev pub target_of : Request → Option (Target V)
  target_of (sse h) = read_target (read_sse_connect json driver registry h)
  target_of (acts h) = read_target (read_action json driver registry h)
  target_of (resolves h) = read_target (read_resolve json driver registry h)
  target_of (raw_http h) = read_target (read_raw_http json driver registry h)
  target_of (web_socket p) = read_target (read_web_socket json driver registry p)
  target_of (raw_web_socket p) = read_target (read_raw_web_socket json driver registry p)

  -- The state that the handler of a request leaves.
  abbrev pub state_after : Request → S → S
  state_after (sse h) s = (handle_sse_connect_request json driver registry h s).0
  state_after (acts h) s = (handle_action_request json driver registry h s).0
  state_after (resolves h) s = (handle_resolve_request json driver registry h s).0
  state_after (raw_http h) s = (handle_raw_http_request json driver registry h s).0
  state_after (web_socket p) s = (handle_web_socket_connect_request json driver registry p s).0
  state_after (raw_web_socket p) s = (handle_raw_web_socket_request json driver registry p s).0
