-- ===== src/Manager/Authorizing.antt =====
-- What requests create, and what the authentication of an actor accepts.
use rivetkit.Base.{
  Bool, true, ◌≡◌, refl, sym, ap, Option, none, some, List, ◌++◌, ◌⊎◌, inl, inr, Text, Option-cases,
  ◌∙◌, arith,
}
use rivetkit.Manager.Query.{
  ActorQuery, get_for_id, get_for_key, get_or_create_for_key, create_for_key, AuthIntent, Outcome,
  ok, err, ActorOutput, ManagerDriver, ActorDefinition, Registry, and_then, found,
  authenticate_request, authenticate_endpoint, actor_not_found, query_actor,
  get_actor_name_from_query, get_intents_from_query,
}
use rivetkit.Manager.Router.{
  Json, Target, proceed, fresh_request, raw_headers, read_sse_connect, read_action, read_resolve,
  read_raw_http, read_web_socket, read_raw_web_socket, authorize, handle_sse_connect_request,
  handle_action_request, handle_resolve_request, handle_raw_http_request,
  handle_web_socket_connect_request, handle_raw_web_socket_request,
}
use rivetkit.Manager.Requests.{
  DriverLaws, creation, read_target, target_of, asks_create, Request, sse, acts, resolves, raw_http,
  web_socket, raw_web_socket, state_after, and_then_state, and_then_state_at, option_state,
  proxy_state,
}

module _ {S V : Type 0} (json : Json V) (driver : ManagerDriver S V) (registry : Registry V)
    (exists : Text → List Text → S → Bool) (Same : Text → List Text → Text → List Text → Type 0)
    (laws : DriverLaws driver exists Same) where
  -- The query may create the actor of a name and a key, which the driver does not tell from `m` and
  -- `k`, and the `onAuth` that the registry has for the name accepts its intents, `create` among
  -- them, with the parameters.
  abbrev pub MayCreate : ActorQuery V → List AuthIntent → V → Text → List Text → Type 0
  MayCreate q intents params m k =
      (name : Text) × (key : List Text) × (definition : ActorDefinition V) × (auth : V) × (creation
          q
        ≡ some (name, key))
      × (registry name ≡ some definition)
      × (authenticate_request driver registry definition (get_intents_from_query q ++ intents)
            params
          ≡ ok auth)
      × (asks_create (get_intents_from_query q) ≡ true)
      × Same m k name key

  module _ (m : Text) (k : List Text) (s : S) (May : Type 0) where
    -- The actor exists now only if it did before, or if it may be created.
    abbrev IsAllowed : S → Type 0
    IsAllowed t = exists m k t ≡ true → (exists m k s ≡ true) ⊎ May

    found-IsAllowed : (o : Option ActorOutput) (t : S) → IsAllowed t → IsAllowed (found o t).0
    found-IsAllowed none t h = h
    found-IsAllowed (some a) t h = h

    found_then-IsAllowed :
        (r : S × Outcome (Option ActorOutput)) → IsAllowed r.0 → IsAllowed (and_then r found).0
    found_then-IsAllowed r h = and_then_state IsAllowed r found h found-IsAllowed

    lookup-IsAllowed :
        (name id : Text) (t : S) → IsAllowed t → IsAllowed (driver.get_for_id name id t).0
    lookup-IsAllowed name id t h e = h (sym (laws.id_keeps name id m k t) ∙ e)

    -- Behind an authentication, the query may do what it leaves allowed.
    authorize_state :
        (q : ActorQuery V) (intents : List AuthIntent) (params : V) (t : S)
        → IsAllowed (authenticate_endpoint driver registry q intents params t).0
        → ((u : S) → IsAllowed u → IsAllowed (query_actor driver registry q u).0)
        → IsAllowed (authorize json driver registry q intents params t).0
    unfolding authorize
    authorize_state q intents params t h g =
        and_then_state IsAllowed (authenticate_endpoint driver registry q intents params t) _ h
          (λ auth u hu.
            and_then_state IsAllowed (query_actor driver registry q u) _ (g u hu) (λ id v hv. hv))

    -- What `authenticateEndpoint` does once the actor's name is known.
    abbrev named : Text → List AuthIntent → V → S → S × Outcome V
    named name intents params t = elim (registry name) [
      | none ↦ (t, err actor_not_found)
      | some d ↦ (t, authenticate_request driver registry d intents params)
    ]

    named-IsAllowed :
        (name : Text) (intents : List AuthIntent) (params : V) (t : S)
        → IsAllowed t
        → IsAllowed (named name intents params t).0
    named-IsAllowed name intents params t h =
        option_state IsAllowed (registry name) (t, err actor_not_found)
          (λ d. (t, authenticate_request driver registry d intents params)) h (λ d. h)

    name-IsAllowed :
        (q : ActorQuery V) (t : S)
        → IsAllowed t
        → IsAllowed (get_actor_name_from_query driver registry q t).0
    unfolding get_actor_name_from_query
    name-IsAllowed (get_for_id name id) t h =
        and_then_state IsAllowed (and_then (driver.get_for_id name id t) found)
          (λ o u. (u, ok o.name))
          (found_then-IsAllowed (driver.get_for_id name id t) (lookup-IsAllowed name id t h))
          (λ o u hu. hu)
    name-IsAllowed (get_for_key name key) t h = h
    name-IsAllowed (get_or_create_for_key name key input region) t h = h
    name-IsAllowed (create_for_key name key input region) t h = h

    endpoint-IsAllowed :
        (q : ActorQuery V) (intents : List AuthIntent) (params : V) (t : S)
        → IsAllowed t
        → IsAllowed (authenticate_endpoint driver registry q intents params t).0
    unfolding authenticate_endpoint
    endpoint-IsAllowed q intents params t h =
        and_then_state IsAllowed (get_actor_name_from_query driver registry q t)
          (λ name u. named name (get_intents_from_query q ++ intents) params u)
          (name-IsAllowed q t h)
          (λ n u hu. named-IsAllowed n (get_intents_from_query q ++ intents) params u hu)

    named_accepts :
        (name : Text) (intents : List AuthIntent) (params auth : V) (t u : S)
        → named name intents params t ≡ (u, ok auth)
        → (definition : ActorDefinition V) × (registry name ≡ some definition)
          × (authenticate_request driver registry definition intents params ≡ ok auth)
    named_accepts name intents params auth t u h = elim (Option-cases (registry name)) [
      | inl e ↦ ground arith
      | inr (d, e) ↦ (d, e, ap (λ r. r.1) (rw (e, named) at h))
    ]

    allow :
        {name : Text} {key : List Text} {u : S}
        → IsAllowed u
        → (Same m k name key → May)
        → (exists m k u ≡ true) ⊎ Same m k name key
        → (exists m k s ≡ true) ⊎ May
    allow hu may (inl e) = hu e
    allow hu may (inr e) = inr (may e)

    -- A query that may create the actor of the name and the key, which its intents say.
    creating :
        (q : ActorQuery V) (name : Text) (key : List Text) (intents : List AuthIntent) (params : V)
        (t : S)
        → IsAllowed t
        → (MayCreate q intents params m k → May)
        → authenticate_endpoint driver registry q intents params t
          ≡ named name (get_intents_from_query q ++ intents) params t
        → creation q ≡ some (name, key)
        → asks_create (get_intents_from_query q) ≡ true
        → ((u : S)
            → IsAllowed u
            → (Same m k name key → May)
            → IsAllowed (query_actor driver registry q u).0)
        → IsAllowed (authorize json driver registry q intents params t).0
    unfolding authorize
    creating q name key intents params t h grant e creates asks g =
        let all = get_intents_from_query q ++ intents in
        and_then_state_at IsAllowed (authenticate_endpoint driver registry q intents params t) _
          (rw e (named-IsAllowed name all params t h))
          (λ auth u r hu.
            let (d, known, accepted) = named_accepts name all params auth t u (sym e ∙ r) in
            and_then_state IsAllowed (query_actor driver registry q u) _
              (g u hu (λ same. grant (name, key, d, auth, creates, known, accepted, asks, same)))
              (λ id v hv. hv))

    pub authorize-IsAllowed :
        (q : ActorQuery V) (intents : List AuthIntent) (params : V) (t : S)
        → IsAllowed t
        → (MayCreate q intents params m k → May)
        → IsAllowed (authorize json driver registry q intents params t).0
    unfolding authenticate_endpoint get_actor_name_from_query query_actor get_intents_from_query
    authorize-IsAllowed (get_for_id name id) intents params t h grant =
        authorize_state (get_for_id name id) intents params t
          (endpoint-IsAllowed (get_for_id name id) intents params t h)
          (λ u hu.
            and_then_state IsAllowed (and_then (driver.get_for_id name id u) found)
              (λ o v. (v, ok o.actor_id))
              (found_then-IsAllowed (driver.get_for_id name id u) (lookup-IsAllowed name id u hu))
              (λ o v hv. hv))
    authorize-IsAllowed (get_for_key name key) intents params t h grant =
        authorize_state (get_for_key name key) intents params t
          (endpoint-IsAllowed (get_for_key name key) intents params t h)
          (λ u hu.
            and_then_state IsAllowed (and_then (driver.get_with_key name key u) found)
              (λ o v. (v, ok o.actor_id))
              (found_then-IsAllowed (driver.get_with_key name key u)
                (λ e. hu (sym (laws.key_keeps name key m k u) ∙ e)))
              (λ o v hv. hv))
    authorize-IsAllowed (get_or_create_for_key name key input region) intents params t h grant =
        creating (get_or_create_for_key name key input region) name key intents params t h grant
          refl refl refl
          (λ u hu may.
            and_then_state IsAllowed (driver.get_or_create_with_key name key input region u)
              (λ o v. (v, ok o.actor_id))
              (λ e. allow hu may (laws.get_or_creates name key input region m k u e))
              (λ o v hv. hv))
    authorize-IsAllowed (create_for_key name key input region) intents params t h grant =
        creating (create_for_key name key input region) name key intents params t h grant refl refl
          refl
          (λ u hu may.
            and_then_state IsAllowed (driver.create_actor name key input region u)
              (λ o v. (v, ok o.actor_id))
              (λ e. allow hu may (laws.creates name key input region m k u e)) (λ o v hv. hv))

  proceed-IsAllowed :
      {A B : Type 0} (m : Text) (k : List Text) (s t : S) (May : Type 0)
      (r : Outcome (A × Target V)) (pass : A → Text × V → B)
      → ((target : Target V)
          → read_target json driver registry r ≡ some target
          → MayCreate target.query target.intents target.params m k
          → May)
      → IsAllowed m k s May t
      → IsAllowed m k s May (proceed json driver registry r pass t).0
  unfolding proceed
  proceed-IsAllowed m k s t May (err e) pass grant h = h
  proceed-IsAllowed m k s t May (ok (a, target)) pass grant h =
      and_then_state (IsAllowed m k s May)
        (authorize json driver registry target.query target.intents target.params t)
        (λ found t. (t, ok (pass a found)))
        (authorize-IsAllowed m k s May target.query target.intents target.params t h
          (grant target refl))
        (λ found t h. h)

  -- What a request may create, by the query, the intents and the parameters that are read from it.
  abbrev pub RequestMayCreate : Request → Text → List Text → Type 0
  RequestMayCreate r m k =
      (target : Target V) × (target_of json driver registry r ≡ some target)
      × MayCreate target.query target.intents target.params m k

  request-IsAllowed :
      (r : Request) (m : Text) (k : List Text) (s t : S)
      → IsAllowed m k s (RequestMayCreate r m k) t
      → IsAllowed m k s (RequestMayCreate r m k) (state_after json driver registry r t)
  unfolding handle_sse_connect_request handle_action_request handle_resolve_request
      handle_raw_http_request handle_web_socket_connect_request handle_raw_web_socket_request
  request-IsAllowed (sse h) m k s t start =
      proceed-IsAllowed m k s t (RequestMayCreate (sse h) m k)
        (read_sse_connect json driver registry h) _ (λ target e may. (target, e, may)) start
  request-IsAllowed (acts h) m k s t start =
      proxy_state (IsAllowed m k s (RequestMayCreate (acts h) m k))
        (proceed json driver registry (read_action json driver registry h)
          (λ encoding found. fresh_request json driver registry encoding h found) t)
        (proceed-IsAllowed m k s t (RequestMayCreate (acts h) m k)
          (read_action json driver registry h) _ (λ target e may. (target, e, may)) start)
  request-IsAllowed (resolves h) m k s t start =
      proceed-IsAllowed m k s t (RequestMayCreate (resolves h) m k)
        (read_resolve json driver registry h) _ (λ target e may. (target, e, may)) start
  request-IsAllowed (raw_http h) m k s t start =
      proxy_state (IsAllowed m k s (RequestMayCreate (raw_http h) m k))
        (proceed json driver registry (read_raw_http json driver registry h)
          (λ params found. record {
            actor_id = found.0;
            headers = raw_headers json driver registry h params found.1;
          })
          t)
        (proceed-IsAllowed m k s t (RequestMayCreate (raw_http h) m k)
          (read_raw_http json driver registry h) _ (λ target e may. (target, e, may)) start)
  request-IsAllowed (web_socket p) m k s t start =
      proceed-IsAllowed m k s t (RequestMayCreate (web_socket p) m k)
        (read_web_socket json driver registry p) _ (λ target e may. (target, e, may)) start
  request-IsAllowed (raw_web_socket p) m k s t start =
      proceed-IsAllowed m k s t (RequestMayCreate (raw_web_socket p) m k)
        (read_raw_web_socket json driver registry p) _ (λ target e may. (target, e, may)) start

  -- Whichever of the six requests that a client can make for an actor comes: an actor that exists
  -- afterwards existed before, or the driver does not tell it from that of the name and the key of
  -- the query that is read from the request, and the `onAuth` that the registry has for that name
  -- accepted the intents of the query, `create` among them, and of the request, with the parameters
  -- that are read from the request. The driver keeps its laws.
  pub created_was_authorized :
      (r : Request) (m : Text) (k : List Text) (s : S)
      → exists m k (state_after json driver registry r s) ≡ true
      → (exists m k s ≡ true) ⊎ RequestMayCreate r m k
  created_was_authorized r m k s = request-IsAllowed r m k s s (λ e. inl e)
