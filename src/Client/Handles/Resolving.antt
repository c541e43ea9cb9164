-- ===== src/Client/Handles/Resolving.antt =====
-- What handles know after `resolve`, and what the manager's state is after `create` and `resolve` of
-- a client over HTTP.
use rivetkit.Base.{Bool, true, ◌≡◌, refl, ◌∙◌, Option, List, [], ◌⊎◌, inl, Text}
use mathlib.Core.Path.{subst}
use rivetkit.Serde.{Encoding}
use rivetkit.Errors.{Thrown}
use rivetkit.Manager.{
  ActorQuery, get_for_id, get_for_key, get_or_create_for_key, create_for_key, ManagerDriver,
  Registry, Json, ManagerError, authorize,
}
use rivetkit.Manager.Requests.{DriverLaws}
use rivetkit.Manager.Authorizing.{MayCreate, authorize-IsAllowed}
use rivetkit.Client.Http.{Outcome, ok, err, and_then, Platform, HttpRequest}
use rivetkit.Client.Http.Requests.{Browser, action, resolve_actor_id}
use rivetkit.Client.Http.Routes.{JsonReads, params_value}
use rivetkit.Client.Http.Answers.{ServerFormats}
use rivetkit.Client.Http.Serving.{serve_resolve, resolve_actor_id_state}
use rivetkit.Client.Handles.{
  ClientDriver, ClientRaw, ActorHandle, KeyInput, CreateOptions, key_array, resolved, create_handle,
  resolve, handle_action, client_create,
}

-- The name in a query.
abbrev pub query_name : {V : Type 0} → ActorQuery V → Text
query_name (get_for_id name id) = name
query_name (get_for_key name key) = name
query_name (get_or_create_for_key name key input region) = name
query_name (create_for_key name key input region) = name

-- The handle that a resolution leaves.
abbrev pub settled : {V : Type 0} → ActorHandle V → Outcome V Text → ActorHandle V
settled handle (ok id) = record handle {
  actor_query = get_for_id (query_name handle.actor_query) id;
}
settled handle (err e) = handle

module _ {S V : Type 0} (driver : ClientDriver S V) where
  resolved_settled :
      (handle : ActorHandle V) (r : S × Outcome V Text)
      → (resolved driver (query_name handle.actor_query) handle r).0
        ≡ settled handle (resolved driver (query_name handle.actor_query) handle r).1.1
  resolved_settled handle (s, ok id) = refl
  resolved_settled handle (s, err e) = refl

  settles :
      (params : Option V) (e : Encoding) (q : ActorQuery V) (s : S)
      → let handle : ActorHandle V = record {
        params = params;
        encoding_kind = e;
        actor_query = q;
      } in
        (resolve driver handle s).0 ≡ settled handle (resolve driver handle s).1.1
  unfolding resolve
  settles params e (get_for_id name id) s = refl
  settles params e (get_for_key name key) s =
      resolved_settled
        (record { params = params; encoding_kind = e; actor_query = get_for_key name key })
        (driver.resolve_actor_id (get_for_key name key) e params s)
  settles params e (get_or_create_for_key name key input region) s =
      resolved_settled
        (record {
          params = params;
          encoding_kind = e;
          actor_query = get_or_create_for_key name key input region;
        })
        (driver.resolve_actor_id (get_or_create_for_key name key input region) e params s)
  settles params e (create_for_key name key input region) s = refl

  -- A handle that is resolved keeps the id in its query, and stays as it is where that fails. Once
  -- it has an id, resolving it again returns that id without a request, and its actions go to the
  -- actor of that id.
  pub resolve_lem :
      (handle : ActorHandle V) (s : S)
      → let left : ActorHandle V = (resolve driver handle s).0 in
        (left ≡ settled handle (resolve driver handle s).1.1)
        × ((id : Text) (t : S)
            → resolve driver (settled handle (ok id)) t ≡ (settled handle (ok id), (t, ok id)))
        × ((id name : Text) (args : V) (t : S)
            → handle_action driver name args (settled handle (ok id)) t
              ≡ driver.action
                  (get_for_id (query_name handle.actor_query) id)
                  handle.encoding_kind
                  handle.params
                  name
                  args
                  t)
  unfolding resolve handle_action
  resolve_lem handle s = (
    settles handle.params handle.encoding_kind handle.actor_query s,
    λ id t. refl,
    λ id name args t. refl,
  )

module _ {S V Message : Type 0} (platform : Platform S V) (browser : Browser V Message) where
  -- `createHttpClientDriver`, as far as handles use it.
  abbrev pub http_driver : ClientDriver S V
  http_driver = record {
    action = action platform browser;
    resolve_actor_id = resolve_actor_id platform browser;
  }

  and_then-keeps :
      {A B : Type 0} (r : S × Outcome V A) (f : A → B) → (and_then r (λ a t. (t, ok (f a)))).0 ≡ r.0
  and_then-keeps (s, ok a) f = refl
  and_then-keeps (s, err e) f = refl

  create_state :
      (client : ClientRaw V) (name : Text) (key : KeyInput) (opts : CreateOptions V) (s : S)
      → (client_create http_driver client name key opts s).0
        ≡ (resolve_actor_id platform browser
            (create_for_key name (key_array key) opts.input opts.region)
            client.encoding_kind
            opts.params
            s).0
  unfolding client_create
  create_state client name key opts s =
      and_then-keeps
        (resolve_actor_id platform browser
          (create_for_key name (key_array key) opts.input opts.region) client.encoding_kind
          opts.params s)
        (λ id. create_handle client opts.params (get_for_id name id))

  module _ (js : Json V) (driver : ManagerDriver S V) (registry : Registry V)
      (server : ServerFormats) (report : ManagerError → Thrown)
      (exists : Text → List Text → S → Bool) (Same : Text → List Text → Text → List Text → Type 0)
      (laws : DriverLaws driver exists Same) where
    -- Where `fetch` reaches the manager's route of resolving, and the manager's driver keeps its
    -- laws: an actor that exists after a client's `create` existed before, or the driver does not
    -- tell it from that of the name and the key that were given, and the `onAuth` that the registry
    -- has for that name accepted the intent to create with the parameters that were given. `JSON`
    -- reads back the query and the parameters that it wrote.
    pub client_create_was_authorized :
        (client : ClientRaw V) (name : Text) (key : KeyInput) (opts : CreateOptions V) (m : Text)
        (k : List Text) (s : S)
        → let query = create_for_key name (key_array key) opts.input opts.region in
          JsonReads js browser query opts.params
          → ((request : HttpRequest) (t : S)
              → platform.fetch request t
                ≡ serve_resolve js driver registry server browser.resolve_response report request t)
          → exists m k (client_create http_driver client name key opts s).0 ≡ true
          → (exists m k s ≡ true)
            ⊎ MayCreate js driver registry exists Same laws query []
                (params_value js opts.params)
                m
                k
    client_create_was_authorized client name key opts m k s r fetches h =
        let query = create_for_key name (key_array key) opts.input opts.region in
        let same : (client_create http_driver client name key opts s).0
            ≡ (authorize js driver registry query [] (params_value js opts.params) s).0 =
          create_state client name key opts s
          ∙ resolve_actor_id_state platform browser js driver registry server report
              (λ m. js.undefined) query client.encoding_kind opts.params s r fetches in
        authorize-IsAllowed js driver registry exists Same laws m k s _ query []
          (params_value js opts.params) s (λ e. inl e) (λ may. may)
          (subst (λ t. exists m k t ≡ true) same h)
