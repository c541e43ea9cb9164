-- ===== src/Client/Handles.antt =====
-- `ClientRaw` of packages/rivetkit/src/client/client.ts and `ActorHandleRaw` of
-- client/actor-handle.ts, over a driver that is an interface.
pub mod Resolving
pub mod Disposing
use rivetkit.Base.{
  ℕ, ◌+◌, Bool, true, false, Option, none, some, List, [], ◌∷◌, ◌++◌, if◌then◌else◌, Text, Dict,
  lookup, insert, add, remove,
}
use rivetkit.Serde.{Encoding, bare}
use rivetkit.Manager.{ActorQuery, get_for_id, get_for_key, get_or_create_for_key, create_for_key}
use rivetkit.Client.Http.{invariant_violation, Outcome, ok, err, and_then}

-- `ClientDriver`, as far as handles use it, on states `S` of the network.
pub record ClientDriver (S V : Type 0) : Type 0 where
  pub action : ActorQuery V → Encoding → Option V → Text → V → S → S × Outcome V V
  pub resolve_actor_id : ActorQuery V → Encoding → Option V → S → S × Outcome V Text

pub data Transport : Type 0 where
  websocket sse : Transport

-- `ClientOptions`
pub record ClientOptions : Type 0 where
  pub encoding : Option Encoding
  pub transport : Option Transport

-- `key?: string | string[]`
pub data KeyInput : Type 0 where
  no_key : KeyInput
  one_key : Text → KeyInput
  key_parts : List Text → KeyInput

-- The options of the accessors, less the signal.
pub record CreateOptions (V : Type 0) : Type 0 where
  pub params : Option V
  pub region : Option Text
  pub input : Option V

-- `ActorConnRaw`, as far as the client sees it.
pub record ConnObject (V : Type 0) : Type 0 where
  pub actor_query : ActorQuery V
  pub params : Option V
  pub encoding : Encoding
  pub connect_called : Bool
  pub disposed : Bool

-- `ClientRaw`, with all connections that it opened, by identifiers of the objects.
pub record ClientRaw (V : Type 0) : Type 0 where
  pub disposed : Bool
  -- `[ACTOR_CONNS_SYMBOL]`
  pub actor_conns : List ℕ
  pub encoding_kind : Encoding
  pub transport : Transport
  pub objects : Dict (ConnObject V)
  pub next_object : ℕ
  -- The connections that were disposed, in order, once for each time that it took place.
  pub closed : List ℕ

-- `ActorHandleRaw`
pub record ActorHandle (V : Type 0) : Type 0 where
  pub params : Option V
  pub encoding_kind : Encoding
  pub actor_query : ActorQuery V

-- `typeof key === "string" ? [key] : key || []`
abbrev pub key_array : KeyInput → List Text
key_array no_key = []
key_array (one_key t) = t ∷ []
key_array (key_parts parts) = parts

abbrev or_default : {A : Type 0} → A → Option A → A
or_default a none = a
or_default a (some b) = b

module _ {V : Type 0} where
  -- The constructor of `ClientRaw`.
  unfoldable pub new_client : ClientOptions → ClientRaw V
  new_client opts = record {
    disposed = false;
    actor_conns = [];
    encoding_kind = or_default bare opts.encoding;
    transport = or_default websocket opts.transport;
    objects = [];
    next_object = 0;
    closed = [];
  }

  -- `#createHandle`
  abbrev pub create_handle : ClientRaw V → Option V → ActorQuery V → ActorHandle V
  create_handle client params query = record {
    params = params;
    encoding_kind = client.encoding_kind;
    actor_query = query;
  }

  -- `getForId`
  unfoldable pub client_get_for_id : ClientRaw V → Text → Text → Option V → ActorHandle V
  client_get_for_id client name id params = create_handle client params (get_for_id name id)

  -- `get`
  unfoldable pub client_get : ClientRaw V → Text → KeyInput → Option V → ActorHandle V
  client_get client name key params = create_handle client params (get_for_key name (key_array key))

  -- `getOrCreate`
  unfoldable pub client_get_or_create :
      ClientRaw V → Text → KeyInput → CreateOptions V → ActorHandle V
  client_get_or_create client name key opts =
      create_handle client opts.params
        (get_or_create_for_key name (key_array key) opts.input opts.region)

  -- `create`. The options that the source spreads into the query have the parameters among them,
  -- which the schema of queries drops.
  unfoldable pub client_create :
      {S : Type 0}
      → ClientDriver S V
      → ClientRaw V
      → Text
      → KeyInput
      → CreateOptions V
      → S
      → S × Outcome V (ActorHandle V)
  client_create driver client name key opts s =
      and_then
        (driver.resolve_actor_id (create_for_key name (key_array key) opts.input opts.region)
          client.encoding_kind opts.params s)
        (λ id t. (t, ok (create_handle client opts.params (get_for_id name id))))

  -- The object that `connect` of a handle makes, which `[CONNECT_SYMBOL]` starts.
  abbrev pub opened : ActorHandle V → ConnObject V
  opened handle = record {
    actor_query = handle.actor_query;
    params = handle.params;
    encoding = handle.encoding_kind;
    connect_called = true;
    disposed = false;
  }

  -- `connect` of a handle with `[CREATE_ACTOR_CONN_PROXY]`: the connection is kept and connects.
  unfoldable pub connect : ActorHandle V → ClientRaw V → ClientRaw V
  connect handle client =
      let id = client.next_object in
      record client {
        actor_conns = add id client.actor_conns;
        objects = insert id (opened handle) client.objects;
        next_object = id + 1;
      }

  -- `dispose` of a connection.
  unfoldable pub dispose_conn : ℕ → ClientRaw V → ClientRaw V
  dispose_conn id client = elim (lookup id client.objects) [
    | none ↦ client
    | some conn ↦ if conn.disposed then client else record client {
      actor_conns = remove id client.actor_conns;
      objects = insert id (record conn { disposed = true }) client.objects;
      closed = client.closed ++ id ∷ [];
    }
  ]

  -- The loop of `dispose`. A set that loses the value it is at goes on with the next.
  unfoldable pub dispose_conns : List ℕ → ClientRaw V → ClientRaw V
  unfolding dispose_conn
  dispose_conns [] client = client
  dispose_conns (id ∷ ids) client = dispose_conns ids (dispose_conn id client)

  -- `dispose` of the client.
  unfoldable pub dispose : ClientRaw V → ClientRaw V
  unfolding dispose_conns
  dispose client =
      if client.disposed
      then client
      else dispose_conns client.actor_conns (record client { disposed = true })

module _ {S V : Type 0} (driver : ClientDriver S V) where
  -- `action` of a handle.
  unfoldable pub handle_action : Text → V → ActorHandle V → S → S × Outcome V V
  handle_action name args handle s =
      driver.action handle.actor_query handle.encoding_kind handle.params name args s

  -- A resolved handle.
  abbrev pub resolved :
      Text → ActorHandle V → S × Outcome V Text → ActorHandle V × (S × Outcome V Text)
  resolved name handle (s, ok id) = (record handle { actor_query = get_for_id name id }, (s, ok id))
  resolved name handle (s, err e) = (handle, (s, err e))

  -- `resolve`: the handle that is left, and the id.
  unfoldable pub resolve : ActorHandle V → S → ActorHandle V × (S × Outcome V Text)
  resolve handle s = elim handle.actor_query [
    | get_for_key name key ↦
        resolved name handle
          (driver.resolve_actor_id (get_for_key name key) handle.encoding_kind handle.params s)
    | get_or_create_for_key name key input region ↦ resolved name handle (
        driver.resolve_actor_id (get_or_create_for_key name key input region) handle.encoding_kind
          handle.params s)
    | get_for_id name id ↦ (handle, (s, ok id))
    | create_for_key name key input region ↦ (handle, (s, err invariant_violation))
  ]
