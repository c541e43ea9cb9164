-- ===== src/Actor/Stored.antt =====
-- The stored form of an actor: `#convertToBarePersisted` and `#convertFromBarePersisted` of
-- packages/rivetkit/src/actor/instance.ts. CBOR is an argument, and so is which values are truthy.
use rivetkit.Base.{
  ℕ, Bool, ◌≡◌, refl, ap, Option, none, some, List, [], ◌∷◌, if◌then◌else◌, map, Text,
}

-- `PersistedConn`, over JavaScript values.
pub record PersistedConn (V : Type 0) : Type 0 where
  pub conn_id : Text
  pub token : Text
  pub conn_driver : Text
  pub conn_driver_state : V
  pub params : V
  pub state : V
  pub auth_data : Option V
  -- The names of `PersistedSubscription[]`.
  pub subscriptions : List Text
  pub last_seen : ℕ

-- `PersistedScheduleEvent`; the arguments are bytes already.
pub record PersistedScheduleEvent (B : Type 0) : Type 0 where
  pub event_id : Text
  pub timestamp : ℕ
  pub action_name : Text
  pub args : Option B

-- `PersistedActor`
pub record PersistedActor (V B : Type 0) : Type 0 where
  pub input : Option V
  pub has_initiated : Bool
  pub state : V
  pub connections : List (PersistedConn V)
  pub scheduled_events : List (PersistedScheduleEvent B)

-- The connections, events and actors of `bareSchema`.
pub record BareConn (B : Type 0) : Type 0 where
  pub id : Text
  pub token : Text
  pub driver : Text
  pub driver_state : B
  pub parameters : B
  pub state : B
  pub auth : Option B
  pub subscriptions : List Text
  pub last_seen : ℕ

pub record BareScheduleEvent (B : Type 0) : Type 0 where
  pub event_id : Text
  pub timestamp : ℕ
  pub action : Text
  pub args : Option B

pub record BareActor (B : Type 0) : Type 0 where
  pub input : Option B
  pub has_initialized : Bool
  pub state : B
  pub connections : List (BareConn B)
  pub scheduled_events : List (BareScheduleEvent B)

-- CBOR, the truthy values and `{}`.
pub record Cbor (V B : Type 0) : Type 0 where
  pub encode : V → B
  pub decode : B → V
  pub is_truthy : V → Bool
  pub empty_object : V

module _ {V B : Type 0} (cbor : Cbor V B) where
  -- `value || {}`
  abbrev pub or_empty : V → V
  or_empty v = if cbor.is_truthy v then v else cbor.empty_object

  abbrev pub encode_option : Option V → Option B
  encode_option none = none
  encode_option (some v) = some (cbor.encode v)

  abbrev pub decode_option : Option B → Option V
  decode_option none = none
  decode_option (some b) = some (cbor.decode b)

  unfoldable pub to_bare_conn : PersistedConn V → BareConn B
  to_bare_conn c = record {
    id = c.conn_id;
    token = c.token;
    driver = c.conn_driver;
    driver_state = cbor.encode (or_empty c.conn_driver_state);
    parameters = cbor.encode (or_empty c.params);
    state = cbor.encode (or_empty c.state);
    auth = encode_option c.auth_data;
    subscriptions = c.subscriptions;
    last_seen = c.last_seen;
  }

  unfoldable pub from_bare_conn : BareConn B → PersistedConn V
  from_bare_conn c = record {
    conn_id = c.id;
    token = c.token;
    conn_driver = c.driver;
    conn_driver_state = cbor.decode c.driver_state;
    params = cbor.decode c.parameters;
    state = cbor.decode c.state;
    auth_data = decode_option c.auth;
    subscriptions = c.subscriptions;
    last_seen = c.last_seen;
  }

  abbrev pub to_bare_event : PersistedScheduleEvent B → BareScheduleEvent B
  to_bare_event e = record {
    event_id = e.event_id;
    timestamp = e.timestamp;
    action = e.action_name;
    args = e.args;
  }

  abbrev pub from_bare_event : BareScheduleEvent B → PersistedScheduleEvent B
  from_bare_event e = record {
    event_id = e.event_id;
    timestamp = e.timestamp;
    action_name = e.action;
    args = e.args;
  }

  -- `#convertToBarePersisted`
  unfoldable pub convert_to_bare_persisted : PersistedActor V B → BareActor B
  unfolding to_bare_conn
  convert_to_bare_persisted p = record {
    input = encode_option p.input;
    has_initialized = p.has_initiated;
    state = cbor.encode p.state;
    connections = map to_bare_conn p.connections;
    scheduled_events = map to_bare_event p.scheduled_events;
  }

  -- `#convertFromBarePersisted`
  unfoldable pub convert_from_bare_persisted : BareActor B → PersistedActor V B
  unfolding from_bare_conn
  convert_from_bare_persisted b = record {
    input = decode_option b.input;
    has_initiated = b.has_initialized;
    state = cbor.decode b.state;
    connections = map from_bare_conn b.connections;
    scheduled_events = map from_bare_event b.scheduled_events;
  }

  -- A connection whose falsy values are empty objects.
  abbrev pub filled : PersistedConn V → PersistedConn V
  filled c = record c {
    conn_driver_state = or_empty c.conn_driver_state;
    params = or_empty c.params;
    state = or_empty c.state;
  }

  module _ (decode-encode : (v : V) → cbor.decode (cbor.encode v) ≡ v) where
    decode-encode_option : (o : Option V) → decode_option (encode_option o) ≡ o
    decode-encode_option none = refl
    decode-encode_option (some v) = ap (λ x. some x) (decode-encode v)

    from-to_bare_conn : (c : PersistedConn V) → from_bare_conn (to_bare_conn c) ≡ filled c
    unfolding from_bare_conn to_bare_conn
    from-to_bare_conn c = rw (
      decode-encode (or_empty c.conn_driver_state),
      decode-encode (or_empty c.params),
      decode-encode (or_empty c.state),
      decode-encode_option c.auth_data,
    )

    from-to_bare_conns :
        (cs : List (PersistedConn V)) → map from_bare_conn (map to_bare_conn cs) ≡ map filled cs
    from-to_bare_conns [] = refl
    from-to_bare_conns (c ∷ cs) = rw (from-to_bare_conn c, from-to_bare_conns cs)

    from-to_bare_events :
        (es : List (PersistedScheduleEvent B)) → map from_bare_event (map to_bare_event es) ≡ es
    from-to_bare_events [] = refl
    from-to_bare_events (e ∷ es) = ap (λ r. e ∷ r) (from-to_bare_events es)

    -- If CBOR decodes what it encodes, then an actor that is stored is read back as it was, but
    -- that a connection's driver state, parameters and state come back as the empty object where
    -- they were falsy, as 0, false or the empty string are.
    pub convert_from-convert_to :
        (p : PersistedActor V B)
        → convert_from_bare_persisted (convert_to_bare_persisted p)
          ≡ record p { connections = map filled p.connections }
    unfolding convert_from_bare_persisted convert_to_bare_persisted
    convert_from-convert_to p = rw (
      decode-encode_option p.input,
      decode-encode p.state,
      from-to_bare_conns p.connections,
      from-to_bare_events p.scheduled_events,
    )
