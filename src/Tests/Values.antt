-- ===== src/Tests/Values.antt =====
-- Values: what CBOR holds, and the stored form of an actor.
use rivetkit.Base.{
  ℕ, ◌+◌, ◌==◌, not, ◌≡◌, refl, true, false, none, some, [], ◌∷◌, is_empty, take, map, Text, codes,
}
use rivetkit.Serializable.{
  Value, number, array, object, no_items, item, no_fields, field, is_cbor_serializable,
}
use rivetkit.Serializable.Equivalence.{invalid_paths, is_cbor_serializable_lem}
use rivetkit.Actor.Stored.{
  PersistedActor, Cbor, convert_to_bare_persisted, convert_from_bare_persisted, filled,
  convert_from-convert_to,
}

abbrev string_of : Value → Text
string_of v = codes "key"

-- The digits of a number below ten.
abbrev digits : ℕ → Text
digits n = (48 + n) ∷ []

-- `{ a: [1, NaN], b: Infinity }`
abbrev value : Value
value = object (
    field (codes "a") (array (item (number true) (item (number false) no_items)))
      (field (codes "b") (number false) no_fields))

is_cbor_serializable_lem_example : is_cbor_serializable string_of digits value [] ≡ (
  is_empty (invalid_paths string_of digits value []),
  take 1 (invalid_paths string_of digits value []),
)
is_cbor_serializable_lem_example = is_cbor_serializable_lem string_of digits value []

value_run : is_cbor_serializable string_of digits value [] ≡ (false, codes "a[1]" ∷ [])
unfolding is_cbor_serializable
value_run = refl

-- A codec that writes numbers as they are; 0 is falsy, and 9 stands for the empty object.
abbrev cbor : Cbor ℕ ℕ
cbor = record { encode = λ v. v; decode = λ b. b; is_truthy = λ v. not (v == 0); empty_object = 9 }

abbrev persisted : PersistedActor ℕ ℕ
persisted = record {
  input = none;
  has_initiated = true;
  state = 5;
  connections =
      record {
        conn_id = codes "c";
        token = codes "t";
        conn_driver = codes "sse";
        conn_driver_state = 4;
        params = 0;
        state = 6;
        auth_data = some 0;
        subscriptions = codes "news" ∷ [];
        last_seen = 100;
      }
      ∷ [];
  scheduled_events =
      record { event_id = codes "e"; timestamp = 7; action_name = codes "run"; args = some 3 } ∷ [];
}

convert_from-convert_to_example :
    convert_from_bare_persisted cbor (convert_to_bare_persisted cbor persisted)
    ≡ record persisted { connections = map (filled cbor) persisted.connections }
convert_from-convert_to_example = convert_from-convert_to cbor (λ v. refl) persisted
