-- ===== src/Tests/Keys.antt =====
-- Actor keys and names: packages/rivetkit/src/drivers/engine/keys.ts and
-- packages/cloudflare-workers/src/util.ts.
use rivetkit.Base.{◌≡◌, ◌≢◌, refl, some, List, [], ◌∷◌, Text, codes, arith}
use rivetkit.Keys.Engine.{serialize_actor_key, deserialize_actor_key}
use rivetkit.Keys.EngineLaws.{deserialize_actor_key-serialize_actor_key}
use rivetkit.Keys.Cloudflare.{serialize_key, deserialize_key, empty_key, backslash}
use rivetkit.Keys.CloudflareLaws.{deserialize_key-serialize_key}
use rivetkit.Keys.NameLaws.{Lacks}

abbrev key : List Text
key = codes "a/b" ∷ [] ∷ codes "\\0," ∷ []

serialize_actor_key_run : serialize_actor_key key ≡ codes "a\\/b/\\0/\\\\0,"
unfolding serialize_actor_key
serialize_actor_key_run = refl

deserialize_actor_key-serialize_actor_key_example :
    deserialize_actor_key (some (serialize_actor_key key)) ≡ key
deserialize_actor_key-serialize_actor_key_example = deserialize_actor_key-serialize_actor_key key

key-ne-one_empty : key ≢ [] ∷ []
key-ne-one_empty h = cc

deserialize_key-serialize_key_example : deserialize_key (serialize_key key) ≡ key
deserialize_key-serialize_key_example = deserialize_key-serialize_key key key-ne-one_empty

-- The source's own example of a key that looks like the marker of the empty key.
serialize_key_run : serialize_key (empty_key ∷ []) ≡ codes "\\(none)"
unfolding serialize_key
serialize_key_run = refl

counter-Lacks : Lacks backslash (codes "a:b")
counter-Lacks = ground arith

b-ne-empty_key : codes "b" ≢ empty_key
b-ne-empty_key h = cc
