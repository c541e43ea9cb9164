-- ===== src/Keys/Engine.antt =====
-- `serializeActorKey` and `deserializeActorKey` of packages/rivetkit/src/drivers/engine/keys.ts.
use rivetkit.Base.{
  ℕ, Bool, true, false, not, ◌||◌, Option, none, some, List, [], ◌∷◌, ◌++◌, map, ◌==◌,
  if◌then◌else◌, Text, codes, text_eq, replace_all, join, is_empty,
}

abbrev pub backslash : ℕ
backslash = b'\\'

abbrev pub key_separator : ℕ
key_separator = b'/'

abbrev pub empty_key : Text
empty_key = codes "/"

-- An actor key is an array of strings.
abbrev pub ActorKey : Type 0
ActorKey = List Text

-- The function that `key.map` is given.
unfoldable pub escape_part : Text → Text
escape_part [] = codes "\\0"
escape_part (c ∷ s) =
    let escaped = replace_all backslash (codes "\\\\") (c ∷ s) in
    replace_all b'/' (backslash ∷ key_separator ∷ []) escaped

unfoldable pub serialize_actor_key : ActorKey → Text
unfolding escape_part
serialize_actor_key [] = empty_key
serialize_actor_key (p ∷ ps) = join (map escape_part (p ∷ ps)) key_separator

-- The variables of the loop of `deserializeActorKey`.
pub record Reader : Type 0 where
  pub parts : List Text
  pub current_part : Text
  pub escaping : Bool
  pub is_empty_string_marker : Bool

abbrev pub start : Reader
start = record { parts = []; current_part = []; escaping = false; is_empty_string_marker = false }

-- One round of the loop.
unfoldable pub read_char : Reader → ℕ → Reader
read_char r c =
    if r.escaping
    then (if c == b'0'
        then record r { escaping = false; is_empty_string_marker = true }
        else record r { current_part = r.current_part ++ c ∷ []; escaping = false })
    else if c == backslash
    then record r { escaping = true }
    else if c == key_separator
    then record r {
      parts = r.parts ++ (if r.is_empty_string_marker then [] else r.current_part) ∷ [];
      current_part = [];
      is_empty_string_marker = false;
    }
    else record r { current_part = r.current_part ++ c ∷ [] }

unfoldable pub read : Reader → Text → Reader
unfolding read_char
read r [] = r
read r (c ∷ s) = read (read_char r c) s

-- What follows the loop.
unfoldable pub finish : Reader → ActorKey
finish r =
    if r.escaping
    then r.parts ++ (r.current_part ++ backslash ∷ []) ∷ []
    else if r.is_empty_string_marker
    then r.parts ++ [] ∷ []
    else if not (is_empty r.current_part) || not (is_empty r.parts)
    then r.parts ++ r.current_part ∷ []
    else r.parts

-- `none` is an undefined key string.
unfoldable pub deserialize_actor_key : Option Text → ActorKey
unfolding read finish
deserialize_actor_key none = []
deserialize_actor_key (some s) = if text_eq s empty_key then [] else finish (read start s)
