-- ===== src/Keys/Cloudflare.antt =====
-- `serializeNameAndKey`, `serializeKey` and `deserializeKey` of
-- packages/cloudflare-workers/src/util.ts.
use rivetkit.Base.{
  ℕ, Bool, true, false, not, ◌||◌, List, [], ◌∷◌, ◌++◌, map, ◌==◌, if◌then◌else◌, Text, codes,
  text_eq, replace_all, join, is_empty,
}

abbrev pub backslash : ℕ
backslash = b'\\'

abbrev pub key_separator : ℕ
key_separator = b','

abbrev pub empty_key : Text
empty_key = codes "(none)"

-- The function that `key.map` is given.
unfoldable pub escape_part : Text → Text
escape_part part =
    if text_eq part empty_key
    then backslash ∷ empty_key
    else replace_all b',' (codes "\\,") (replace_all backslash (codes "\\\\") part)

unfoldable pub serialize_key : List Text → Text
unfolding escape_part
serialize_key [] = empty_key
serialize_key (p ∷ ps) = join (map escape_part (p ∷ ps)) key_separator

unfoldable pub escape_name : Text → Text
escape_name name = replace_all b':' (codes "\\:") name

unfoldable pub serialize_name_and_key : Text → List Text → Text
unfolding escape_name serialize_key
serialize_name_and_key name key =
    if is_empty key
    then escape_name name ++ b':' ∷ empty_key
    else escape_name name ++ b':' ∷ serialize_key key

-- The variables of the loop of `deserializeKey`.
pub record Reader : Type 0 where
  pub parts : List Text
  pub current_part : Text
  pub escaping : Bool

abbrev pub start : Reader
start = record { parts = []; current_part = []; escaping = false }

-- One round of the loop.
unfoldable pub read_char : Reader → ℕ → Reader
read_char r c =
    if r.escaping
    then record r { current_part = r.current_part ++ c ∷ []; escaping = false }
    else if c == backslash
    then record r { escaping = true }
    else if c == key_separator
    then record r { parts = r.parts ++ r.current_part ∷ []; current_part = [] }
    else record r { current_part = r.current_part ++ c ∷ [] }

unfoldable pub read : Reader → Text → Reader
unfolding read_char
read r [] = r
read r (c ∷ s) = read (read_char r c) s

-- What follows the loop.
unfoldable pub finish : Reader → List Text
finish r =
    if not (is_empty r.current_part) || not (is_empty r.parts)
    then r.parts ++ r.current_part ∷ []
    else r.parts

unfoldable pub deserialize_key : Text → List Text
unfolding read finish
deserialize_key s =
    if is_empty s then [] else if text_eq s empty_key then [] else finish (read start s)
