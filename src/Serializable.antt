-- ===== src/Serializable.antt =====
-- `isCborSerializable` of packages/rivetkit/src/common/utils.ts, which looks through a value for a
-- part that CBOR cannot hold. Values are trees; `String(value)` is an argument.
pub mod Equivalence
use rivetkit.Base.{
  ℕ, suc, Bool, true, false, List, [], ◌∷◌, ◌++◌, is_empty, if◌then◌else◌, Text, codes,
}

-- A JavaScript value, as far as the function tells values apart: `simple` are null, undefined,
-- Booleans, strings, bigints, dates, typed arrays, regular expressions and errors; a number is
-- finite or not; `unsupported` are functions and symbols.
mutual
  pub data Value : Type 0 where
    simple : Value
    number : Bool → Value
    js_map : Entries → Value
    js_set : Items → Value
    array : Items → Value
    object : Fields → Value
    unsupported : Value

  pub data Items : Type 0 where
    no_items : Items
    item : Value → Items → Items

  pub data Entries : Type 0 where
    no_entries : Entries
    entry : Value → Value → Entries → Entries

  pub data Fields : Type 0 where
    no_fields : Fields
    field : Text → Value → Fields → Fields

-- What a call returns, and the paths that it gave to `onInvalid`.
abbrev pub Checked : Type 0
Checked = Bool × List Text

abbrev pub invalid_at : Text → Checked
invalid_at path = (false, path ∷ [])

-- `if (!a || !b) return false`, and the rounds of the loops; the second runs only if the first held.
abbrev pub both : Checked → Checked → Checked
both (true, paths) (valid, rest) = (valid, paths ++ rest)
both (false, paths) b = (false, paths)

-- The path of a part: with the text in front of it where there is a path yet.
abbrev pub key_path : Text → Text → Text
key_path path key =
    if is_empty path
    then codes "key(" ++ key ++ codes ")"
    else path ++ codes ".key(" ++ key ++ codes ")"

abbrev pub value_path : Text → Text → Text
value_path path key =
    if is_empty path
    then codes "value(" ++ key ++ codes ")"
    else path ++ codes ".value(" ++ key ++ codes ")"

abbrev pub set_path : Text → Text → Text
set_path path index =
    if is_empty path
    then codes "set[" ++ index ++ codes "]"
    else path ++ codes ".set[" ++ index ++ codes "]"

abbrev pub index_path : Text → Text → Text
index_path path index = path ++ codes "[" ++ index ++ codes "]"

abbrev pub prop_path : Text → Text → Text
prop_path path key = if is_empty path then key else path ++ codes "." ++ key

module _ (string_of : Value → Text) (digits : ℕ → Text) where
  -- `isCborSerializable(value, onInvalid, currentPath)`
  unfoldable mutual
    pub is_cbor_serializable : Value → Text → Checked
    is_cbor_serializable simple path = (true, [])
    is_cbor_serializable (number true) path = (true, [])
    is_cbor_serializable (number false) path = invalid_at path
    is_cbor_serializable (js_map es) path = check_entries es path
    is_cbor_serializable (js_set vs) path = check_items (set_path path) 0 vs
    is_cbor_serializable (array vs) path = check_items (index_path path) 0 vs
    is_cbor_serializable (object fs) path = check_fields fs path
    is_cbor_serializable unsupported path = invalid_at path

    pub check_items : (Text → Text) → ℕ → Items → Checked
    check_items path_of i no_items = (true, [])
    check_items path_of i (item v vs) =
        both (is_cbor_serializable v (path_of (digits i))) (check_items path_of (suc i) vs)

    pub check_entries : Entries → Text → Checked
    check_entries no_entries path = (true, [])
    check_entries (entry k v es) path =
        both (is_cbor_serializable k (key_path path (string_of k)))
          (both (is_cbor_serializable v (value_path path (string_of k))) (check_entries es path))

    pub check_fields : Fields → Text → Checked
    check_fields no_fields path = (true, [])
    check_fields (field k v fs) path =
        both (is_cbor_serializable v (prop_path path k)) (check_fields fs path)
