-- ===== src/Serializable/Equivalence.antt =====
-- The search finds the first of all parts that are invalid.
use rivetkit.Base.{ℕ, suc, true, false, ◌≡◌, refl, List, [], ◌∷◌, ◌++◌, is_empty, take, Text}
use rivetkit.Serializable.{
  Value, simple, number, js_map, js_set, array, object, unsupported, Items, no_items, item, Entries,
  no_entries, entry, Fields, no_fields, field, Checked, both, key_path, value_path, set_path,
  index_path, prop_path, is_cbor_serializable, check_items, check_entries, check_fields,
}

module _ (string_of : Value → Text) (digits : ℕ → Text) where
  -- The paths of all invalid parts of a value, from the front.
  unfoldable mutual
    pub invalid_paths : Value → Text → List Text
    invalid_paths simple path = []
    invalid_paths (number true) path = []
    invalid_paths (number false) path = path ∷ []
    invalid_paths (js_map es) path = invalid_entries es path
    invalid_paths (js_set vs) path = invalid_items (set_path path) 0 vs
    invalid_paths (array vs) path = invalid_items (index_path path) 0 vs
    invalid_paths (object fs) path = invalid_fields fs path
    invalid_paths unsupported path = path ∷ []

    pub invalid_items : (Text → Text) → ℕ → Items → List Text
    invalid_items path_of i no_items = []
    invalid_items path_of i (item v vs) =
        invalid_paths v (path_of (digits i)) ++ invalid_items path_of (suc i) vs

    pub invalid_entries : Entries → Text → List Text
    invalid_entries no_entries path = []
    invalid_entries (entry k v es) path =
        invalid_paths k (key_path path (string_of k))
        ++ (invalid_paths v (value_path path (string_of k)) ++ invalid_entries es path)

    pub invalid_fields : Fields → Text → List Text
    invalid_fields no_fields path = []
    invalid_fields (field k v fs) path =
        invalid_paths v (prop_path path k) ++ invalid_fields fs path

  -- What a search says that stops at the first of these paths.
  abbrev pub first_of : List Text → Checked
  first_of paths = (is_empty paths, take 1 paths)

  both-first_of : (a b : List Text) → both (first_of a) (first_of b) ≡ first_of (a ++ b)
  both-first_of [] b = refl
  both-first_of (p ∷ a) b = refl

  both_first :
      {r s : Checked} (a b : List Text)
      → r ≡ first_of a
      → s ≡ first_of b
      → both r s ≡ first_of (a ++ b)
  both_first a b e f = rw (e, f) (both-first_of a b)

  mutual
    unfolding is_cbor_serializable invalid_paths

    check_value-first_of :
        (v : Value) (path : Text)
        → is_cbor_serializable string_of digits v path ≡ first_of (invalid_paths v path)
    check_value-first_of simple path = refl
    check_value-first_of (number true) path = refl
    check_value-first_of (number false) path = refl
    check_value-first_of (js_map es) path = check_entries-first_of es path
    check_value-first_of (js_set vs) path = check_items-first_of (set_path path) 0 vs
    check_value-first_of (array vs) path = check_items-first_of (index_path path) 0 vs
    check_value-first_of (object fs) path = check_fields-first_of fs path
    check_value-first_of unsupported path = refl

    check_items-first_of :
        (path_of : Text → Text) (i : ℕ) (vs : Items)
        → check_items string_of digits path_of i vs ≡ first_of (invalid_items path_of i vs)
    check_items-first_of path_of i no_items = refl
    check_items-first_of path_of i (item v vs) =
        both_first _ _ (check_value-first_of v (path_of (digits i)))
          (check_items-first_of path_of (suc i) vs)

    check_entries-first_of :
        (es : Entries) (path : Text)
        → check_entries string_of digits es path ≡ first_of (invalid_entries es path)
    check_entries-first_of no_entries path = refl
    check_entries-first_of (entry k v es) path =
        both_first _ _ (check_value-first_of k (key_path path (string_of k))) (
          both_first _ _ (check_value-first_of v (value_path path (string_of k)))
            (check_entries-first_of es path))

    check_fields-first_of :
        (fs : Fields) (path : Text)
        → check_fields string_of digits fs path ≡ first_of (invalid_fields fs path)
    check_fields-first_of no_fields path = refl
    check_fields-first_of (field k v fs) path =
        both_first _ _ (check_value-first_of v (prop_path path k)) (check_fields-first_of fs path)

  -- The search says that a value is serializable exactly if no part of it is invalid, and
  -- otherwise reports one path, that of the first invalid part: the keys of a map before their
  -- values, everything from the front.
  pub is_cbor_serializable_lem :
      (v : Value) (path : Text)
      → is_cbor_serializable string_of digits v path
        ≡ (is_empty (invalid_paths v path), take 1 (invalid_paths v path))
  is_cbor_serializable_lem v path = check_value-first_of v path
