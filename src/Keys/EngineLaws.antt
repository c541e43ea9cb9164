-- ===== src/Keys/EngineLaws.antt =====
-- The engine driver's key strings and what is read back from them.
use rivetkit.Base.{
  ℕ, false, ◌≡◌, refl, sym, ap, ◌∙◌, inl, inr, some, List, [], ◌∷◌, ◌++◌, map, append_assoc,
  append-nil, arith, ◌==◌, Text, codes, text_eq, text_eq→eq, Bool-cases, join, replace_all,
  replace_all-append, if◌then◌else◌, is_empty,
}
use rivetkit.Keys.Engine.{
  Reader, read_char, read, finish, start, escape_part, serialize_actor_key, deserialize_actor_key,
  empty_key, ActorKey, key_separator, backslash,
}

pub read-append : (r : Reader) (s t : Text) → read r (s ++ t) ≡ read (read r s) t
unfolding read
read-append r [] t = refl
read-append r (c ∷ s) t = read-append (read_char r c) s t

-- The reader outside an escape and behind no marker.
abbrev reading : List Text → Text → Reader
reading parts cur = record {
  parts = parts;
  current_part = cur;
  escaping = false;
  is_empty_string_marker = false;
}

-- The text of a non-empty part, as one pass.
hide : Text → Text
hide s = replace_all b'/' (codes "\\/") (replace_all backslash (codes "\\\\") s)

hide_char : ℕ → Text
hide_char c = if c == backslash then codes "\\\\" else if c == b'/' then codes "\\/" else c ∷ []

hide_cons : (c : ℕ) (s : Text) → hide (c ∷ s) ≡ hide_char c ++ hide s
unfolding hide hide_char
hide_cons c s = rw replace_all-append (elim (Bool-cases (c == backslash)) [
  | inl e ↦ rw e refl
  | inr e ↦ rw e (elim (Bool-cases (c == b'/')) [ inl f ↦ rw f refl | inr f ↦ rw f refl ])
])

read-hide_char :
    (c : ℕ) (parts : List Text) (cur : Text)
    → read (reading parts cur) (hide_char c) ≡ reading parts (cur ++ c ∷ [])
unfolding hide_char read
read-hide_char c parts cur = ground arith

-- A written part is read back behind what was read before it.
read-hide :
    (parts : List Text) (cur s : Text)
    → read (reading parts cur) (hide s) ≡ reading parts (cur ++ s)
read-hide parts cur [] = unfold hide read in rw append-nil
read-hide parts cur (c ∷ s) =
    rw (hide_cons, read-append, read-hide_char, read-hide parts (cur ++ c ∷ []) s, append_assoc)

-- The reader behind the written part `p`, with no separator read yet.
abbrev ended : List Text → Text → Reader
ended parts p = record {
  parts = parts;
  current_part = p;
  escaping = false;
  is_empty_string_marker = is_empty p;
}

read-escape_part :
    (parts : List Text) (p : Text) → read (reading parts []) (escape_part p) ≡ ended parts p
read-escape_part parts [] = unfold escape_part read in refl
read-escape_part parts (c ∷ s) = unfold escape_part hide in read-hide parts [] (c ∷ s)

read_char_separator :
    (parts : List Text) (p : Text)
    → read_char (ended parts p) key_separator ≡ reading (parts ++ p ∷ []) []
unfolding read_char
read_char_separator parts [] = refl
read_char_separator parts (c ∷ s) = refl

finish-ended : (parts : List Text) (p : Text) → finish (ended parts p) ≡ parts ++ p ∷ []
unfolding finish
finish-ended parts [] = refl
finish-ended parts (c ∷ s) = refl

read_separator :
    (r : Reader) (s : Text) → read r (key_separator ∷ s) ≡ read (read_char r key_separator) s
unfolding read
read_separator r s = refl

finish-read-join :
    (parts : List Text) (p : Text) (ps : List Text)
    → finish (read (reading parts []) (join (map escape_part (p ∷ ps)) key_separator))
      ≡ parts ++ p ∷ ps
finish-read-join parts p [] = rw (read-escape_part, finish-ended)
finish-read-join parts p (q ∷ ps) = rw (
  read-append,
  read-escape_part,
  read_separator,
  read_char_separator,
  finish-read-join (parts ++ p ∷ []) q ps,
  append_assoc,
)

-- Read as parts, the marker would be the key of two empty strings, which is written otherwise.
two_empty_parts :
    (p : Text) (ps : List Text) → join (map escape_part (p ∷ ps)) key_separator ≡ empty_key → ⊥
two_empty_parts p ps e =
    let read_back : p ∷ ps ≡ [] ∷ [] ∷ [] =
      sym (finish-read-join [] p ps)
      ∙ ap (λ s. finish (read start s)) e
      ∙ (unfold finish read in refl) in
    let text : empty_key ≡ codes "\\0/\\0" =
      sym e
      ∙ ap (λ k. join (map escape_part k) key_separator) read_back
      ∙ (unfold escape_part in refl) in
    cc text

-- The marker of the empty key is not the text of another key.
serialize-ne-empty_key :
    (p : Text) (ps : List Text)
    → text_eq (join (map escape_part (p ∷ ps)) key_separator) empty_key ≡ false
serialize-ne-empty_key p ps =
    elim (Bool-cases (text_eq (join (map escape_part (p ∷ ps)) key_separator) empty_key)) [
      | inr e ↦ e
      | inl e ↦ absurd (two_empty_parts p ps (text_eq→eq _ _ e))
    ]

-- A key that was written is read back, whatever its parts hold.
pub deserialize_actor_key-serialize_actor_key :
    (key : ActorKey) → deserialize_actor_key (some (serialize_actor_key key)) ≡ key
unfolding deserialize_actor_key serialize_actor_key
deserialize_actor_key-serialize_actor_key [] = refl
deserialize_actor_key-serialize_actor_key (p ∷ ps) =
    rw (serialize-ne-empty_key p ps) (finish-read-join [] p ps)

-- Two actor keys with the same text are the same key.
pub serialize_actor_key-injective :
    (a b : ActorKey) → serialize_actor_key a ≡ serialize_actor_key b → a ≡ b
serialize_actor_key-injective a b e =
    cc (deserialize_actor_key-serialize_actor_key a, deserialize_actor_key-serialize_actor_key b)
