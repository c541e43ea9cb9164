-- ===== src/Keys/CloudflareLaws.antt =====
-- Keys of Durable Objects are read back, but for the key of one empty string.
use rivetkit.Base.{
  ℕ, Bool, false, ◌≡◌, ◌≢◌, refl, sym, ap, ◌∙◌, inl, inr, List, [], ◌∷◌, ◌++◌, map, append_assoc,
  append-nil, arith, ◌==◌, Text, codes, text_eq, text_eq→eq, Bool-cases, join, replace_all,
  replace_all-append, if◌then◌else◌, is_empty,
}
use rivetkit.Keys.Cloudflare.{
  Reader, read_char, read, finish, start, escape_part, serialize_key, deserialize_key, empty_key,
  key_separator, backslash,
}

read-append : (r : Reader) (s t : Text) → read r (s ++ t) ≡ read (read r s) t
unfolding read
read-append r [] t = refl
read-append r (c ∷ s) t = read-append (read_char r c) s t

-- The reader outside an escape.
abbrev reading : List Text → Text → Reader
reading parts cur = record { parts = parts; current_part = cur; escaping = false }

-- The text of a part that is not the marker, as one pass.
hide : Text → Text
hide s = replace_all b',' (codes "\\,") (replace_all backslash (codes "\\\\") s)

hide_char : ℕ → Text
hide_char c = if c == backslash then codes "\\\\" else if c == b',' then codes "\\," else c ∷ []

hide_cons : (c : ℕ) (s : Text) → hide (c ∷ s) ≡ hide_char c ++ hide s
unfolding hide hide_char
hide_cons c s = rw replace_all-append (elim (Bool-cases (c == backslash)) [
  | inl e ↦ rw e refl
  | inr e ↦ rw e (elim (Bool-cases (c == b',')) [ inl f ↦ rw f refl | inr f ↦ rw f refl ])
])

read-hide_char :
    (c : ℕ) (parts : List Text) (cur : Text)
    → read (reading parts cur) (hide_char c) ≡ reading parts (cur ++ c ∷ [])
unfolding hide_char read
read-hide_char c parts cur = ground arith

read-hide :
    (parts : List Text) (cur s : Text)
    → read (reading parts cur) (hide s) ≡ reading parts (cur ++ s)
read-hide parts cur [] = unfold hide read in rw append-nil
read-hide parts cur (c ∷ s) =
    rw (hide_cons, read-append, read-hide_char, read-hide parts (cur ++ c ∷ []) s, append_assoc)

-- A written part is read back, the marker too.
read-escape_part :
    (parts : List Text) (p : Text) → read (reading parts []) (escape_part p) ≡ reading parts p
read-escape_part parts p = elim (Bool-cases (text_eq p empty_key)) [
  | inl e ↦ unfold escape_part in rw e (rw (text_eq→eq p empty_key e) (unfold read in refl))
  | inr e ↦ unfold escape_part hide in rw e (read-hide parts [] p)
]

read_separator :
    (parts : List Text) (cur s : Text)
    → read (reading parts cur) (key_separator ∷ s) ≡ read (reading (parts ++ cur ∷ []) []) s
unfolding read
read_separator parts cur s = refl

-- The parts read so far, the current one among them even if it is empty.
abbrev ended : Reader → List Text
ended r = r.parts ++ r.current_part ∷ []

ended-read-join :
    (parts : List Text) (p : Text) (ps : List Text)
    → ended (read (reading parts []) (join (map escape_part (p ∷ ps)) key_separator))
      ≡ parts ++ p ∷ ps
ended-read-join parts p [] = rw read-escape_part
ended-read-join parts p (q ∷ ps) = rw (
  read-append,
  read-escape_part,
  read_separator,
  ended-read-join (parts ++ p ∷ []) q ps,
  append_assoc,
)

finish-ended : (r : Reader) → ended r ≢ [] ∷ [] → finish r ≡ ended r
unfolding finish
finish-ended r h = go r.parts r.current_part r.escaping h
  where
    go :
        (ps : List Text) (cur : Text) (b : Bool)
        → ps ++ cur ∷ [] ≢ [] ∷ []
        → finish (record { parts = ps; current_part = cur; escaping = b }) ≡ ps ++ cur ∷ []
    go [] [] b n = absurd (n refl)
    go [] (c ∷ s) b n = refl
    go (p ∷ ps) [] b n = refl
    go (p ∷ ps) (c ∷ s) b n = refl

finish-read-join :
    (p : Text) (ps : List Text)
    → p ∷ ps ≢ [] ∷ []
    → finish (read start (join (map escape_part (p ∷ ps)) key_separator)) ≡ p ∷ ps
finish-read-join p ps h = let e = ended-read-join [] p ps in finish-ended _ (λ q. h (sym e ∙ q)) ∙ e

-- The text of a key with a part is the marker of the empty key under no circumstances.
join-ne-empty_key :
    (p : Text) (ps : List Text) → join (map escape_part (p ∷ ps)) key_separator ≡ empty_key → ⊥
join-ne-empty_key p ps e =
    let back : p ∷ ps ≡ empty_key ∷ [] =
      sym (ended-read-join [] p ps) ∙ ap (λ s. ended (read start s)) e ∙ (unfold read in refl) in
    let text : empty_key ≡ backslash ∷ empty_key =
      sym e
      ∙ ap (λ k. join (map escape_part k) key_separator) back
      ∙ (unfold escape_part in refl) in
    cc text

-- Of the keys with a part only that of one empty string has the empty text.
join-ne-nil :
    (p : Text) (ps : List Text)
    → p ∷ ps ≢ [] ∷ []
    → join (map escape_part (p ∷ ps)) key_separator ≢ []
join-ne-nil p ps h e =
    h (sym (ended-read-join [] p ps) ∙ ap (λ s. ended (read start s)) e ∙ (unfold read in refl))

pub text_eq-false : (a b : Text) → a ≢ b → text_eq a b ≡ false
text_eq-false a b h = elim (Bool-cases (text_eq a b)) [
  | inl e ↦ absurd (h (text_eq→eq a b e))
  | inr e ↦ e
]

is_empty-false : (a : Text) → a ≢ [] → is_empty a ≡ false
is_empty-false [] h = absurd (h refl)
is_empty-false (c ∷ s) h = refl

-- A key that was written is read back, unless it is the key of one empty string.
pub deserialize_key-serialize_key :
    (key : List Text) → key ≢ [] ∷ [] → deserialize_key (serialize_key key) ≡ key
unfolding deserialize_key serialize_key
deserialize_key-serialize_key [] h = refl
deserialize_key-serialize_key (p ∷ ps) h =
    rw (is_empty-false _ (join-ne-nil p ps h), text_eq-false _ _ (join-ne-empty_key p ps))
      (finish-read-join p ps h)

-- The key of one empty string is read as the empty key.
pub deserialize_key-one_empty : deserialize_key (serialize_key ([] ∷ [])) ≡ []
unfolding deserialize_key serialize_key
deserialize_key-one_empty = refl

parts_injective :
    (p : Text) (ps : List Text) (q : Text) (qs : List Text)
    → join (map escape_part (p ∷ ps)) key_separator ≡ join (map escape_part (q ∷ qs)) key_separator
    → p ∷ ps ≡ q ∷ qs
parts_injective p ps q qs e =
    sym (ended-read-join [] p ps) ∙ ap (λ s. ended (read start s)) e ∙ ended-read-join [] q qs

-- Two keys with the same text are the same key, with no exception.
pub serialize_key-injective : (a b : List Text) → serialize_key a ≡ serialize_key b → a ≡ b
unfolding serialize_key
serialize_key-injective [] [] e = refl
serialize_key-injective [] (q ∷ qs) e = absurd (join-ne-empty_key q qs (sym e))
serialize_key-injective (p ∷ ps) [] e = absurd (join-ne-empty_key p ps e)
serialize_key-injective (p ∷ ps) (q ∷ qs) e = parts_injective p ps q qs e
