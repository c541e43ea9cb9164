-- ===== src/Keys/NameLaws.antt =====
-- The names of Durable Objects, made of an actor's name and key: when they determine both, and
-- when they do not.
use rivetkit.Base.{
  ℕ, ◌≡◌, ◌≢◌, refl, sym, ap, ◌∙◌, List, [], ◌∷◌, ◌++◌, map, join, append_assoc, arith, Text, codes,
  All, replace_all-append,
}
use rivetkit.Keys.Cloudflare.{
  escape_name, escape_part, serialize_key, serialize_name_and_key, backslash, empty_key,
  key_separator,
}
use rivetkit.Keys.CloudflareLaws.{text_eq-false, serialize_key-injective}

abbrev pub Lacks : ℕ → Text → Type 0
Lacks c = All (λ x. x ≢ c)

serialize_lem :
    (name : Text) (key : List Text)
    → serialize_name_and_key name key ≡ escape_name name ++ b':' ∷ serialize_key key
unfolding serialize_name_and_key serialize_key
serialize_lem name [] = refl
serialize_lem name (p ∷ ps) = refl

-- Behind names with no backslash the first bare colon ends the name.
split_name :
    (a b s t : Text)
    → Lacks backslash a
    → Lacks backslash b
    → escape_name a ++ b':' ∷ s ≡ escape_name b ++ b':' ∷ t
    → (a ≡ b) × (s ≡ t)
unfolding escape_name
split_name [] [] s t ha hb e = (refl, cc)
split_name [] (y ∷ b) s t ha hb e = ground arith
split_name (x ∷ a) [] s t ha hb e = ground arith
split_name (x ∷ a) (y ∷ b) s t ha hb e = ground (arith, split_name a b s t ha.1 hb.1)

-- Two actors whose names hold no backslash have one Durable Object name only if they have the
-- same name and the same key.
pub serialize_name_and_key-injective :
    (a b : Text) (k l : List Text)
    → Lacks backslash a
    → Lacks backslash b
    → serialize_name_and_key a k ≡ serialize_name_and_key b l
    → (a ≡ b) × (k ≡ l)
serialize_name_and_key-injective a b k l ha hb e =
    let both =
      split_name a b (serialize_key k) (serialize_key l) ha hb
        (sym (serialize_lem a k) ∙ e ∙ serialize_lem b l) in
    (both.0, serialize_key-injective k l both.1)

escape_part_colon : (c : Text) → c ≢ empty_key → escape_part (b':' ∷ c) ≡ b':' ∷ escape_part c
unfolding escape_part
escape_part_colon c h = rw (text_eq-false c empty_key h) refl

serialize_key_colon :
    (c : Text) (cs : List Text)
    → c ≢ empty_key
    → serialize_key ((b':' ∷ c) ∷ cs) ≡ b':' ∷ serialize_key (c ∷ cs)
unfolding serialize_key
serialize_key_colon c [] h = escape_part_colon c h
serialize_key_colon c (d ∷ cs) h =
    ap (λ s. s ++ key_separator ∷ join (map escape_part (d ∷ cs)) key_separator)
      (escape_part_colon c h)

escape_name_append : (a b : Text) → escape_name (a ++ b) ≡ escape_name a ++ escape_name b
unfolding escape_name
escape_name_append a b = replace_all-append b':' (codes "\\:") a b

longer : (c : Text) → ¬ (c ≡ b':' ∷ c)
longer [] e = cc
longer (x ∷ c) e = longer c (cc)

-- A name that ends in a colon with any key, and the same name with a backslash for the colon
-- and a colon put in front of the key's first part, are two actors with one Durable Object
-- name, unless that part is the marker of the empty key.
pub serialize_name_and_key_collision :
    (a c : Text) (cs : List Text)
    → c ≢ empty_key
    → (serialize_name_and_key (a ++ codes ":") (c ∷ cs)
        ≡ serialize_name_and_key (a ++ codes "\\") ((b':' ∷ c) ∷ cs))
      × (◌≢◌ {A = List Text} (c ∷ cs) ((b':' ∷ c) ∷ cs))
serialize_name_and_key_collision a c cs h = (
  rw
      (
        serialize_lem,
        serialize_lem,
        escape_name_append,
        escape_name_append,
        serialize_key_colon c cs h,
        append_assoc,
        append_assoc,
      )
      (unfold escape_name in refl),
  λ e. longer c (cc),
)
