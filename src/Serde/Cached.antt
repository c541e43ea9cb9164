-- ===== src/Serde/Cached.antt =====
-- `CachedSerializer` of packages/rivetkit/src/actor/protocol/serde.ts: what it returns, and how
-- often it serializes.
use rivetkit.Base.{
  ℕ, zero, suc, ◌≤◌, ◌≡◌, refl, sym, ap, ◌∙◌, Bool, true, false, Option, none, some, List, [], ◌∷◌,
  map, if◌then◌else◌, arith, Bool-cases, Option-cases, inl, inr, is_empty, not,
}
use rivetkit.Serde.{
  Encoding, json, cbor, bare, OutputData, text, bytes, Formats, serialize_with_encoding,
}

abbrev pub same_encoding : Encoding → Encoding → Bool
same_encoding json json = true
same_encoding cbor cbor = true
same_encoding bare bare = true
same_encoding _ _ = false

pub record CachedSerializer (T : Type 0) : Type 0 where
  pub raw_data : T
  pub cache : Encoding → Option OutputData
  -- The calls of `serializeWithEncoding` so far, the last first.
  pub serializations : List Encoding

-- `if (cached)`: an empty string is false.
abbrev pub is_truthy : OutputData → Bool
is_truthy (text t) = not (is_empty t)
is_truthy (bytes b) = true

abbrev pub truthy : Option OutputData → Option OutputData
truthy none = none
truthy (some o) = if is_truthy o then some o else none

module _ {T : Type 0} (formats : Formats T) where
  -- The constructor.
  unfoldable pub new_cached : T → CachedSerializer T
  new_cached v = record { raw_data = v; cache = λ e. none; serializations = [] }

  -- A call of `serializeWithEncoding`, noted.
  unfoldable pub serialize_anew : Encoding → CachedSerializer T → CachedSerializer T × OutputData
  serialize_anew e c = (
    record c { serializations = e ∷ c.serializations },
    serialize_with_encoding formats e c.raw_data,
  )

  -- `serialize`: the output and the serializer it leaves.
  unfoldable pub serialize : Encoding → CachedSerializer T → CachedSerializer T × OutputData
  unfolding serialize_anew
  serialize e c = elim (truthy (c.cache e)) [
    | some cached ↦ (c, cached)
    | none ↦
        let (c', serialized) = serialize_anew e c in
        (
          record c' { cache = λ e'. if same_encoding e e' then some serialized else c'.cache e' },
          serialized,
        )
  ]

  -- Calls one after the other, as `_broadcast` makes them for its connections.
  unfoldable pub serialize_all :
      List Encoding → CachedSerializer T → CachedSerializer T × List OutputData
  unfolding serialize
  serialize_all [] c = (c, [])
  serialize_all (e ∷ es) c =
      let first = serialize e c in let rest = serialize_all es first.0 in (rest.0, first.1 ∷ rest.1)

  -- How many of the calls were for an encoding.
  abbrev pub times : Encoding → List Encoding → ℕ
  times x [] = zero
  times x (e ∷ es) = let rest = times x es in if same_encoding x e then suc rest else rest

  -- What the cache has is what serialization gives.
  abbrev IsCached : T → CachedSerializer T → Type 0
  IsCached v c =
      (c.raw_data ≡ v)
      × ((e : Encoding) (o : OutputData)
          → c.cache e ≡ some o
          → o ≡ serialize_with_encoding formats e v)

  same_encoding→eq : (a b : Encoding) → same_encoding a b ≡ true → a ≡ b
  same_encoding→eq json json h = refl
  same_encoding→eq cbor cbor h = refl
  same_encoding→eq bare bare h = refl
  same_encoding→eq json cbor h = ground arith
  same_encoding→eq json bare h = ground arith
  same_encoding→eq cbor json h = ground arith
  same_encoding→eq cbor bare h = ground arith
  same_encoding→eq bare json h = ground arith
  same_encoding→eq bare cbor h = ground arith

  truthy-some : (c : Option OutputData) (o : OutputData) → truthy c ≡ some o → c ≡ some o
  truthy-some none o h = h
  truthy-some (some p) o h = ground arith

  abbrev stored : Encoding → CachedSerializer T → CachedSerializer T
  stored e c = record c {
    serializations = e ∷ c.serializations;
    cache = λ e'.
        if same_encoding e e'
        then some (serialize_with_encoding formats e c.raw_data)
        else c.cache e';
  }

  serialize_hit :
      (e : Encoding) (c : CachedSerializer T) (o : OutputData)
      → truthy (c.cache e) ≡ some o
      → serialize e c ≡ (c, o)
  unfolding serialize
  serialize_hit e c o h = rw (h, serialize) refl

  serialize_miss :
      (e : Encoding) (c : CachedSerializer T)
      → truthy (c.cache e) ≡ none
      → serialize e c ≡ (stored e c, serialize_with_encoding formats e c.raw_data)
  unfolding serialize
  serialize_miss e c h = rw (h, serialize) refl

  none-some : {o : OutputData} → none ≡ some o → ⊥
  none-some h = cc

  some_eq : {o o' : OutputData} → some o ≡ some o' → o ≡ o'
  some_eq h = cc

  stored-IsCached :
      (v : T) (e : Encoding) (c : CachedSerializer T) → IsCached v c → IsCached v (stored e c)
  stored-IsCached v e c (hv, hc) = (
    hv,
    λ e' o k. elim (Bool-cases (same_encoding e e')) [
      | inl same ↦
          sym (some_eq (rw same at k))
          ∙ ap (serialize_with_encoding formats e) hv
          ∙ ap (λ x. serialize_with_encoding formats x v) (same_encoding→eq e e' same)
      | inr other ↦ hc e' o (rw other at k)
    ],
  )

  serialize_lem :
      (v : T) (e : Encoding) (c : CachedSerializer T)
      → IsCached v c
      → IsCached v (serialize e c).0 × ((serialize e c).1 ≡ serialize_with_encoding formats e v)
  serialize_lem v e c h = elim (Option-cases (truthy (c.cache e))) [
    | inr (o, k) ↦ rw (serialize_hit e c o k) (h, h.1 e o (truthy-some (c.cache e) o k))
    | inl k ↦
        rw (serialize_miss e c k)
          (stored-IsCached v e c h, ap (serialize_with_encoding formats e) h.0)
  ]

  serialize_all-IsCached :
      (v : T) (es : List Encoding) (c : CachedSerializer T)
      → IsCached v c
      → (serialize_all es c).1 ≡ map (λ e. serialize_with_encoding formats e v) es
  unfolding serialize_all
  serialize_all-IsCached v [] c h = refl
  serialize_all-IsCached v (e ∷ es) c h =
      let (kept, same) = serialize_lem v e c h in
      cc (same, serialize_all-IsCached v es (serialize e c).0 kept)

  same_encoding_refl : (e : Encoding) → same_encoding e e ≡ true
  same_encoding_refl json = refl
  same_encoding_refl cbor = refl
  same_encoding_refl bare = refl

  truthy-stored :
      (x e : Encoding) (c : CachedSerializer T)
      → x ≡ e
      → is_truthy (serialize_with_encoding formats x c.raw_data) ≡ true
      → truthy ((stored e c).cache x) ≡ some (serialize_with_encoding formats e c.raw_data)
  truthy-stored x e c p h =
      let hit : same_encoding e x ≡ true = ap (same_encoding e) p ∙ same_encoding_refl e in
      let filled : is_truthy (serialize_with_encoding formats e c.raw_data) ≡ true =
        ap (λ y. is_truthy (serialize_with_encoding formats y c.raw_data)) (sym p) ∙ h in
      rw (hit, filled) refl

  true-false : true ≡ false → ⊥
  true-false h = cc

  kept_elsewhere :
      (x e : Encoding) (c : CachedSerializer T)
      → same_encoding x e ≡ false
      → truthy (c.cache x) ≡ truthy ((stored e c).cache x)
  kept_elsewhere x e c h = elim (Bool-cases (same_encoding e x)) [
    | inl k ↦ absurd (
        true-false
          (sym (same_encoding_refl x) ∙ ap (same_encoding x) (sym (same_encoding→eq e x k)) ∙ h))
    | inr k ↦ rw k refl
  ]

  -- An encoding was serialized once, or not yet, and then its output is not in the cache.
  abbrev IsSparing : Encoding → T → CachedSerializer T → Type 0
  IsSparing x v c =
      (c.raw_data ≡ v)
      × (times x c.serializations ≤ 1)
      × (truthy (c.cache x) ≡ none → times x c.serializations ≡ zero)

  none→absurd : {o : OutputData} {A : Type 0} → some o ≡ none → A
  none→absurd h = cc

  stored-IsSparing :
      (x e : Encoding) (v : T) (c : CachedSerializer T)
      → is_truthy (serialize_with_encoding formats x v) ≡ true
      → truthy (c.cache e) ≡ none
      → IsSparing x v c
      → IsSparing x v (stored e c)
  stored-IsSparing x e v c t k (same, le, once) = elim (Bool-cases (same_encoding x e)) [
    | inl h ↦
        let p : x ≡ e = same_encoding→eq x e h in
        let none_yet : times x c.serializations ≡ zero =
          once (ap (λ y. truthy (c.cache y)) p ∙ k) in
        let fills =
          truthy-stored x e c p
            (ap (λ w. is_truthy (serialize_with_encoding formats x w)) same ∙ t) in
        (same, rw (h, none_yet) (omega arith), λ empty. none→absurd (sym fills ∙ empty))
    | inr h ↦ (same, rw h le, λ empty. rw h (once (kept_elsewhere x e c h ∙ empty)))
  ]

  serialize-IsSparing :
      (x e : Encoding) (v : T) (c : CachedSerializer T)
      → is_truthy (serialize_with_encoding formats x v) ≡ true
      → IsSparing x v c
      → IsSparing x v (serialize e c).0
  serialize-IsSparing x e v c t h = elim (Option-cases (truthy (c.cache e))) [
    | inr (o, k) ↦ rw (serialize_hit e c o k) h
    | inl k ↦ rw (serialize_miss e c k) (stored-IsSparing x e v c t k h)
  ]

  serialize_all-IsSparing :
      (x : Encoding) (v : T) (es : List Encoding) (c : CachedSerializer T)
      → is_truthy (serialize_with_encoding formats x v) ≡ true
      → IsSparing x v c
      → IsSparing x v (serialize_all es c).0
  unfolding serialize_all
  serialize_all-IsSparing x v [] c t h = h
  serialize_all-IsSparing x v (e ∷ es) c t h =
      serialize_all-IsSparing x v es (serialize e c).0 t (serialize-IsSparing x e v c t h)

  -- A serializer that is asked for any encodings in turn returns what serialization gives each
  -- time, and has called it at most once for an encoding whose output is not the empty string.
  pub serialize_all_lem :
      (v : T) (es : List Encoding)
      → let (left, outputs) = serialize_all es (new_cached v) in
        (outputs ≡ map (λ e. serialize_with_encoding formats e v) es)
        × ((x : Encoding)
            → is_truthy (serialize_with_encoding formats x v) ≡ true
            → times x left.serializations ≤ 1)
  unfolding new_cached
  serialize_all_lem v es = (
    serialize_all-IsCached v es (new_cached v) (refl, λ e o h. absurd (none-some h)),
    λ x h. (serialize_all-IsSparing x v es (new_cached v) h (refl, omega arith, λ e. refl)).1,
  )
