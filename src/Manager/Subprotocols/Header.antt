-- ===== src/Manager/Subprotocols/Header.antt =====
-- What `parseWebSocketProtocols` of packages/rivetkit/src/manager/router.ts reads of the subprotocols
-- that the driver of packages/rivetkit/src/client/http-client-driver.ts makes, joined in one header.
use rivetkit.Base.{
  ℕ, Bool, false, true, ◌≡◌, ◌≢◌, refl, ap, Bool-cases, inl, inr, ◌∙◌, Option, none, some, List, [],
  ◌∷◌, ◌++◌, ◌==◌, ==_refl, if◌then◌else◌, map, is_empty, Text, codes, All, All-append, arith,
}
use rivetkit.Manager.Router.{Protocols}
use rivetkit.Manager.Subprotocols.{
  strip_prefix, split_commas, is_space, trim_start, trim_end, protocol_list, nothing_read,
  read_protocols, parse_web_socket_protocols, client_protocols,
}

-- A subprotocol with none of the prefixes.
abbrev pub IsPlain : Text → Type 0
IsPlain p =
    (strip_prefix (codes "query.") p ≡ none)
    × (strip_prefix (codes "encoding.") p ≡ none)
    × (strip_prefix (codes "conn_params.") p ≡ none)

strip_prefix-append : (p s : Text) → strip_prefix p (p ++ s) ≡ some s
strip_prefix-append [] s = refl
strip_prefix-append (x ∷ p) s = rw (==_refl x) (strip_prefix-append p s)

-- The header in which a browser sends subprotocols.
abbrev pub joined : List Text → Text
joined [] = []
joined (p ∷ []) = p
joined (p ∷ q ∷ ps) = p ++ 44 ∷ 32 ∷ joined (q ∷ ps)

-- A code unit that a subprotocol may have: no comma and no white space.
abbrev pub IsTokenChar : ℕ → Type 0
IsTokenChar c = (c == 44 ≡ false) × (is_space c ≡ false)

abbrev pub IsToken : Text → Type 0
IsToken p = All IsTokenChar p

split_commas-token : (p : Text) → IsToken p → split_commas p ≡ p ∷ []
unfolding split_commas
split_commas-token [] h = refl
split_commas-token (c ∷ p) (hc, hp) = rw (hc.0, split_commas-token p hp) refl

split_commas-append : (p s : Text) → IsToken p → split_commas (p ++ 44 ∷ s) ≡ p ∷ split_commas s
unfolding split_commas
split_commas-append [] s h = refl
split_commas-append (c ∷ p) s (hc, hp) = rw (hc.0, split_commas-append p s hp) refl

split_commas-cons : (s : Text) → (h : Text) × (t : List Text) × (split_commas s ≡ h ∷ t)
unfolding split_commas
split_commas-cons [] = ([], [], refl)
split_commas-cons (c ∷ s) =
    let (h, t, e) = split_commas-cons s in
    elim (Bool-cases (c == 44)) [
      | inl k ↦ rw k ([], split_commas s, refl)
      | inr k ↦ rw (k, e) (c ∷ h, t, refl)
    ]

abbrev trimmed : Text → Text
trimmed p = trim_end (trim_start p)

trim_end-token : (p : Text) → IsToken p → trim_end p ≡ p
trim_end-token [] h = refl
trim_end-token (c ∷ []) (hc, hp) = rw (hc.1) refl
trim_end-token (c ∷ d ∷ p) (hc, hp) = rw (trim_end-token (d ∷ p) hp) refl

trimmed-token : (p : Text) → IsToken p → trimmed p ≡ p
trimmed-token [] h = refl
trimmed-token (c ∷ p) (hc, hp) = rw (hc.1) (trim_end-token (c ∷ p) (hc, hp))

protocol_list-space : (s : Text) → protocol_list (32 ∷ s) ≡ protocol_list s
unfolding protocol_list split_commas
protocol_list-space s = let (h, t, e) = split_commas-cons s in rw e refl

protocol_list-append :
    (p s : Text) → IsToken p → protocol_list (p ++ 44 ∷ s) ≡ trimmed p ∷ protocol_list s
unfolding protocol_list
protocol_list-append p s h = ap (map trimmed) (split_commas-append p s h)

protocol_list-joined : (ps : List Text) → All IsToken ps → ps ≢ [] → protocol_list (joined ps) ≡ ps
protocol_list-joined [] h n = absurd (n refl)
protocol_list-joined (p ∷ []) (hp, hs) n =
    unfold protocol_list in rw (split_commas-token p hp) (ap (λ x. x ∷ []) (trimmed-token p hp))
protocol_list-joined (p ∷ q ∷ ps) (hp, hs) n =
    protocol_list-append p (32 ∷ joined (q ∷ ps)) hp
    ∙ ap (λ x. x ∷ protocol_list (32 ∷ joined (q ∷ ps))) (trimmed-token p hp)
    ∙ ap (λ l. p ∷ l)
        (protocol_list-space (joined (q ∷ ps)) ∙ protocol_list-joined (q ∷ ps) hs (λ e. cc))

abbrev are_tokens : Text → Bool
are_tokens [] = true
are_tokens (c ∷ p) =
    let rest = are_tokens p in if c == 44 then false else if is_space c then false else rest

pub are_tokens-IsToken : (p : Text) → are_tokens p ≡ true → IsToken p
are_tokens-IsToken [] h = tt
are_tokens-IsToken (c ∷ p) h = elim (Bool-cases (c == 44)) [
  | inl k ↦ absurd (ground (arith, k, h))
  | inr k ↦ elim (Bool-cases (is_space c)) [
    | inl l ↦ absurd (ground (arith, k, l, h))
    | inr l ↦ ((k, l), are_tokens-IsToken p (rw (k, l) at h))
  ]
]

module _ (encode : Text → Text) (decode : Text → Option Text)
    (decode-encode : (t : Text) → decode (encode t) ≡ some t) where
  read_plain :
      (ps : List Text) (found : Protocols)
      → All IsPlain ps
      → read_protocols decode ps found ≡ some found
  unfolding read_protocols
  read_plain [] found h = refl
  read_plain (p ∷ ps) found (h, hs) = rw (h.0, h.1, h.2) (read_plain ps found hs)

  read_client :
      (query encoding : Text) (params : Option Text) (user : List Text)
      → All IsPlain user
      → read_protocols decode (client_protocols encode query encoding params user) nothing_read
        ≡ some (record {
          query_raw = some query;
          encoding_raw = some encoding;
          conn_params_raw = params;
        })
  unfolding read_protocols client_protocols
  read_client query encoding none user h = rw decode-encode (read_plain user _ h)
  read_client query encoding (some params) user h =
      rw (decode-encode, decode-encode) (read_plain user _ h)

  parse_header :
      (header : Text)
      → is_empty header ≡ false
      → parse_web_socket_protocols decode (some header)
        ≡ read_protocols decode (protocol_list header) nothing_read
  unfolding parse_web_socket_protocols
  parse_header [] h = ground (arith, h)
  parse_header (c ∷ t) h = refl

  header_lem :
      (query encoding : Text) (params : Option Text) (user : List Text)
      → is_empty (joined (client_protocols encode query encoding params user)) ≡ false
  unfolding client_protocols
  header_lem query encoding none user = refl
  header_lem query encoding (some params) user = refl

  listed :
      (query encoding : Text) (params : Option Text) (user : List Text)
      → client_protocols encode query encoding params user ≢ []
  unfolding client_protocols
  listed query encoding params user h = cc

  -- The subprotocols of the client are tokens, where what is encoded and the user's are.
  client_protocols-IsToken :
      (query encoding : Text) (params : Option Text) (user : List Text)
      → ((t : Text) → IsToken (encode t))
      → IsToken encoding
      → All IsToken user
      → All IsToken (client_protocols encode query encoding params user)
  unfolding client_protocols
  client_protocols-IsToken query encoding none user h he hu = (
    All-append IsTokenChar (codes "query.") (encode query)
        (are_tokens-IsToken (codes "query.") refl) (h query),
    (
      All-append IsTokenChar (codes "encoding.") encoding
          (are_tokens-IsToken (codes "encoding.") refl) he,
      (are_tokens-IsToken (codes "rivetkit") refl, hu),
    ),
  )
  client_protocols-IsToken query encoding (some params) user h he hu = (
    All-append IsTokenChar (codes "query.") (encode query)
        (are_tokens-IsToken (codes "query.") refl) (h query),
    (
      All-append IsTokenChar (codes "encoding.") encoding
          (are_tokens-IsToken (codes "encoding.") refl) he,
      (
        All-append IsTokenChar (codes "conn_params.") (encode params)
            (are_tokens-IsToken (codes "conn_params.") refl) (h params),
        (are_tokens-IsToken (codes "rivetkit") refl, hu),
      ),
    ),
  )

  -- If `decodeURIComponent` undoes `encodeURIComponent`, and that writes no comma and no white
  -- space: from the header in which a browser puts the client's subprotocols, a comma and a space
  -- between them, the manager reads the query, the encoding and the parameters that the client
  -- wrote, whatever subprotocols without their prefixes, commas and white space the user adds.
  pub parse-client_protocols :
      (query encoding : Text) (params : Option Text) (user : List Text)
      → ((t : Text) → IsToken (encode t))
      → IsToken encoding
      → All IsToken user
      → All IsPlain user
      → parse_web_socket_protocols decode
          (some (joined (client_protocols encode query encoding params user)))
        ≡ some (record {
          query_raw = some query;
          encoding_raw = some encoding;
          conn_params_raw = params;
        })
  parse-client_protocols query encoding params user h he hu plain =
      let ps = client_protocols encode query encoding params user in
      parse_header (joined ps) (header_lem query encoding params user)
      ∙ ap (λ l. read_protocols decode l nothing_read)
          (protocol_list-joined ps (client_protocols-IsToken query encoding params user h he hu)
            (listed query encoding params user))
      ∙ read_client query encoding params user plain
