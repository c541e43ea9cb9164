-- ===== src/Manager/Subprotocols.antt =====
-- The web socket subprotocols that carry a query: `parseWebSocketProtocols` of
-- packages/rivetkit/src/manager/router.ts and the lists that `connectWebSocket` and `rawWebSocket`
-- of packages/rivetkit/src/client/http-client-driver.ts make. `encodeURIComponent` and
-- `decodeURIComponent`, which may throw, are arguments.
pub mod Header
use rivetkit.Base.{
  ℕ, Bool, false, true, ◌≡◌, ◌≢◌, refl, ap, Bool-cases, inl, inr, ◌∙◌, ◌||◌, Option, none, some,
  List, [], ◌∷◌, ◌++◌, ◌==◌, ==_refl, if◌then◌else◌, map, is_empty, Text, codes, All, All-append,
  arith,
}
use rivetkit.Manager.Router.{Protocols}

-- `s.substring(p.length)` where `s.startsWith(p)`
abbrev pub strip_prefix : Text → Text → Option Text
strip_prefix [] s = some s
strip_prefix (x ∷ p) [] = none
strip_prefix (x ∷ p) (y ∷ s) = if x == y then strip_prefix p s else none

-- `s.split(",")`
unfoldable pub split_commas : Text → List Text
split_commas [] = [] ∷ []
split_commas (c ∷ s) =
    let rest = split_commas s in
    if c == 44
    then [] ∷ rest
    else elim rest [ [] ↦ (c ∷ []) ∷ [] | part ∷ parts ↦ (c ∷ part) ∷ parts ]

-- White space, of ASCII.
abbrev pub is_space : ℕ → Bool
is_space c = c == 32 || c == 9 || c == 10 || c == 11 || c == 12 || c == 13

abbrev pub trim_start : Text → Text
trim_start [] = []
trim_start (c ∷ s) = let rest = trim_start s in if is_space c then rest else c ∷ s

abbrev pub trim_end : Text → Text
trim_end [] = []
trim_end (c ∷ s) =
    let rest = trim_end s in if is_empty rest then (if is_space c then [] else c ∷ []) else c ∷ rest

-- `protocols.split(",").map((p) => p.trim())`
unfoldable pub protocol_list : Text → List Text
unfolding split_commas
protocol_list t = map (λ p. trim_end (trim_start p)) (split_commas t)

abbrev pub nothing_read : Protocols
nothing_read = record { query_raw = none; encoding_raw = none; conn_params_raw = none }

module _ (decode : Text → Option Text) where
  -- One round of the loop.
  unfoldable pub read_protocol : Text → Protocols → Option Protocols
  read_protocol p found = elim (strip_prefix (codes "query.") p) [
    | some t ↦ elim (decode t) [ none ↦ none | some q ↦ some (record found { query_raw = some q }) ]
    | none ↦ elim (strip_prefix (codes "encoding.") p) [
      | some t ↦ some (record found { encoding_raw = some t })
      | none ↦ elim (strip_prefix (codes "conn_params.") p) [
        | some t ↦ elim (decode t) [
          | none ↦ none
          | some c ↦ some (record found { conn_params_raw = some c })
        ]
        | none ↦ some found
      ]
    ]
  ]

  unfoldable pub read_protocols : List Text → Protocols → Option Protocols
  unfolding read_protocol
  read_protocols [] found = some found
  read_protocols (p ∷ ps) found = elim (read_protocol p found) [
    | none ↦ none
    | some next ↦ read_protocols ps next
  ]

  -- `parseWebSocketProtocols`
  unfoldable pub parse_web_socket_protocols : Option Text → Option Protocols
  unfolding protocol_list read_protocols
  parse_web_socket_protocols none = some nothing_read
  parse_web_socket_protocols (some []) = some nothing_read
  parse_web_socket_protocols (some (c ∷ t)) = read_protocols (protocol_list (c ∷ t)) nothing_read

-- The part for the parameters, where they are truthy.
abbrev pub params_protocol : (Text → Text) → Option Text → List Text
params_protocol encode none = []
params_protocol encode (some params) = (codes "conn_params." ++ encode params) ∷ []

-- The subprotocols of `connectWebSocket` and, with those of the user, of `rawWebSocket`, for the
-- query and the parameters as JSON.
unfoldable pub client_protocols : (Text → Text) → Text → Text → Option Text → List Text → List Text
client_protocols encode query encoding params user =
    (codes "query." ++ encode query)
      ∷ (codes "encoding." ++ encoding)
      ∷ params_protocol encode params
    ++ codes "rivetkit" ∷ user
