-- ===== src/Versioned.antt =====
-- `VersionedDataHandler` of packages/rivetkit/src/common/versioned-data.ts. The codecs of a
-- version are generated code, so they are fields of the configuration; a decoder may throw.
pub mod Laws
use rivetkit.Base.{
  ℕ, zero, suc, ◌+◌, ◌-◌, ◌*◌, ◌/◌, ◌%◌, ◌^◌, Option, none, some, List, [], ◌∷◌, ◌++◌, ◌==◌, ltb,
  if◌then◌else◌, length,
}

abbrev pub Bytes : Type 0
Bytes = List ℕ

pub data VersionError : Type 0 where
  too_short : VersionError
  -- the version of the data and the current version
  newer_version : ℕ → ℕ → VersionError
  -- the version that no migration leads on from
  no_migration : ℕ → VersionError
  malformed : VersionError

pub data Result (A : Type 0) : Type 0 where
  ok : A → Result A
  err : VersionError → Result A

-- What follows a call that may throw.
abbrev pub and_then : {A B : Type 0} → (A → Result B) → Result A → Result B
and_then rest (err thrown) = err thrown
and_then rest (ok value) = rest value

-- `VersionedData<Uint8Array>`
pub record VersionedData : Type 0 where
  pub version : ℕ
  pub payload : Bytes

-- `VersionedDataConfig`. `T` stands for the data of every version, which the source calls `any`.
pub record Config (T : Type 0) : Type 0 where
  pub current_version : ℕ
  pub migrations : ℕ → Option (T → T)
  pub serialize_version : T → Bytes
  pub deserialize_version : Bytes → Result T

-- `setUint32(0, version, true)`: the number is taken modulo 2^32.
unfoldable pub put_uint32 : ℕ → Bytes
put_uint32 n = n % 256 ∷ (n / 256) % 256 ∷ (n / 65536) % 256 ∷ (n / 16777216) % 256 ∷ []

unfoldable pub embed_version : VersionedData → Bytes
unfolding put_uint32
embed_version d = put_uint32 d.version ++ d.payload

unfoldable pub extract_version : Bytes → Result VersionedData
extract_version (a ∷ b ∷ c ∷ d ∷ rest) =
    ok (record { version = a + 256 * b + 65536 * c + 16777216 * d; payload = rest })
extract_version _ = err too_short

module _ {T : Type 0} (config : Config T) where
  unfoldable pub serialize_with_embedded_version : T → Bytes
  unfolding embed_version
  serialize_with_embedded_version d =
      embed_version
        (record { version = config.current_version; payload = config.serialize_version d })

  -- The `while` loop of `deserialize`, by the rounds left up to the current version.
  unfoldable pub migrate : ℕ → ℕ → T → Result T
  migrate zero version d = ok d
  migrate (suc rounds) version d = elim (config.migrations version) [
    | none ↦ err (no_migration version)
    | some migration ↦ migrate rounds (suc version) (migration d)
  ]

  unfoldable pub deserialize : Bytes → ℕ → Result T
  unfolding migrate
  deserialize bytes version =
      if version == config.current_version
      then config.deserialize_version bytes
      else if ltb config.current_version version
      then err (newer_version version config.current_version)
      else and_then (λ d. migrate (config.current_version - version) version d)
          (config.deserialize_version bytes)

  unfoldable pub deserialize_with_embedded_version : Bytes → Result T
  unfolding extract_version deserialize
  deserialize_with_embedded_version bytes =
      and_then (λ versioned. deserialize versioned.payload versioned.version)
        (extract_version bytes)
