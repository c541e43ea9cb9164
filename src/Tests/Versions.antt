-- ===== src/Tests/Versions.antt =====
-- Versioned data: packages/rivetkit/src/common/versioned-data.ts.
use rivetkit.Base.{ℕ, ◌+◌, ◌≡◌, ◌↔◌, refl, none, some, [], ◌∷◌, ◌==◌, if◌then◌else◌, arith}
use rivetkit.Versioned.{Bytes, Config, Result, ok, err, malformed, deserialize, no_migration}
use rivetkit.Versioned.Laws.{Migrates, deserialize_iff}

-- A codec of one byte.
abbrev read_byte : Bytes → Result ℕ
read_byte [] = err malformed
read_byte (b ∷ bs) = ok b

-- The current version is 3; a migration adds one, and version 1 has none.
abbrev config : Config ℕ
config = record {
  current_version = 3;
  migrations = λ v. if v == 2 then some (λ d. d + 1) else none;
  serialize_version = λ d. d ∷ [];
  deserialize_version = read_byte;
}

migrated_run : deserialize config (7 ∷ []) 2 ≡ ok 8
unfolding deserialize
migrated_run = refl

no_migration_run : deserialize config (7 ∷ []) 1 ≡ err (no_migration 1)
unfolding deserialize
no_migration_run = refl

deserialize_iff_example :
    (deserialize config (7 ∷ []) 2 ≡ ok 8)
    ↔ ((d : ℕ) × (config.deserialize_version (7 ∷ []) ≡ ok d) × Migrates config 2 d 3 8)
deserialize_iff_example = deserialize_iff config (7 ∷ []) 2 8 (omega arith)
