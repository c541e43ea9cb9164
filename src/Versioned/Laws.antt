-- ===== src/Versioned/Laws.antt =====
-- The version header is read back, and data of an older version goes through its migrations.
use rivetkit.Base.{
  ℕ, zero, suc, ◌+◌, ◌-◌, ◌^◌, ◌≤◌, ◌<◌, ◌≡◌, refl, none, some, arith, Option-cases, inl, inr, ◌↔◌,
  ◌*◌, ◌/◌, ◌%◌, ap, ==_refl, sym,
}
use mathlib.Core.Path.{subst, ◌∙◌}
use rivetkit.Versioned.{
  Bytes, VersionError, newer_version, no_migration, Result, ok, err, and_then, VersionedData,
  Config, embed_version, extract_version, serialize_with_embedded_version, migrate, deserialize,
  deserialize_with_embedded_version,
}

-- A version below 2^32 and the payload are read back from their header form.
pub extract_version-embed_version :
    (d : VersionedData) → d.version < 2 ^ 32 → extract_version (embed_version d) ≡ ok d
unfolding extract_version embed_version
extract_version-embed_version d h =
    let e : d.version % 256
          + 256 * ((d.version / 256) % 256)
          + 65536 * ((d.version / 65536) % 256)
          + 16777216 * ((d.version / 16777216) % 256)
        ≡ d.version =
      omega arith in
    ap (λ v. ok (record { version = v; payload = d.payload })) e

ok-injective : {A : Type 0} {a b : A} → ok a ≡ ok b → a ≡ b
ok-injective {a = a} h = ap (λ r. elim r [ ok x ↦ x | err _ ↦ a ]) h

no_err : {A : Type 0} {a : A} {x : VersionError} → err x ≡ ok a → ⊥
no_err h = cc

and_then-ok :
    {A B : Type 0} (rest : A → Result B) (m : Result A) {b : B}
    → and_then rest m ≡ ok b
    → (value : A) × (m ≡ ok value) × (rest value ≡ ok b)
and_then-ok rest (err thrown) h = cc
and_then-ok rest (ok value) h = (value, refl, h)

module _ {T : Type 0} (config : Config T) where
  -- Data that the current codec reads back is read back behind its version header, where the
  -- current version is below 2^32.
  pub deserialize-serialize_with_embedded_version :
      (d : T)
      → config.current_version < 2 ^ 32
      → config.deserialize_version (config.serialize_version d) ≡ ok d
      → deserialize_with_embedded_version config (serialize_with_embedded_version config d) ≡ ok d
  unfolding serialize_with_embedded_version deserialize_with_embedded_version deserialize
  deserialize-serialize_with_embedded_version d h codec =
      let header : VersionedData = record {
        version = config.current_version;
        payload = config.serialize_version d;
      } in
      ap (and_then (λ x. deserialize config x.payload x.version))
        (extract_version-embed_version header h)
      ∙ rw (==_refl config.current_version) codec

  -- The migrations that lead from one version to another.
  pub data Migrates : ℕ → T → ℕ → T → Type 0 where
    current : {v : ℕ} {d : T} → Migrates v d v d
    through :
        {v w : ℕ} {d e : T} (f : T → T)
        → config.migrations v ≡ some f
        → Migrates (suc v) (f d) w e
        → Migrates v d w e

  migrate_sound : (n v w : ℕ) (d e : T) → n + v ≡ w → migrate config n v d ≡ ok e → Migrates v d w e
  unfolding migrate
  migrate_sound zero v w d e p h =
      subst (λ u. Migrates v d u e) (omega arith) (subst (Migrates v d v) (ok-injective h) current)
  migrate_sound (suc n) v w d e p h = elim (Option-cases (config.migrations v)) [
    | inl missing ↦ absurd (no_err (rw (missing, migrate) at h))
    | inr (f, found) ↦
        through f found (migrate_sound n (suc v) w (f d) e (omega arith) (rw (found, migrate) at h))
  ]

  Migrates-le : {v w : ℕ} {d e : T} → Migrates v d w e → v ≤ w
  Migrates-le current = omega arith
  Migrates-le (through f found m) = omega (arith, Migrates-le m)

  migrate_complete :
      (n v w : ℕ) (d e : T) → n + v ≡ w → Migrates v d w e → migrate config n v d ≡ ok e
  unfolding migrate
  migrate_complete zero v w d e p current = refl
  migrate_complete zero v w d e p (through f found m) = absurd (omega (arith, Migrates-le m))
  migrate_complete (suc n) v w d e p current = absurd (omega arith)
  migrate_complete (suc n) v w d e p (through f found m) =
      rw (found, migrate) (migrate_complete n (suc v) w (f d) e (omega arith) m)

  deserialize_older :
      (bytes : Bytes) (v : ℕ)
      → v < config.current_version
      → deserialize config bytes v
        ≡ and_then
            (λ d. migrate config (config.current_version - v) v d)
            (config.deserialize_version bytes)
  unfolding deserialize
  deserialize_older bytes v h = ground arith

  -- Data of a version below the current one is read, as a certain value, exactly where it
  -- decodes and a chain of migrations leads from what it decodes to up to that value at the
  -- current version.
  pub deserialize_iff :
      (bytes : Bytes) (v : ℕ) (e : T)
      → v < config.current_version
      → (deserialize config bytes v ≡ ok e) ↔ (
          (d : T) × (config.deserialize_version bytes ≡ ok d)
          × Migrates v d config.current_version e)
  deserialize_iff bytes v e h = (
    λ r.
        let (d, decoded, migrated) =
          and_then-ok (λ d. migrate config (config.current_version - v) v d)
            (config.deserialize_version bytes) (sym (deserialize_older bytes v h) ∙ r) in
        (d, decoded, migrate_sound _ v _ d e (omega arith) migrated),
    λ (d, decoded, chain).
        deserialize_older bytes v h
        ∙ rw decoded (migrate_complete (config.current_version - v) v _ d e (omega arith) chain),
  )

  -- A missing migration is reported by its version: the migrations from the version of the data
  -- lead there, it lies before the last round, and it has no migration.
  pub migrate_missing :
      (n v w : ℕ) (d : T)
      → migrate config n v d ≡ err (no_migration w)
      → (e : T) × Migrates v d w e × (w < n + v) × (config.migrations w ≡ none)
  unfolding migrate
  migrate_missing zero v w d h = cc
  migrate_missing (suc n) v w d h = elim (Option-cases (config.migrations v)) [
    | inl missing ↦
        let e : v ≡ w = cc (rw (missing, migrate) at h) in
        (d, subst (λ u. Migrates v d u d) e current, omega arith, rw (← e) missing)
    | inr (f, found) ↦
        let (e, chain, before, none_left) =
          migrate_missing n (suc v) w (f d) (rw (found, migrate) at h) in
        (e, through f found chain, omega (arith, before), none_left)
  ]

  -- Data of a version behind the current one is refused, whatever it holds.
  pub deserialize_newer :
      (bytes : Bytes) (v : ℕ)
      → config.current_version < v
      → deserialize config bytes v ≡ err (newer_version v config.current_version)
  unfolding deserialize
  deserialize_newer bytes v h = ground arith
