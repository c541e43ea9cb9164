-- ===== src/Serde/Laws.antt =====
-- The binary encodings there and back.
use rivetkit.Base.{true, arith, ◌^◌, ◌<◌, ◌≡◌, refl, ap, some}
use rivetkit.Versioned
use rivetkit.Versioned.{Bytes, Config}
use rivetkit.Versioned.Laws.{deserialize-serialize_with_embedded_version}
use rivetkit.Serde.{
  Encoding, json, cbor, bare, ok, encoding_is_binary, Formats, of_version, serialize_with_encoding,
  deserialize_with_encoding,
}

-- The binary formats, which packages make, read a value back that they wrote. `JSON` with the
-- replacer for big integers does not, of a value that has big integers or bytes.
pub record ReadsBack {T : Type 0} (formats : Formats T) (v : T) : Type 0 where
  pub cbor_reads : formats.decode (formats.encode v) ≡ some v
  pub version_fits : formats.versioned.current_version < 2 ^ 32
  pub bare_reads :
      formats.versioned.deserialize_version (formats.versioned.serialize_version v) ≡ Versioned.ok v

pub deserialize-serialize_with_encoding :
    {T : Type 0} (formats : Formats T) (e : Encoding) (v : T)
    → encoding_is_binary e ≡ true
    → ReadsBack formats v
    → deserialize_with_encoding formats e (serialize_with_encoding formats e v) ≡ ok v
unfolding deserialize_with_encoding serialize_with_encoding encoding_is_binary
deserialize-serialize_with_encoding formats json v b h = absurd (ground (arith, b))
deserialize-serialize_with_encoding formats cbor v b h = rw (h.cbor_reads) refl
deserialize-serialize_with_encoding formats bare v b h =
    ap of_version
      (deserialize-serialize_with_embedded_version formats.versioned v h.version_fits h.bare_reads)
