-- ===== src/Checkpoint/Manifest.antt =====
-- The manifest: ManifestHeader, write_manifest and read_manifest.
--
-- `read` returns what the file has, up to the size of the header. A file that is missing, or that
-- `open` refuses, is `none`.
use vmem_kv.Prelude.{
  ℕ, ◌^◌, ◌<◌, ◌≡◌, refl, Bool, not, ◌||◌, Option, none, some, List, [], ◌∷◌, length, take, ◌==◌,
  ==_refl, if◌then◌else◌, arith, length-take, take_all,
}
use vmem_kv.Bytes.Struct.{
  Field, struct_bytes, field_at, length-struct_bytes, field_at-struct_bytes_only,
}
use vmem_kv.Checksum.{fnv_offset_basis64, fnv1a64_update, fnv1a64_update-lt}

abbrev pub manifest_magic : ℕ
manifest_magic = 0x314B4D56

abbrev pub manifest_format_version : ℕ
manifest_format_version = 4

abbrev pub manifest_header_bytes : ℕ
manifest_header_bytes = 32

-- The three reserved bytes are one number.
pub record ManifestHeader : Type 0 where
  pub magic : ℕ
  pub format_version : ℕ
  pub reserved : ℕ
  pub generation : ℕ
  pub t2_bytes_used : ℕ
  pub checksum : ℕ

abbrev pub manifest_fields : ManifestHeader → List Field
manifest_fields h =
    (4, h.magic)
    ∷ (1, h.format_version)
    ∷ (3, h.reserved)
    ∷ (8, h.generation)
    ∷ (8, h.t2_bytes_used)
    ∷ (8, h.checksum)
    ∷ []

-- The header as `write` and `read` see it.
unfoldable pub manifest_bytes : ManifestHeader → List ℕ
manifest_bytes h = struct_bytes (manifest_fields h)

unfoldable pub parse_manifest : List ℕ → ManifestHeader
parse_manifest bytes = record {
  magic = field_at 0 4 bytes;
  format_version = field_at 4 1 bytes;
  reserved = field_at 5 3 bytes;
  generation = field_at 8 8 bytes;
  t2_bytes_used = field_at 16 8 bytes;
  checksum = field_at 24 8 bytes;
}

-- checksum_header at ManifestHeader.
unfoldable pub manifest_checksum : ManifestHeader → ℕ
manifest_checksum h = fnv1a64_update fnv_offset_basis64 (manifest_bytes (record h { checksum = 0 }))

pub record ManifestData : Type 0 where
  pub generation : ℕ
  pub t2_bytes_used : ℕ

-- The header of write_manifest before its checksum.
unfoldable pub new_manifest : ℕ → ℕ → ManifestHeader
new_manifest generation t2_bytes_used = record {
  magic = manifest_magic;
  format_version = manifest_format_version;
  reserved = 0;
  generation = generation;
  t2_bytes_used = t2_bytes_used;
  checksum = 0;
}

-- The bytes that write_manifest renames over the manifest's path.
unfoldable pub write_manifest : ℕ → ℕ → List ℕ
unfolding new_manifest
write_manifest generation t2_bytes_used =
    let header = new_manifest generation t2_bytes_used in
    manifest_bytes (record header { checksum = manifest_checksum header })

-- The tests on a header that was read whole.
unfoldable pub check_manifest : ManifestHeader → Option ManifestData
check_manifest header =
    if not (header.magic == manifest_magic)
      || not (header.format_version == manifest_format_version)
    then none
    else if not (manifest_checksum header == header.checksum)
    then none
    else some (record { generation = header.generation; t2_bytes_used = header.t2_bytes_used })

unfoldable pub read_manifest_bytes : List ℕ → Option ManifestData
read_manifest_bytes file =
    let header_read = take manifest_header_bytes file in
    if not (length header_read == manifest_header_bytes)
    then none
    else check_manifest (parse_manifest header_read)

unfoldable pub read_manifest : Option (List ℕ) → Option ManifestData
read_manifest none = none
read_manifest (some file) = read_manifest_bytes file

module _ (generation t2_bytes_used : ℕ) where
  written : ManifestHeader
  unfolding new_manifest
  written =
      let header = new_manifest generation t2_bytes_used in
      record header { checksum = manifest_checksum header }

  length-write_manifest : length (write_manifest generation t2_bytes_used) ≡ 32
  unfolding write_manifest manifest_bytes written manifest_checksum
  length-write_manifest = length-struct_bytes (manifest_fields written)

  parse-write_manifest :
      generation < 256 ^ 8
      → t2_bytes_used < 256 ^ 8
      → parse_manifest (write_manifest generation t2_bytes_used) ≡ written
  unfolding write_manifest manifest_bytes parse_manifest written new_manifest manifest_checksum
  parse-write_manifest g t = λ i. record {
    magic =
        field_at-struct_bytes_only (manifest_fields written) 0 4 manifest_magic refl (omega arith)
          i;
    format_version =
        field_at-struct_bytes_only (manifest_fields written) 1 1 manifest_format_version refl
          (omega arith) i;
    reserved = field_at-struct_bytes_only (manifest_fields written) 2 3 0 refl (omega arith) i;
    generation = field_at-struct_bytes_only (manifest_fields written) 3 8 generation refl g i;
    t2_bytes_used = field_at-struct_bytes_only (manifest_fields written) 4 8 t2_bytes_used refl t i;
    checksum =
        field_at-struct_bytes_only (manifest_fields written) 5 8 written.checksum refl
          (fnv1a64_update-lt fnv_offset_basis64 _ (omega arith)) i;
  }

  check_manifest-written :
      check_manifest written
      ≡ some (record { generation = generation; t2_bytes_used = t2_bytes_used })
  unfolding check_manifest written new_manifest manifest_checksum manifest_bytes
  check_manifest-written = rw (==_refl written.checksum) refl

  read-whole :
      generation < 256 ^ 8
      → t2_bytes_used < 256 ^ 8
      → read_manifest_bytes (write_manifest generation t2_bytes_used)
        ≡ some (record { generation = generation; t2_bytes_used = t2_bytes_used })
  unfolding read_manifest_bytes
  read-whole g t =
      rw
        (
          take_all 32 (write_manifest generation t2_bytes_used)
              (omega (arith, length-write_manifest)),
          length-write_manifest,
          parse-write_manifest g t,
        )
        check_manifest-written

  read-torn :
      (n : ℕ)
      → n < 32
      → read_manifest_bytes (take n (write_manifest generation t2_bytes_used)) ≡ none
  unfolding read_manifest_bytes
  read-torn n h =
      let file = write_manifest generation t2_bytes_used in
      let few : (length (take 32 (take n file)) == 32) ≡ Bool.false =
        ground (arith, length-take 32 (take n file), length-take n file) in
      rw few refl

  -- A manifest that was written whole is read back, where both numbers fit 64 bits; from fewer than
  -- 32 bytes of it nothing is read, and neither is anything where no file stands.
  pub read_manifest-write_manifest :
      generation < 256 ^ 8
      → t2_bytes_used < 256 ^ 8
      → (n : ℕ) → n < 32
      → (read_manifest (some (write_manifest generation t2_bytes_used))
          ≡ some (record { generation = generation; t2_bytes_used = t2_bytes_used }))
        × (read_manifest (some (take n (write_manifest generation t2_bytes_used))) ≡ none)
        × (read_manifest none ≡ none)
  unfolding read_manifest
  read_manifest-write_manifest g t n h = (read-whole g t, read-torn n h, refl)
