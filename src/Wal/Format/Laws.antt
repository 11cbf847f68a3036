-- ===== src/Wal/Format/Laws.antt =====
-- What a record's bytes say: their number, the header read back from them, and the checksum's
-- range.
use vmem_kv.Prelude.{ℕ, ◌+◌, ◌^◌, ◌<◌, ◌≡◌, refl, List, ◌++◌, length, arith, length-append}
use vmem_kv.Bytes.Struct.{length-struct_bytes, field_at-struct_bytes_only}
use vmem_kv.Checksum.{fnv_offset_basis64, fnv1a64_update-lt}
use vmem_kv.Wal.Format.{
  WalRecordType, WalRecordHeader, bare_header, type_code, header_fields, header_bytes, parse_header,
  record_header, serialize_record, compute_checksum, insert,
}

-- Every field fits the width that the struct gives it.
pub record IsInRange (h : WalRecordHeader) : Type 0 where
  pub lsn_fits : h.lsn < 256 ^ 8
  pub checksum_fits : h.checksum < 256 ^ 8
  pub magic_fits : h.magic < 256 ^ 4
  pub key_len_fits : h.key_len < 256 ^ 4
  pub value_len_fits : h.value_len < 256 ^ 4
  pub type_fits : h.type < 256 ^ 1
  pub format_version_fits : h.format_version < 256 ^ 1
  pub reserved_fits : h.reserved < 256 ^ 2

pub length-header_bytes : (h : WalRecordHeader) → length (header_bytes h) ≡ 32
unfolding header_bytes
length-header_bytes h = length-struct_bytes (header_fields h)

-- Reading a header back gives its fields.
pub parse_header-header_bytes :
    (h : WalRecordHeader) → IsInRange h → parse_header (header_bytes h) ≡ h
unfolding header_bytes parse_header
parse_header-header_bytes h r = λ i. record {
  lsn = field_at-struct_bytes_only (header_fields h) 0 8 h.lsn refl r.lsn_fits i;
  checksum = field_at-struct_bytes_only (header_fields h) 1 8 h.checksum refl r.checksum_fits i;
  magic = field_at-struct_bytes_only (header_fields h) 2 4 h.magic refl r.magic_fits i;
  key_len = field_at-struct_bytes_only (header_fields h) 3 4 h.key_len refl r.key_len_fits i;
  value_len = field_at-struct_bytes_only (header_fields h) 4 4 h.value_len refl r.value_len_fits i;
  type = field_at-struct_bytes_only (header_fields h) 5 1 h.type refl r.type_fits i;
  format_version =
      field_at-struct_bytes_only (header_fields h) 6 1 h.format_version refl r.format_version_fits
        i;
  reserved = field_at-struct_bytes_only (header_fields h) 7 2 h.reserved refl r.reserved_fits i;
}

pub compute_checksum-lt :
    (h : WalRecordHeader) (key value : List ℕ) → compute_checksum h key value < 256 ^ 8
unfolding compute_checksum
compute_checksum-lt h key value =
    fnv1a64_update-lt _ value
      (fnv1a64_update-lt _ key (fnv1a64_update-lt fnv_offset_basis64 _ (omega arith)))

type_code-lt : (t : WalRecordType) → type_code t < 256 ^ 1
unfolding type_code
type_code-lt insert = omega arith
type_code-lt _ = omega arith

-- A header that reserve_record fills in fits its struct.
pub record_header-IsInRange :
    (t : WalRecordType) (key value : List ℕ) (lsn : ℕ)
    → lsn < 2 ^ 64
    → IsInRange (record_header t key value lsn)
unfolding record_header
record_header-IsInRange t key value lsn h = record {
  lsn_fits = omega arith;
  checksum_fits = compute_checksum-lt (bare_header t key value lsn) key value;
  magic_fits = omega arith;
  key_len_fits = omega arith;
  value_len_fits = omega arith;
  type_fits = type_code-lt t;
  format_version_fits = omega arith;
  reserved_fits = omega arith;
}

pub length-serialize_record :
    (t : WalRecordType) (key value : List ℕ) (lsn : ℕ)
    → length (serialize_record t key value lsn) ≡ 32 + (length key + length value)
unfolding serialize_record
length-serialize_record t key value lsn = omega (
  arith,
  length-append (header_bytes (record_header t key value lsn)) (key ++ value),
  length-append key value,
  length-header_bytes (record_header t key value lsn),
)
