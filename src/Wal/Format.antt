-- ===== src/Wal/Format.antt =====
-- The bytes of one record: WalRecordHeader, compute_checksum, the serialisation in
-- Wal::reserve_record, and the header read back by Wal::read_header_at.
pub mod Laws
use vmem_kv.Prelude.{
  ℕ, ◌+◌, ◌-◌, ◌%◌, ◌^◌, ◌<◌, ◌≡◌, refl, List, [], ◌∷◌, ◌++◌, length, take, drop, arith,
}
use vmem_kv.Bytes.Struct.{Field, struct_bytes, field_at}
use vmem_kv.Checksum.{fnv_offset_basis64, fnv1a64_update}

pub data WalRecordType : Type 0 where
  insert update delete : WalRecordType

-- static_cast<uint8_t>(type)
unfoldable pub type_code : WalRecordType → ℕ
type_code insert = 1
type_code update = 2
type_code delete = 3

abbrev pub wal_record_magic : ℕ
wal_record_magic = 0x574c4b31

abbrev pub wal_format_version : ℕ
wal_format_version = 1

-- The two reserved bytes are one number.
pub record WalRecordHeader : Type 0 where
  pub lsn : ℕ
  pub checksum : ℕ
  pub magic : ℕ
  pub key_len : ℕ
  pub value_len : ℕ
  pub type : ℕ
  pub format_version : ℕ
  pub reserved : ℕ

abbrev pub wal_record_header_bytes : ℕ
wal_record_header_bytes = 32

-- The fields in declaration order, with their widths: 32 bytes, and no padding.
abbrev pub header_fields : WalRecordHeader → List Field
header_fields h =
    (8, h.lsn)
    ∷ (8, h.checksum)
    ∷ (4, h.magic)
    ∷ (4, h.key_len)
    ∷ (4, h.value_len)
    ∷ (1, h.type)
    ∷ (1, h.format_version)
    ∷ (2, h.reserved)
    ∷ []

unfoldable pub header_bytes : WalRecordHeader → List ℕ
header_bytes h = struct_bytes (header_fields h)

-- read_header_at, once pread_exact has filled the struct.
unfoldable pub parse_header : List ℕ → WalRecordHeader
parse_header bytes = record {
  lsn = field_at 0 8 bytes;
  checksum = field_at 8 8 bytes;
  magic = field_at 16 4 bytes;
  key_len = field_at 20 4 bytes;
  value_len = field_at 24 4 bytes;
  type = field_at 28 1 bytes;
  format_version = field_at 29 1 bytes;
  reserved = field_at 30 2 bytes;
}

-- checksum_header: the header is hashed with its checksum field zeroed.
unfoldable pub checksum_header : WalRecordHeader → ℕ
checksum_header h = fnv1a64_update fnv_offset_basis64 (header_bytes (record h { checksum = 0 }))

-- checksum_header_plus_spans(header, {key, value})
unfoldable pub compute_checksum : WalRecordHeader → List ℕ → List ℕ → ℕ
unfolding checksum_header
compute_checksum h key value = fnv1a64_update (fnv1a64_update (checksum_header h) key) value

-- The header of reserve_record before its checksum; both lengths are cast to 32 bits.
unfoldable pub bare_header : WalRecordType → List ℕ → List ℕ → ℕ → WalRecordHeader
unfolding type_code
bare_header type key value lsn = record {
  lsn = lsn;
  checksum = 0;
  magic = wal_record_magic;
  key_len = length key % 2 ^ 32;
  value_len = length value % 2 ^ 32;
  type = type_code type;
  format_version = wal_format_version;
  reserved = 0;
}

unfoldable pub record_header : WalRecordType → List ℕ → List ℕ → ℕ → WalRecordHeader
unfolding bare_header
record_header type key value lsn =
    let header = bare_header type key value lsn in
    record header { checksum = compute_checksum header key value }

-- The buffer of a PendingRecord: header, key, value.
unfoldable pub serialize_record : WalRecordType → List ℕ → List ℕ → ℕ → List ℕ
unfolding record_header
serialize_record type key value lsn =
    header_bytes (record_header type key value lsn) ++ (key ++ value)
