-- ===== src/T2/Record.antt =====
-- Records of implementation/vmemkv/src/t2_flat_file/t2_flat_file.hpp and t2_flat_file.cpp. The
-- mapping is the list of its bytes; std::uint32_t fields wrap as le_bytes 4 does.
pub mod Written
pub mod Append
pub mod Stored
pub mod Update
use vmem_kv.Prelude.{
  ℕ, ◌+◌, ◌-◌, ◌*◌, ◌/◌, ◌%◌, ◌^◌, Bool, true, false, List, [], ◌∷◌, ◌++◌, length, replicate, ltb,
  if◌then◌else◌, Outcome, ok, err,
}
use vmem_kv.Bytes.{le_bytes, le_value}
use vmem_kv.Bytes.Struct.{struct_bytes}
use vmem_kv.T2.Window.{window, write_bytes}

-- align_up for the alignment of 8 bytes, whose mask clears the three low bits.
unfoldable pub align_up : ℕ → ℕ
align_up size = (size + 7) / 8 * 8

-- sizeof(ValueRecordHeader): three 4-byte fields, 4 bytes of padding and the version.
abbrev pub record_header_bytes : ℕ
record_header_bytes = 24

unfoldable pub record_aligned_len : ℕ → ℕ → ℕ
unfolding align_up
record_aligned_len key_bytes value_bytes = align_up (record_header_bytes + key_bytes + value_bytes)

pub record T2Memory : Type 0 where
  pub base : List ℕ
  pub capacity : ℕ
  pub bytes_used : ℕ
  pub base_boundary : ℕ

-- ValueRecordHeader and T2RecordView.
pub record T2RecordView : Type 0 where
  pub key_len : ℕ
  pub value_len : ℕ
  pub alloc_len : ℕ
  pub version : ℕ
  pub key : List ℕ
  pub value : List ℕ

abbrev pub version_at : ℕ
version_at = 16

-- The header's fields, then key, value and zero padding with one moving cursor.
unfoldable pub write_record : ℕ → List ℕ → List ℕ → List ℕ → List ℕ
unfolding record_aligned_len
write_record offset key value base =
    let raw_len = record_header_bytes + length key + length value in
    let padding = record_aligned_len (length key) (length value) - raw_len in
    let lens = struct_bytes ((4, length key) ∷ (4, length value) ∷ (4, length value) ∷ []) in
    write_bytes (offset + record_header_bytes) (key ++ (value ++ replicate padding 0))
      (write_bytes (offset + version_at) (le_bytes 8 0) (write_bytes offset lens base))

abbrev pub field_of : List ℕ → ℕ → ℕ → ℕ
field_of base offset width = le_value (window offset width base)

-- make_record_view
unfoldable pub make_record_view : List ℕ → ℕ → T2RecordView
make_record_view base offset =
    let key_len = field_of base offset 4 in
    let value_len = field_of base (offset + 4) 4 in
    record {
      key_len = key_len;
      value_len = value_len;
      alloc_len = field_of base (offset + 8) 4;
      version = field_of base (offset + version_at) 8;
      key = window (offset + record_header_bytes) key_len base;
      value = window (offset + record_header_bytes + key_len) value_len base;
    }

unfoldable pub at : ℕ → T2Memory → T2RecordView
unfolding make_record_view
at payload mem = make_record_view mem.base payload

pub data T2Error : Type 0 where
  capacity_exceeded : T2Error

-- The bytes are claimed before the test, and stay claimed when it throws. Both additions are of 64
-- bits and wrap.
unfoldable pub append_default : T2Memory → List ℕ → List ℕ → T2Memory × Outcome T2Error ℕ
unfolding record_aligned_len write_record
append_default mem key value =
    let required = record_aligned_len (length key) (length value) in
    let offset = mem.bytes_used in
    let end = (offset + required) % 2 ^ 64 in
    let base = if ltb mem.capacity end then mem.base else write_record offset key value mem.base in
    (
      record {
        base = base;
        capacity = mem.capacity;
        bytes_used = end;
        base_boundary = mem.base_boundary;
      },
      if ltb mem.capacity end then err capacity_exceeded else ok offset,
    )

-- The stores of update_value_at in order: an odd version, the value, its length, an even version.
unfoldable pub store_value : ℕ → ℕ → ℕ → List ℕ → List ℕ → List ℕ
store_value offset key_len ver value base =
    write_bytes (offset + version_at) (le_bytes 8 (ver + 2)) (
      write_bytes (offset + 4) (le_bytes 4 (length value)) (
        write_bytes (offset + record_header_bytes + key_len) value
          (write_bytes (offset + version_at) (le_bytes 8 (ver + 1)) base)))

unfoldable pub update_value_at : ℕ → List ℕ → T2Memory → T2Memory × Bool
unfolding store_value
update_value_at payload value mem =
    if ltb (field_of mem.base (payload + 8) 4) (length value) then (mem, false) else (
      record {
        base =
            store_value payload (field_of mem.base payload 4)
              (field_of mem.base (payload + version_at) 8) value mem.base;
        capacity = mem.capacity;
        bytes_used = mem.bytes_used;
        base_boundary = mem.base_boundary;
      },
      true,
    )
