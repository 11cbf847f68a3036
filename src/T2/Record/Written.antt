-- ===== src/T2/Record/Written.antt =====
-- The bytes that write_record of implementation/vmemkv/src/t2_flat_file/t2_flat_file.cpp writes.
use mathlib.Core.Path.{ap₂}
use vmem_kv.Prelude.{
  length-replicate, ℕ, ◌+◌, ◌-◌, ◌^◌, ◌≤◌, ◌<◌, ◌≡◌, refl, sym, ap, ◌∙◌, List, [], ◌∷◌, ◌++◌,
  length, replicate, take, arith, length-append, some, get_elem?, take-append_length,
  drop-append_length,
}
use vmem_kv.Bytes.{le_bytes, le_value, length-le_bytes, le_value-le_bytes}
use vmem_kv.Bytes.Struct.{
  Field, struct_bytes, offset_of, length-struct_bytes, field_at-struct_bytes_only,
}
use vmem_kv.T2.Window.{
  window, write_bytes, length-write_bytes, window-write_bytes, window-write_bytes_before,
  window-window,
}
use vmem_kv.T2.Record.{
  align_up, record_header_bytes, record_aligned_len, T2RecordView, version_at, write_record,
  field_of, make_record_view,
}

pub record_aligned_len_bounds :
    (k v : ℕ)
    → (record_header_bytes + k + v ≤ record_aligned_len k v)
      × (record_aligned_len k v < record_header_bytes + k + v + 8)
unfolding record_aligned_len align_up
record_aligned_len_bounds k v = (omega arith, omega arith)

module _ (offset : ℕ) (key value base : List ℕ) (small_key : length key < 256 ^ 4)
    (small_value : length value < 256 ^ 4)
    (fits : offset + record_aligned_len (length key) (length value) ≤ length base) where
  abbrev k : ℕ
  k = length key

  abbrev v : ℕ
  v = length value

  abbrev aligned : ℕ
  aligned = record_aligned_len k v

  abbrev padding : ℕ
  padding = aligned - (record_header_bytes + k + v)

  abbrev tail : List ℕ
  tail = value ++ replicate padding 0

  abbrev fields : List Field
  fields = (4, k) ∷ (4, v) ∷ (4, v) ∷ []

  abbrev one : List ℕ
  one = write_bytes offset (struct_bytes fields) base

  abbrev two : List ℕ
  two = write_bytes (offset + version_at) (le_bytes 8 0) one

  abbrev three : List ℕ
  three = write_bytes (offset + record_header_bytes) (key ++ tail) two

  room : record_header_bytes + k + v ≤ aligned
  room = (record_aligned_len_bounds k v).0

  length-tail : length (key ++ tail) ≡ aligned - record_header_bytes
  length-tail =
      let zeros : length (replicate {A = ℕ} padding 0) ≡ padding = length-replicate padding 0 in
      omega (arith, length-append key tail, length-append value (replicate padding 0), zeros, room)

  fits-one : offset + length (struct_bytes fields) ≤ length base
  fits-one = omega (arith, length-struct_bytes fields, room, fits)

  length-one : length one ≡ length base
  length-one = length-write_bytes offset (struct_bytes fields) base fits-one

  fits-two : offset + version_at + length (le_bytes 8 0) ≤ length one
  fits-two = omega (arith, length-le_bytes 8 0, length-one, room, fits)

  length-two : length two ≡ length base
  length-two = length-write_bytes (offset + version_at) (le_bytes 8 0) one fits-two ∙ length-one

  fits-three : offset + record_header_bytes + length (key ++ tail) ≤ length two
  fits-three = omega (arith, length-tail, length-two, room, fits)

  length-three : length three ≡ length base
  length-three =
      length-write_bytes (offset + record_header_bytes) (key ++ tail) two fits-three ∙ length-two

  -- Each of the three writes leaves what is before the record.
  three-before : (o n : ℕ) → o + n ≤ offset → window o n three ≡ window o n base
  three-before o n h =
      window-write_bytes_before (offset + record_header_bytes) (key ++ tail) two fits-three o n
        (omega arith)
      ∙ window-write_bytes_before (offset + version_at) (le_bytes 8 0) one fits-two o n
          (omega arith)
      ∙ window-write_bytes_before offset (struct_bytes fields) base fits-one o n h

  pub length-write_record : length (write_record offset key value base) ≡ length base
  unfolding write_record
  length-write_record = length-three

  pub write_record-before :
      (o n : ℕ) → o + n ≤ offset → window o n (write_record offset key value base) ≡ window o n base
  unfolding write_record
  write_record-before o n h = three-before o n h

  header-window : window offset (length (struct_bytes fields)) three ≡ struct_bytes fields
  header-window =
      let n = length (struct_bytes fields) in
      let size = length-struct_bytes fields in
      window-write_bytes_before (offset + record_header_bytes) (key ++ tail) two fits-three offset n
        (omega (arith, size))
      ∙ window-write_bytes_before (offset + version_at) (le_bytes 8 0) one fits-two offset n
          (omega (arith, size))
      ∙ window-write_bytes offset (struct_bytes fields) base fits-one

  header-field :
      (n x : ℕ)
      → get_elem? fields n ≡ some (4, x)
      → x < 256 ^ 4
      → offset_of fields n + 4 ≤ 12
      → field_of three (offset + offset_of fields n) 4 ≡ x
  header-field n x e b h =
      ap le_value (
        sym (
          window-window offset (length (struct_bytes fields)) (offset_of fields n) 4 three
            (omega (arith, length-struct_bytes fields)))
        ∙ ap (window (offset_of fields n) 4) header-window)
      ∙ field_at-struct_bytes_only fields n 4 x e b

  version-field : field_of three (offset + version_at) 8 ≡ 0
  version-field =
      ap le_value (
        ap (λ n. window (offset + version_at) n three) (sym (length-le_bytes 8 0))
        ∙ window-write_bytes_before (offset + record_header_bytes) (key ++ tail) two fits-three
            (offset + version_at) (length (le_bytes 8 0)) (omega (arith, length-le_bytes 8 0))
        ∙ window-write_bytes (offset + version_at) (le_bytes 8 0) one fits-two)
      ∙ le_value-le_bytes 8 0 (omega arith)

  payload-window :
      (p m : ℕ)
      → p + m ≤ k + v
      → window (offset + record_header_bytes + p) m three ≡ window p m (key ++ tail)
  payload-window p m h =
      sym (
        window-window (offset + record_header_bytes) (length (key ++ tail)) p m three
          (omega (arith, length-tail, room)))
      ∙ ap (window p m)
          (window-write_bytes (offset + record_header_bytes) (key ++ tail) two fits-three)

  key-window : window (offset + record_header_bytes) k three ≡ key
  key-window =
      ap (λ o. window o k three) (plus_zero (offset + record_header_bytes))
      ∙ payload-window 0 k (omega arith)
      ∙ take-append_length key tail k refl
    where
      plus_zero : (n : ℕ) → n ≡ n + 0
      plus_zero n = omega arith

  value-window : window (offset + record_header_bytes + k) v three ≡ value
  value-window =
      payload-window k v (omega arith)
      ∙ ap (take v) (drop-append_length key tail k refl)
      ∙ take-append_length value (replicate padding 0) v refl

  abbrev pub appended : T2RecordView
  appended = record {
    key_len = k;
    value_len = v;
    alloc_len = v;
    version = 0;
    key = key;
    value = value;
  }

  pub make_record_view-write_record :
      make_record_view (write_record offset key value base) offset ≡ appended
  unfolding make_record_view write_record
  make_record_view-write_record =
      let zero_offset : offset ≡ offset + 0 = omega arith in
      let ek : field_of three offset 4 ≡ k =
        ap (λ o. field_of three o 4) zero_offset ∙ header-field 0 k refl small_key (omega arith) in
      let ev : field_of three (offset + 4) 4 ≡ v =
        header-field 1 v refl small_value (omega arith) in
      let ea : field_of three (offset + 8) 4 ≡ v =
        header-field 2 v refl small_value (omega arith) in
      let key_eq : window (offset + record_header_bytes) (field_of three offset 4) three ≡ key =
        ap (λ n. window (offset + record_header_bytes) n three) ek ∙ key-window in
      let value_eq : window (offset + record_header_bytes + field_of three offset 4)
            (field_of three (offset + 4) 4) three
          ≡ value =
        ap₂ (λ n m. window (offset + record_header_bytes + n) m three) ek ev ∙ value-window in
      λ i. record {
        key_len = ek i;
        value_len = ev i;
        alloc_len = ea i;
        version = version-field i;
        key = key_eq i;
        value = value_eq i;
      }
