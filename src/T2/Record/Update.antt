-- ===== src/T2/Record/Update.antt =====
-- An update in place changes the value and nothing else that a reader of records sees.
use vmem_kv.Prelude.{
  ℕ, ◌+◌, ◌^◌, ◌≤◌, ◌<◌, ◌≡◌, refl, ◌⊎◌, Bool, true, false, Bool-cases, inl, inr, List, length, ltb,
  arith, ltb→lt, ltb_false→le,
}
use vmem_kv.T2.Window.{window}
use vmem_kv.T2.Record.{
  record_header_bytes, T2Memory, version_at, field_of, make_record_view, at, update_value_at,
}
use vmem_kv.T2.Record.Stored.{length-store_value, store_value-outside, make_record_view-store_value}

-- What update_value_at leaves behind for a record that was read as `old`: a value that does not fit
-- is refused and nothing changes; otherwise the record is read with the new value, the same key and
-- allocation, and the next even version, and a window beside the record is as it was.
pub record Updated (mem : T2Memory) (payload : ℕ) (value : List ℕ) (o m : ℕ)
    (after : T2Memory × Bool) : Type 0 where
  pub sized : length after.0.base ≡ length mem.base
  pub kept : window o m after.0.base ≡ window o m mem.base
  pub outcome :
      ((after.1 ≡ true)
        × (length value ≤ (at payload mem).alloc_len)
        × (at payload after.0 ≡ record {
          key_len = (at payload mem).key_len;
          value_len = length value;
          alloc_len = (at payload mem).alloc_len;
          version = (at payload mem).version + 2;
          key = (at payload mem).key;
          value = value;
        }))
      ⊎ ((after.1 ≡ false) × (after.0 ≡ mem) × ((at payload mem).alloc_len < length value))

-- update_value_at on a record whose header, key and allocated value lie in the mapping, for a value of
-- less than 2 ^ 32 bytes and a version that does not overflow, and a window that ends before the record or
-- begins after its allocated value: the window keeps its bytes. Either the value fits in the allocated
-- length, and the record is then read with the new value, the same key and allocated length, and a
-- version that is 2 higher; or it does not fit, and the call returns false and changes nothing.
pub update_value_at-Updated :
    (mem : T2Memory) (payload : ℕ) (value : List ℕ) (o m : ℕ)
    → payload + record_header_bytes + (at payload mem).key_len + (at payload mem).alloc_len
      ≤ length mem.base
    → length value < 256 ^ 4
    → (at payload mem).version + 2 < 256 ^ 8
    → (o + m ≤ payload)
      ⊎ (payload + record_header_bytes + (at payload mem).key_len + (at payload mem).alloc_len ≤ o)
    → Updated mem payload value o m (update_value_at payload value mem)
unfolding update_value_at at make_record_view
update_value_at-Updated mem payload value o m fits small_value small_version beside =
    let key_len = field_of mem.base payload 4 in
    let alloc_len = field_of mem.base (payload + 8) 4 in
    let ver = field_of mem.base (payload + version_at) 8 in
    elim (Bool-cases (ltb alloc_len (length value))) [
      | inl over ↦ rw over record {
        sized = refl;
        kept = refl;
        outcome = inr (refl, refl, ltb→lt alloc_len (length value) over);
      }
      | inr room ↦
          let le : length value ≤ alloc_len = ltb_false→le alloc_len (length value) room in
          let inside : payload + record_header_bytes + key_len + length value ≤ length mem.base =
            omega (arith, le, fits) in
          let apart : (o + m ≤ payload)
              ⊎ (payload + record_header_bytes + key_len + length value ≤ o) =
            elim beside [ inl h ↦ inl h | inr h ↦ inr (omega (arith, le, h)) ] in
          rw room record {
            sized = length-store_value payload key_len ver value mem.base inside;
            kept = store_value-outside payload key_len ver value mem.base inside o m apart;
            outcome = inl (
              refl,
              le,
              make_record_view-store_value payload key_len ver value mem.base inside refl
                  small_value small_version,
            );
          }
    ]
