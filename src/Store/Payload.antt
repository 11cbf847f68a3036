-- ===== src/Store/Payload.antt =====
-- The payload of a record in the file: its offset and a hint of its size, as write_entry_lockfree of
-- implementation/vmemkv/src/vmemkv/write_path.hpp encodes them and base_size_hint of
-- implementation/vmemkv/src/vmemkv/read_path.hpp reads them.
use vmem_kv.Prelude.{
  ℕ, ◌+◌, ◌*◌, ◌/◌, ◌%◌, ◌^◌, ◌≤◌, ◌<◌, ◌≡◌, ◌≢◌, refl, sym, ap, ◌∙◌, Bool-cases, inl, inr, Option,
  none, some, leb, if◌then◌else◌, arith,
}
use vmem_kv.T1.Codec.{store_not_found}
use vmem_kv.T2.Record.{record_aligned_len, record_header_bytes}
use vmem_kv.T2.Record.Written.{record_aligned_len_bounds}
use vmem_kv.Store.Ownership.{payload_offset, hint_bytes}

-- `none` is the runtime_error about a record that is too large. `offset | block_count << 48`, where the
-- offset has 48 bits, so `|` is +.
unfoldable pub encode_payload : ℕ → ℕ → Option ℕ
encode_payload offset aligned_len =
    let block_count = aligned_len / 16 in
    if leb 65536 block_count then none else some (offset + block_count * 2 ^ 48)

unfoldable pub base_size_hint : ℕ → ℕ
base_size_hint payload_bits = payload_bits / 2 ^ 48 * 16 + 16

-- What a payload says of the record at an offset with an aligned length.
pub record Encoded (offset aligned_len payload : ℕ) : Type 0 where
  pub word : payload < 2 ^ 64
  pub located : payload_offset payload ≡ offset
  pub positive : 0 < hint_bytes payload
  pub under : hint_bytes payload ≤ aligned_len
  pub covered : aligned_len ≤ base_size_hint payload
  pub present : payload ≢ store_not_found

pick : ℕ → Option ℕ → ℕ
pick d none = d
pick d (some n) = n

encoded :
    (offset aligned_len payload : ℕ)
    → encode_payload offset aligned_len ≡ some payload
    → (aligned_len / 16 < 65536) × (payload ≡ offset + aligned_len / 16 * 2 ^ 48)
unfolding encode_payload pick
encoded offset aligned_len payload e = elim (Bool-cases (leb 65536 (aligned_len / 16))) [
  | inl big ↦ let clash : none ≡ some payload = sym (rw big refl) ∙ e in absurd (cc clash)
  | inr fine ↦
      let same : some (offset + aligned_len / 16 * 2 ^ 48) ≡ some payload =
        sym (rw fine refl) ∙ e in
      (ground (arith, fine), sym (ap (pick 0) same))
]

-- Where a payload is encoded for a record of any key and value at an offset of 48 bits that is a
-- multiple of 8: it is a 64-bit word, it gives the offset back, its size hint is above 0 and at most
-- the record's aligned length, a read of the size that base_size_hint gives covers the record, and it
-- is not the sentinel of absence.
pub encode_payload-Encoded :
    (offset k v payload : ℕ)
    → offset < 2 ^ 48
    → offset % 8 ≡ 0
    → encode_payload offset (record_aligned_len k v) ≡ some payload
    → Encoded offset (record_aligned_len k v) payload
unfolding payload_offset hint_bytes base_size_hint
encode_payload-Encoded offset k v payload small even e =
    let aligned_len = record_aligned_len k v in
    let (blocks, value) = encoded offset aligned_len payload e in
    let low : record_header_bytes + k + v ≤ aligned_len = (record_aligned_len_bounds k v).0 in
    let upper : payload / 2 ^ 48 ≡ aligned_len / 16 = omega (arith, value, small) in
    let lower : payload % 2 ^ 48 ≡ offset = omega (arith, value, small) in
    record {
      word = omega (arith, value, small, blocks);
      located = lower;
      positive = omega (arith, upper, low);
      under = omega (arith, upper);
      covered = omega (arith, upper);
      present = λ s. absurd (omega (arith, s, lower, even));
    }
