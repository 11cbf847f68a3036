-- ===== src/Store/Ownership.antt =====
-- Live bytes per segment of the record file, implementation/vmemkv/src/vmemkv/t2_ownership.hpp. The
-- counters are 64-bit words, whose additions and subtractions wrap. The segment size comes from the
-- configuration, and is an argument.
pub mod Accounting
pub mod Replace
use vmem_kv.Prelude.{
  ℕ, ◌+◌, ◌-◌, ◌*◌, ◌/◌, ◌%◌, ◌^◌, Bool, true, false, ◌&&◌, not, List, length, set, get_elem?, some,
  none, ltb, ◌==◌, if◌then◌else◌, replicate,
}
use vmem_kv.T1.Codec.{store_not_found, is_inline}

-- `& kPayloadOffsetMask` and `>> kPayloadSizeShift`, with 48 bits of offset.
unfoldable pub payload_offset : ℕ → ℕ
payload_offset payload_bits = payload_bits % 2 ^ 48

unfoldable pub hint_bytes : ℕ → ℕ
hint_bytes payload_bits = payload_bits / 2 ^ 48 * 16

unfoldable pub seg_index : ℕ → ℕ → ℕ
seg_index segment_bytes masked_offset = masked_offset / segment_bytes

pub record T2Ownership : Type 0 where
  pub seg_live : List ℕ
  pub live_total : ℕ

-- The constructor.
unfoldable pub ownership_of : ℕ → T2Ownership
ownership_of segment_count = record { seg_live = replicate segment_count 0; live_total = 0 }

unfoldable pub seg_live_at : List ℕ → ℕ → ℕ
seg_live_at counters seg = elim (get_elem? counters seg) [ some n ↦ n | none ↦ 0 ]

unfoldable pub fetch_add : ℕ → ℕ → ℕ
fetch_add counter n = (counter + n) % 2 ^ 64

unfoldable pub fetch_sub : ℕ → ℕ → ℕ
fetch_sub counter n = (counter + (2 ^ 64 - n % 2 ^ 64)) % 2 ^ 64

unfoldable pub add_live : ℕ → ℕ → T2Ownership → T2Ownership
unfolding seg_live_at fetch_add
add_live seg hint own =
    if ltb seg (length own.seg_live)
    then record {
      seg_live = set own.seg_live seg (fetch_add (seg_live_at own.seg_live seg) hint);
      live_total = fetch_add own.live_total hint;
    }
    else own

unfoldable pub subtract_live : ℕ → ℕ → T2Ownership → T2Ownership
unfolding seg_live_at fetch_sub
subtract_live seg hint own =
    if ltb seg (length own.seg_live)
    then record {
      seg_live = set own.seg_live seg (fetch_sub (seg_live_at own.seg_live seg) hint);
      live_total = fetch_sub own.live_total hint;
    }
    else own

-- Whether a payload and its hash name bytes of the record file.
unfoldable pub owns_bytes : ℕ → ℕ → Bool
unfolding is_inline
owns_bytes old_bits old_hash = not (old_bits == store_not_found) && not (is_inline old_hash)

unfoldable pub note_replace : ℕ → ℕ → ℕ → Bool → ℕ → T2Ownership → T2Ownership
unfolding owns_bytes subtract_live add_live
note_replace segment_bytes old_bits old_hash new_is_offset new_bits own =
    let without =
      if owns_bytes old_bits old_hash
      then subtract_live (seg_index segment_bytes (payload_offset old_bits)) (hint_bytes old_bits)
          own
      else own in
    if new_is_offset
    then add_live (seg_index segment_bytes (payload_offset new_bits)) (hint_bytes new_bits) without
    else without
