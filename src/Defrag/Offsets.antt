-- ===== src/Defrag/Offsets.antt =====
-- The records that a cycle moves: collect_victim_offsets.
--
-- The scan of the index over all prefixes is the list of what it calls back with. binary_search is
-- a search from the front, which agrees with it on the sorted list of victims.
pub mod Complete
use vmem_kv.Prelude.{
  ℕ, zero, suc, ◌+◌, ◌*◌, ◌^◌, Bool, true, false, ◌&&◌, ◌||◌, List, [], ◌∷◌, leb, ltb, ◌==◌,
  if◌then◌else◌,
}
use vmem_kv.T1.Codec.{store_not_found, is_inline}
use vmem_kv.T2.Record.{T2Memory, T2RecordView, at, record_aligned_len}
use vmem_kv.Store.Ownership.{T2Ownership, payload_offset, seg_index}
use vmem_kv.Defrag.{u64, segment_count}
use vmem_kv.Defrag.Victims.{sort_numbers}

abbrev pub punch_slop_bytes : ℕ
punch_slop_bytes = 2 ^ 20

-- What the callback of the scan receives, besides the key.
pub record Scanned : Type 0 where
  pub payload : ℕ
  pub hash : ℕ

-- std::binary_search, whose contract wants an ascending list: select_victims returns one.
unfoldable pub contains : ℕ → List ℕ → Bool
contains n [] = false
contains n (m ∷ ms) = n == m || contains n ms

-- The aligned length of the record at an offset, from its header.
unfoldable pub aligned_at : ℕ → T2Memory → ℕ
aligned_at off mem = let head = at off mem in record_aligned_len head.key_len head.value_len

-- A record below `span_start` that reaches over it.
unfoldable pub straddles : ℕ → ℕ → ℕ → Bool
straddles span_start off aligned =
    leb span_start (off + punch_slop_bytes) && ltb off span_start && ltb span_start (off + aligned)

-- The record at an offset in segment `seg`.
unfoldable pub is_in_victim : ℕ → T2Ownership → List ℕ → T2Memory → ℕ → ℕ → Bool
unfolding contains aligned_at straddles
is_in_victim segment_bytes own victim_segs mem off seg =
    if contains seg victim_segs
    then true
    else if ltb (seg + 1) (segment_count own) && contains (seg + 1) victim_segs
    then straddles (u64 ((seg + 1) * segment_bytes)) off (aligned_at off mem)
    else false

unfoldable pub is_wanted : ℕ → T2Ownership → List ℕ → ℕ → T2Memory → Scanned → Bool
unfolding is_in_victim
is_wanted segment_bytes own victim_segs used mem entry =
    let off = payload_offset entry.payload in
    if entry.payload == store_not_found || is_inline entry.hash
    then false
    else if leb used off
    then false
    else is_in_victim segment_bytes own victim_segs mem off (seg_index segment_bytes off)

unfoldable pub wanted_offsets : ℕ → T2Ownership → List ℕ → ℕ → T2Memory → List Scanned → List ℕ
unfolding is_wanted
wanted_offsets segment_bytes own victim_segs used mem [] = []
wanted_offsets segment_bytes own victim_segs used mem (entry ∷ scanned) =
    let rest = wanted_offsets segment_bytes own victim_segs used mem scanned in
    if is_wanted segment_bytes own victim_segs used mem entry
    then payload_offset entry.payload ∷ rest
    else rest

-- std::unique: what follows the value kept last.
unfoldable pub unique_after : ℕ → List ℕ → List ℕ
unique_after last [] = []
unique_after last (x ∷ xs) =
    let dropped = unique_after last xs in
    let kept = x ∷ unique_after x xs in if last == x then dropped else kept

unfoldable pub unique : List ℕ → List ℕ
unfolding unique_after
unique [] = []
unique (x ∷ xs) = x ∷ unique_after x xs

unfoldable pub collect_victim_offsets :
    ℕ → T2Ownership → List ℕ → ℕ → T2Memory → List Scanned → List ℕ
unfolding wanted_offsets unique
collect_victim_offsets segment_bytes own victim_segs used mem scanned =
    unique (sort_numbers (wanted_offsets segment_bytes own victim_segs used mem scanned))
