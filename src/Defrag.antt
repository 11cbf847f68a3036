-- ===== src/Defrag.antt =====
-- Defragmentation of the record file, implementation/vmemkv/src/vmemkv/defrag_controller.hpp: when a
-- cycle is due, which segments it empties, and which it gives back to the file system.
--
-- The atomics are read and written one at a time, by one cycle at a time. The segment size and the
-- budget of a cycle come from the configuration, and are arguments.
pub mod Trigger
pub mod Punch
pub mod Victims
pub mod Offsets
pub mod Cycle
use vmem_kv.Prelude.{
  ℕ, ◌+◌, ◌*◌, ◌%◌, ◌^◌, Bool, true, false, ◌&&◌, not, List, length, leb, ltb, ◌==◌,
}
use vmem_kv.Store.Ownership.{T2Ownership, seg_live_at}

-- DefragState. `running` and the times of a cycle are left out. pending_punch_count is a number of
-- its own, since defrag_wanted reads it in place of the queue.
pub record DefragState : Type 0 where
  pub pending_punch : List ℕ
  pub pending_punch_count : ℕ
  pub last_checkpoint : ℕ
  pub last_overhead_bp : ℕ
  pub punch_probed : Bool
  pub punch_supported : Bool
  pub cycle_count : ℕ
  pub last_moved_bytes : ℕ
  pub last_punched_bytes : ℕ

abbrev pub u64 : ℕ → ℕ
u64 n = n % 2 ^ 64

-- T2Ownership::seg_live, for a segment that is counted.
abbrev pub live_of : T2Ownership → ℕ → ℕ
live_of own seg = seg_live_at own.seg_live seg

abbrev pub segment_count : T2Ownership → ℕ
segment_count own = length own.seg_live

-- Evacuated and frozen: the segment is counted, nothing live starts in it, and it lies below the
-- base boundary.
unfoldable pub is_evacuated_segment : ℕ → T2Ownership → ℕ → ℕ → Bool
is_evacuated_segment segment_bytes own base_boundary seg =
    ltb seg (segment_count own)
    && (live_of own seg == 0)
    && leb (u64 ((seg + 1) * segment_bytes)) base_boundary
