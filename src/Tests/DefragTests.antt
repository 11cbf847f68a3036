-- ===== src/Tests/DefragTests.antt =====
-- implementation/vmemkv/src/vmemkv/defrag_controller.hpp, run.
use mathlib.Core.List.{Memᴰ}
use vmem_kv.Prelude.{
  ℕ, zero, suc, ◌+◌, ◌*◌, ◌^◌, ◌<◌, ◌≡◌, refl, true, false, some, [], ◌∷◌, All, length, replicate,
  arith,
}
use vmem_kv.T1.Codec.{is_inline}
use vmem_kv.Bytes.{le_bytes, le_value}
use vmem_kv.T2.Record.{T2Memory, write_record, record_aligned_len, align_up, at}
use vmem_kv.Store.Ownership.{T2Ownership, payload_offset, hint_bytes, seg_index, seg_live_at}
use vmem_kv.Store.Ownership.Accounting.{Accounts, seg_sum, total_sum}
use vmem_kv.Defrag.{DefragState, is_evacuated_segment}
use vmem_kv.Defrag.Punch.{punched, punch_loop, punch_run, punch_step, punch_evacuated_segments}
use vmem_kv.Defrag.Punch.Laws.{
  GivenBack, Reconciled, punch_run-GivenBack, punch_evacuated_segments-Reconciled,
}
use vmem_kv.Defrag.Victims.{select_victims}
use vmem_kv.Defrag.Victims.Laws.{Selected, select_victims-Selected}
use vmem_kv.Defrag.Offsets.{Scanned, aligned_at, collect_victim_offsets}
use vmem_kv.Defrag.Offsets.Complete.{collect_victim_offsets_complete, IsStrict}
use vmem_kv.Defrag.Cycle.{Operations, relocate_phase, defrag_cycle}
use vmem_kv.Defrag.Cycle.Laws.{relocate_phase-Bounded, Quarantined, defrag_cycle-Quarantined}

-- Segments of 4096 bytes: 0 is empty, 1 holds 48 bytes.
abbrev evacuated_first : T2Ownership
evacuated_first = record { seg_live = 0 ∷ 48 ∷ []; live_total = 48 }

abbrev counters : T2Ownership
counters = record { seg_live = 32 ∷ 0 ∷ []; live_total = 32 }

abbrev queued_both : DefragState
queued_both = record {
  pending_punch = 0 ∷ 1 ∷ [];
  pending_punch_count = 2;
  last_checkpoint = 0;
  last_overhead_bp = 0;
  punch_probed = true;
  punch_supported = true;
  cycle_count = 0;
  last_moved_bytes = 0;
  last_punched_bytes = 0;
}

abbrev in_segment_one : ℕ
in_segment_one = 4096 + 3 * 2 ^ 48

exact_counters : (seg : ℕ) → seg < 2 → Accounts 4096 seg (in_segment_one ∷ []) evacuated_first
unfolding seg_live_at seg_sum total_sum hint_bytes seg_index payload_offset
exact_counters zero h = record { segment = refl; total = refl }
exact_counters (suc zero) h = record { segment = refl; total = refl }
exact_counters (suc (suc n)) h = absurd (omega arith)

punch_run-GivenBack_example :
    All
      (GivenBack 4096 evacuated_first 8192 (0 ∷ 1 ∷ []) (in_segment_one ∷ []))
      (punch_run (λ position seg. punched) 4096 evacuated_first 8192 queued_both).punched
unfolding hint_bytes
punch_run-GivenBack_example =
    let some_hint : 0 < 48 = omega arith in
    punch_run-GivenBack (λ position seg. punched) 4096 evacuated_first 8192 queued_both
      (in_segment_one ∷ []) exact_counters (some_hint, tt)

punches_first :
    (punch_run (λ position seg. punched) 4096 evacuated_first 8192 queued_both).punched ≡ 0 ∷ []
unfolding punch_loop punch_step is_evacuated_segment seg_live_at
punches_first = refl

select_victims-Selected_example :
    Selected
      (2 ^ 30)
      4096
      evacuated_first
      8192
      8192
      (select_victims (2 ^ 30) 4096 evacuated_first 8192 8192)
select_victims-Selected_example =
    select_victims-Selected (2 ^ 30) 4096 evacuated_first 8192 8192 (omega arith) (omega arith)

selects_both : select_victims (2 ^ 30) 4096 evacuated_first 8192 8192 ≡ 0 ∷ 1 ∷ []
unfolding select_victims seg_live_at
selects_both = refl

abbrev after_punching : DefragState
after_punching =
    (punch_evacuated_segments (λ position seg. punched) 4096 evacuated_first 8192 queued_both).0

punch_evacuated_segments-Reconciled_example :
    Reconciled (λ position seg. punched) 4096 evacuated_first 8192 queued_both after_punching
    × (after_punching.pending_punch_count ≡ length after_punching.pending_punch)
punch_evacuated_segments-Reconciled_example =
    punch_evacuated_segments-Reconciled (λ position seg. punched) 4096 evacuated_first 8192
      queued_both

-- A record of key "a" and value 1 2 at offset 0, in segments of 1 MiB.
abbrev one_record : T2Memory
one_record = record {
  base = write_record 0 (97 ∷ []) (1 ∷ 2 ∷ []) (replicate 64 0);
  capacity = 64;
  bytes_used = 32;
  base_boundary = 32;
}

abbrev scanned_record : Scanned
scanned_record = record { payload = 2 * 2 ^ 48; hash = 7 }

collect_victim_offsets_complete_example :
    let offsets =
      collect_victim_offsets (2 ^ 20) counters (0 ∷ []) 32 one_record (scanned_record ∷ []) in
    Memᴰ (payload_offset (2 * 2 ^ 48)) offsets × IsStrict offsets
unfolding aligned_at payload_offset is_inline write_record le_bytes record_aligned_len align_up
    le_value at
collect_victim_offsets_complete_example =
    collect_victim_offsets_complete (2 ^ 20) counters (0 ∷ []) 32 one_record (scanned_record ∷ [])
      scanned_record 0 (omega arith) (omega arith) (omega arith) (Memᴰ.head refl) (Memᴰ.head refl)
      (λ e. absurd (omega arith)) refl (omega arith) (omega arith) (omega arith) (omega arith)

-- A store of which only the number of relocations is kept.
abbrev counting : Operations ℕ
counting = record {
  segment_bytes = 2 ^ 20;
  budget = 40;
  statfs = some false;
  outcome = λ position seg. punched;
  memory = λ n. one_record;
  ownership = λ n. counters;
  scan = λ n. scanned_record ∷ [];
  relocate = λ off n. (n + 1, 32);
}

relocate_phase-Bounded_example :
    ((relocate_phase counting (0 ∷ []) 32 0).moved_bytes < 72)
    × ((relocate_phase counting (0 ∷ []) 32 0).pending ≡ 0)
relocate_phase-Bounded_example =
    relocate_phase-Bounded counting 32 (0 ∷ []) 32 0 (λ off n. omega arith) (omega arith)
      (omega arith)

counters-exact : (seg : ℕ) → seg < 2 → Accounts (2 ^ 20) seg (2 * 2 ^ 48 ∷ []) counters
unfolding seg_live_at seg_sum total_sum hint_bytes seg_index payload_offset
counters-exact zero h = record { segment = refl; total = refl }
counters-exact (suc zero) h = record { segment = refl; total = refl }
counters-exact (suc (suc n)) h = absurd (omega arith)

defrag_cycle-Quarantined_example :
    Quarantined counting 0 queued_both
      (2 * 2 ^ 48 ∷ [])
      (defrag_cycle counting 3 true 0 queued_both)
unfolding hint_bytes
defrag_cycle-Quarantined_example =
    let some_hint : 0 < 32 = omega arith in
    defrag_cycle-Quarantined counting 3 true 0 queued_both (2 * 2 ^ 48 ∷ []) refl counters-exact
      (some_hint, tt)
