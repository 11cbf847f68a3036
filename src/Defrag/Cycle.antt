-- ===== src/Defrag/Cycle.antt =====
-- One cycle: punch_supported, relocate_phase and defrag_cycle.
--
-- The store that a cycle works on is an argument, with the calls that the cycle makes of it:
-- relocate_offset, which returns the bytes it has moved, and the views of the record file, the index
-- and the counters. The single flight is held throughout.
pub mod Laws
use vmem_kv.Prelude.{
  ℕ, ◌+◌, Bool, true, false, ◌||◌, not, Option, none, some, List, [], ◌∷◌, leb, ltb, if◌then◌else◌,
}
use vmem_kv.T2.Record.{T2Memory}
use vmem_kv.Store.Ownership.{T2Ownership}
use vmem_kv.Defrag.{DefragState, u64}
use vmem_kv.Defrag.Trigger.{scan_wanted, overhead_of}
use vmem_kv.Defrag.Punch.{PunchOutcome, punch_evacuated_segments, queue_evacuated_victims}
use vmem_kv.Defrag.Victims.{select_victims}
use vmem_kv.Defrag.Offsets.{Scanned, collect_victim_offsets}

abbrev pub defrag_await_every_n_relocates : ℕ
defrag_await_every_n_relocates = 1024

-- What statfs says of the file system: nothing where it fails, else whether it is tmpfs.
unfoldable pub punch_supported : Option Bool → DefragState → DefragState
punch_supported statfs state = if state.punch_probed then state else record state {
  punch_supported = elim statfs [ none ↦ true | some is_tmpfs ↦ not is_tmpfs ];
  punch_probed = true;
}

pub record Operations {ℓ} (S : Type ℓ) : Type ℓ where
  pub segment_bytes : ℕ
  pub budget : ℕ
  pub statfs : Option Bool
  pub outcome : ℕ → ℕ → PunchOutcome
  pub memory : S → T2Memory
  pub ownership : S → T2Ownership
  pub scan : S → List Scanned
  pub relocate : ℕ → S → S × ℕ

-- The store, the bytes moved, and the reservations that the awaiter holds.
pub record RelocateRun {ℓ} (S : Type ℓ) : Type ℓ where
  pub store : S
  pub moved_bytes : ℕ
  pub pending : ℕ

-- What follows a cycle's punch: the store, the state, and whether a scan ran.
pub record Cycle {ℓ} (S : Type ℓ) : Type ℓ where
  pub store : S
  pub state : DefragState
  pub scanned : Bool

module _ {ℓ} {S : Type ℓ} (ops : Operations S) where
  -- A drain awaits all that was reserved.
  unfoldable pub drain_if_full : RelocateRun S → RelocateRun S
  drain_if_full run = record run {
    pending = if leb defrag_await_every_n_relocates run.pending then 0 else run.pending;
  }

  unfoldable pub relocated : S × ℕ → RelocateRun S → RelocateRun S
  relocated (store, moved) run = record {
    store = store;
    moved_bytes = u64 (run.moved_bytes + moved);
    pending = if ltb 0 moved then run.pending + 1 else run.pending;
  }

  unfoldable pub relocate_loop : List ℕ → RelocateRun S → RelocateRun S
  unfolding relocated drain_if_full
  relocate_loop [] run = run
  relocate_loop (off ∷ offsets) run =
      let after = drain_if_full (relocated (ops.relocate off run.store) run) in
      let rest = relocate_loop offsets after in
      if leb ops.budget after.moved_bytes then after else rest

  unfoldable pub relocate_phase : List ℕ → ℕ → S → RelocateRun S
  unfolding relocate_loop
  relocate_phase victim_segs used store =
      let offsets =
        collect_victim_offsets ops.segment_bytes (ops.ownership store) victim_segs used
          (ops.memory store) (ops.scan store) in
      record (relocate_loop offsets (record { store = store; moved_bytes = 0; pending = 0 })) {
        pending = 0;
      }

  -- The scan and what follows it, where there are victims.
  unfoldable pub empty_victims : List ℕ → ℕ → S → DefragState → S × DefragState
  unfolding relocate_phase
  empty_victims [] used store state = (store, record state { last_moved_bytes = 0 })
  empty_victims (seg ∷ segs) used store state =
      let run = relocate_phase (seg ∷ segs) used store in
      (
        run.store,
        record (queue_evacuated_victims (ops.ownership run.store) (seg ∷ segs) state) {
          last_moved_bytes = run.moved_bytes;
        },
      )

  unfoldable pub scan_cycle : ℕ → ℕ → ℕ → S → DefragState → S × DefragState
  unfolding empty_victims
  scan_cycle checkpoint_count overhead_bp used store state =
      let own = ops.ownership store in
      let base = (ops.memory store).base_boundary in
      let victim_segs = select_victims ops.budget ops.segment_bytes own base used in
      let (after, queued) = empty_victims victim_segs used store state in
      (after, record queued { last_checkpoint = checkpoint_count; last_overhead_bp = overhead_bp })

  -- A cycle after the punch.
  unfoldable pub after_punch : ℕ → Bool → S → DefragState → Cycle S
  unfolding scan_cycle
  after_punch checkpoint_count force store state =
      let used = (ops.memory store).bytes_used in
      let overhead_bp = overhead_of used (ops.ownership store).live_total in
      if force || scan_wanted state overhead_bp checkpoint_count
      then (let (after, queued) = scan_cycle checkpoint_count overhead_bp used store state in
          record { store = after; state = queued; scanned = true })
      else record { store = store; state = record state { last_moved_bytes = 0 }; scanned = false }

  unfoldable pub run_cycle : ℕ → Bool → S → DefragState → Cycle S
  unfolding after_punch
  run_cycle checkpoint_count force store state =
      let (clean, punched_bytes) =
        punch_evacuated_segments ops.outcome ops.segment_bytes (ops.ownership store)
          (ops.memory store).base_boundary state in
      let cycle = after_punch checkpoint_count force store clean in
      record cycle {
        state = record cycle.state {
          cycle_count = u64 (cycle.state.cycle_count + 1);
          last_punched_bytes = punched_bytes;
        };
      }

  unfoldable pub defrag_cycle : ℕ → Bool → S → DefragState → Cycle S
  unfolding punch_supported run_cycle
  defrag_cycle checkpoint_count force store state =
      let probed = punch_supported ops.statfs state in
      if probed.punch_supported
      then run_cycle checkpoint_count force store probed
      else record { store = store; state = probed; scanned = false }
