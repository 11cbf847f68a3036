-- ===== src/Defrag/Punch.antt =====
-- Giving segments back to the file system: punch_evacuated_segments, and the queue that
-- queue_evacuated_victims fills for the next cycle.
--
-- What punch_if_occupied reports is an argument, by the position in the queue and the segment: it is
-- an answer of the file system, which may differ for a segment that is queued twice.
pub mod Queue
pub mod Laws
use vmem_kv.Prelude.{
  ℕ, ◌+◌, Bool, true, false, ◌&&◌, not, List, [], ◌∷◌, ◌++◌, length, ltb, ◌==◌, if◌then◌else◌,
}
use vmem_kv.Store.Ownership.{T2Ownership}
use vmem_kv.Defrag.{DefragState, u64, live_of, segment_count, is_evacuated_segment}

pub data PunchOutcome : Type 0 where
  punched already_hollow failed : PunchOutcome

-- The loop's local variables.
pub record PunchRun : Type 0 where
  pub punched : List ℕ
  pub punched_bytes : ℕ
  pub punch_failed : Bool

abbrev pub idle : PunchRun
idle = record { punched = []; punched_bytes = 0; punch_failed = false }

-- One segment that passed the check, before the rest of the loop. A failure ends the loop.
unfoldable pub punch_step : ℕ → ℕ → PunchOutcome → PunchRun → PunchRun
punch_step segment_bytes seg punched rest = record rest {
  punched = seg ∷ rest.punched;
  punched_bytes = u64 (segment_bytes + rest.punched_bytes);
}
punch_step segment_bytes seg already_hollow rest = record rest { punched = seg ∷ rest.punched }
punch_step segment_bytes seg failed rest = record {
  punched = [];
  punched_bytes = 0;
  punch_failed = true;
}

unfoldable pub punch_loop :
    (ℕ → ℕ → PunchOutcome) → ℕ → T2Ownership → ℕ → (position : ℕ) → List ℕ → PunchRun
unfolding punch_step
punch_loop outcome segment_bytes own base_boundary position [] = idle
punch_loop outcome segment_bytes own base_boundary position (seg ∷ segs) =
    let rest = punch_loop outcome segment_bytes own base_boundary (position + 1) segs in
    if is_evacuated_segment segment_bytes own base_boundary seg
    then punch_step segment_bytes seg (outcome position seg) rest
    else rest

-- erase and remove of one value.
unfoldable pub erase_value : ℕ → List ℕ → List ℕ
erase_value seg [] = []
erase_value seg (x ∷ xs) = let rest = erase_value seg xs in if x == seg then rest else x ∷ rest

unfoldable pub erase_values : List ℕ → List ℕ → List ℕ
unfolding erase_value
erase_values [] queue = queue
erase_values (seg ∷ segs) queue = erase_values segs (erase_value seg queue)

-- The queue after the run. It is the queue of the start, since only a cycle writes it.
unfoldable pub reconcile : DefragState → PunchRun → DefragState
unfolding erase_values
reconcile state run =
    let queue = if run.punch_failed then [] else erase_values run.punched state.pending_punch in
    record state {
      pending_punch = queue;
      pending_punch_count = length queue;
      punch_supported = not run.punch_failed && state.punch_supported;
    }

abbrev pub punch_run : (ℕ → ℕ → PunchOutcome) → ℕ → T2Ownership → ℕ → DefragState → PunchRun
punch_run outcome segment_bytes own base_boundary state =
    punch_loop outcome segment_bytes own base_boundary 0 state.pending_punch

-- The state after the call, and the bytes it returns.
unfoldable pub punch_evacuated_segments :
    (ℕ → ℕ → PunchOutcome) → ℕ → T2Ownership → ℕ → DefragState → DefragState × ℕ
unfolding punch_loop reconcile
punch_evacuated_segments outcome segment_bytes own base_boundary state =
    let run = punch_run outcome segment_bytes own base_boundary state in
    (reconcile state run, run.punched_bytes)

-- The victims that are counted and hold nothing live.
unfoldable pub evacuated : T2Ownership → List ℕ → List ℕ
evacuated own [] = []
evacuated own (seg ∷ segs) =
    let rest = evacuated own segs in
    if ltb seg (segment_count own) && (live_of own seg == 0) then seg ∷ rest else rest

unfoldable pub queue_evacuated_victims : T2Ownership → List ℕ → DefragState → DefragState
unfolding evacuated
queue_evacuated_victims own victim_segs state =
    let queue = state.pending_punch ++ evacuated own victim_segs in
    record state { pending_punch = queue; pending_punch_count = length queue }
