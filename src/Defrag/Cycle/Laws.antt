-- ===== src/Defrag/Cycle/Laws.antt =====
-- What a cycle moves, and what it leaves in the queue.
use mathlib.Core.List.{Memᴰ}
use vmem_kv.Prelude.{
  ℕ, ◌+◌, ◌^◌, ◌≤◌, ◌<◌, ◌≡◌, ◌≢◌, ◌⊎◌, inl, inr, refl, Option, Bool, true, ◌||◌, ◌&&◌, List, [],
  ◌∷◌, ◌++◌, length, All, leb, ltb, ◌==◌, Bool-cases, arith,
}
use vmem_kv.Store.Ownership.{T2Ownership, hint_bytes}
use vmem_kv.Store.Ownership.Accounting.{Accounts, segment_of}
use vmem_kv.Store.Ownership.Replace.{Accounts-evacuated}
use vmem_kv.Defrag.{DefragState, live_of, segment_count}
use vmem_kv.Defrag.Punch.{
  PunchRun, punch_run, punch_evacuated_segments, reconcile, evacuated, queue_evacuated_victims,
}
use vmem_kv.Defrag.Punch.Queue.{map-All, All-Memᴰ, All-erase_values}
use vmem_kv.Defrag.Trigger.{scan_wanted, overhead_of}
use vmem_kv.Defrag.Cycle.{
  Operations, RelocateRun, drain_if_full, relocated, relocate_loop, relocate_phase, Cycle,
  punch_supported, empty_victims, scan_cycle, after_punch, run_cycle, defrag_cycle,
}

module _ {ℓ} {S : Type ℓ} (ops : Operations S) where
  relocated-Bounded :
      (largest : ℕ) (run : RelocateRun S) (step : S × ℕ)
      → ops.budget + largest < 2 ^ 64
      → run.moved_bytes < ops.budget
      → step.1 ≤ largest
      → run.pending < 1024
      → ((drain_if_full ops (relocated ops step run)).moved_bytes < ops.budget + largest)
        × ((drain_if_full ops (relocated ops step run)).pending < 1024)
        × ((relocated ops step run).pending ≤ 1024)
  unfolding drain_if_full relocated
  relocated-Bounded largest run (store, moved) fits below small few = ground arith

  relocate_loop-Bounded :
      (largest : ℕ) (offsets : List ℕ) (run : RelocateRun S)
      → ((off : ℕ) (s : S) → (ops.relocate off s).1 ≤ largest)
      → ops.budget + largest < 2 ^ 64
      → run.moved_bytes < ops.budget
      → run.pending < 1024
      → ((relocate_loop ops offsets run).moved_bytes < ops.budget + largest)
        × ((relocate_loop ops offsets run).pending < 1024)
  unfolding relocate_loop
  relocate_loop-Bounded largest [] run small fits below few = (omega arith, few)
  relocate_loop-Bounded largest (off ∷ offsets) run small fits below few =
      let step = ops.relocate off run.store in
      let after = drain_if_full ops (relocated ops step run) in
      let (moved, pending, peak) =
        relocated-Bounded largest run step fits below (small off run.store) few in
      elim (Bool-cases (leb ops.budget after.moved_bytes)) [
        | inl e ↦ rw e (moved, pending)
        | inr e ↦
            rw e
              (relocate_loop-Bounded largest offsets after small fits (ground (arith, e)) pending)
      ]

  -- The relocations of a cycle stop below the budget and one record more, and leave no reservation
  -- that has not been awaited. The conditions: no relocation moves more than `largest` bytes, the
  -- budget is not 0, and with `largest` it fits 64 bits.
  pub relocate_phase-Bounded :
      (largest : ℕ) (victim_segs : List ℕ) (used : ℕ) (store : S)
      → ((off : ℕ) (s : S) → (ops.relocate off s).1 ≤ largest)
      → ops.budget + largest < 2 ^ 64
      → 0 < ops.budget
      → ((relocate_phase ops victim_segs used store).moved_bytes < ops.budget + largest)
        × ((relocate_phase ops victim_segs used store).pending ≡ 0)
  unfolding relocate_phase
  relocate_phase-Bounded largest victim_segs used store small fits some_budget =
      ((relocate_loop-Bounded largest _ _ small fits some_budget (omega arith)).0, refl)

-- A segment of the queue was there before, or is counted, with a counter of 0.
pub data Queued (before : List ℕ) (own : T2Ownership) (seg : ℕ) : Type 0 where
  old : Memᴰ seg before → Queued before own seg
  fresh : seg < segment_count own → live_of own seg ≡ 0 → Queued before own seg

All-append {ℓ} : (P : ℕ → Type ℓ) (xs ys : List ℕ) → All P xs → All P ys → All P (xs ++ ys)
All-append P [] ys h k = k
All-append P (x ∷ xs) ys h k = (h.0, All-append P xs ys h.1 k)

evacuated-Queued :
    (before : List ℕ) (own : T2Ownership) (segs : List ℕ)
    → All (Queued before own) (evacuated own segs)
unfolding evacuated
evacuated-Queued before own [] = tt
evacuated-Queued before own (seg ∷ segs) =
    let rest = evacuated-Queued before own segs in
    elim (Bool-cases (ltb seg (segment_count own) && (live_of own seg == 0))) [
      | inl e ↦ rw e (fresh (ground (arith, e)) (ground (arith, e)), rest)
      | inr e ↦ rw e rest
    ]

module _ {ℓ} {S : Type ℓ} (ops : Operations S) (before : List ℕ) where
  -- The queue's entries, and its count.
  abbrev Sound : S → DefragState → Type 0
  Sound store state =
      All (Queued before (ops.ownership store)) state.pending_punch
      × (state.pending_punch_count ≡ length state.pending_punch)

  abbrev Old : DefragState → Type 0
  Old state =
      All (λ seg. Memᴰ seg before) state.pending_punch
      × (state.pending_punch_count ≡ length state.pending_punch)

  Old-Sound : (store : S) (state : DefragState) → Old state → Sound store state
  Old-Sound store state h = (map-All (λ seg m. old m) state.pending_punch h.0, h.1)

  empty_victims-Sound :
      (victim_segs : List ℕ) (used : ℕ) (store : S) (state : DefragState)
      → Old state
      → Sound
          (empty_victims ops victim_segs used store state).0
          (empty_victims ops victim_segs used store state).1
  unfolding empty_victims queue_evacuated_victims
  empty_victims-Sound [] used store state h = Old-Sound store state h
  empty_victims-Sound (seg ∷ segs) used store state h =
      let own = ops.ownership (relocate_phase ops (seg ∷ segs) used store).store in
      (
        All-append (Queued before own) state.pending_punch (evacuated own (seg ∷ segs))
            (map-All (λ s m. old m) state.pending_punch h.0)
            (evacuated-Queued before own (seg ∷ segs)),
        refl,
      )

  after_punch-Sound :
      (checkpoint_count : ℕ) (force : Bool) (store : S) (state : DefragState)
      → Old state
      → Sound
          (after_punch ops checkpoint_count force store state).store
          (after_punch ops checkpoint_count force store state).state
  unfolding after_punch scan_cycle
  after_punch-Sound checkpoint_count force store state h =
      let used = (ops.memory store).bytes_used in
      let overhead_bp = overhead_of used (ops.ownership store).live_total in
      elim (Bool-cases (force || scan_wanted state overhead_bp checkpoint_count)) [
        | inl e ↦ rw e (empty_victims-Sound _ used store state h)
        | inr e ↦ rw e (Old-Sound store state h)
      ]

  reconcile-Old : (state : DefragState) (run : PunchRun) → Old state → Old (reconcile state run)
  unfolding reconcile
  reconcile-Old state run h = elim (Bool-cases run.punch_failed) [
    | inl e ↦ rw e (tt, refl)
    | inr e ↦
        rw e (All-erase_values (λ seg. Memᴰ seg before) run.punched state.pending_punch h.0, refl)
  ]

  run_cycle-Sound :
      (checkpoint_count : ℕ) (force : Bool) (store : S) (state : DefragState)
      → Old state
      → Sound
          (run_cycle ops checkpoint_count force store state).store
          (run_cycle ops checkpoint_count force store state).state
  unfolding run_cycle punch_evacuated_segments
  run_cycle-Sound checkpoint_count force store state h =
      let own = ops.ownership store in
      let base = (ops.memory store).base_boundary in
      let run = punch_run ops.outcome ops.segment_bytes own base state in
      after_punch-Sound checkpoint_count force store (reconcile state run)
        (reconcile-Old state run h)

-- A segment of the queue was there before, or is counted, and none of the live payloads starts in
-- it.
pub data Unowned (before : List ℕ) (own : T2Ownership) (segment_bytes : ℕ) (live : List ℕ) (seg : ℕ)
    : Type 0 where
  waiting : Memᴰ seg before → Unowned before own segment_bytes live seg
  emptied :
      seg < segment_count own
      → live_of own seg ≡ 0
      → All (λ p. segment_of segment_bytes p ≢ seg) live
      → Unowned before own segment_bytes live seg

Queued-Unowned :
    (before : List ℕ) (own : T2Ownership) (segment_bytes : ℕ) (live : List ℕ)
    → ((seg : ℕ) → seg < segment_count own → Accounts segment_bytes seg live own)
    → All (λ p. 0 < hint_bytes p) live
    → (seg : ℕ) → Queued before own seg
    → Unowned before own segment_bytes live seg
Queued-Unowned before own segment_bytes live accounts hints seg (old m) = waiting m
Queued-Unowned before own segment_bytes live accounts hints seg (fresh counted empty) =
    emptied counted empty
      (Accounts-evacuated segment_bytes seg live own (accounts seg counted) hints empty)

-- What a cycle leaves.
pub record Quarantined {ℓ} {S : Type ℓ} (ops : Operations S) (store : S) (state : DefragState)
    (live : List ℕ) (cycle : Cycle S) : Type ℓ where
  pub queue :
      All
        (Unowned state.pending_punch (ops.ownership cycle.store) ops.segment_bytes live)
        cycle.state.pending_punch
  pub counted : cycle.state.pending_punch_count ≡ length cycle.state.pending_punch
  pub refused :
      ((punch_supported ops.statfs state).punch_supported ≡ true)
      ⊎ ((cycle.store ≡ store) × (cycle.state.pending_punch ≡ state.pending_punch))

probed-queue :
    (statfs : Option Bool) (state : DefragState)
    → ((punch_supported statfs state).pending_punch ≡ state.pending_punch)
      × ((punch_supported statfs state).pending_punch_count ≡ state.pending_punch_count)
unfolding punch_supported
probed-queue statfs state = elim (Bool-cases state.punch_probed) [
  | inl e ↦ rw e (refl, refl)
  | inr e ↦ rw e (refl, refl)
]

defrag_cycle-Sound {ℓ} :
    {S : Type ℓ} (ops : Operations S) (checkpoint_count : ℕ) (force : Bool) (store : S)
    (state : DefragState)
    → state.pending_punch_count ≡ length state.pending_punch
    → let cycle = defrag_cycle ops checkpoint_count force store state in
      Sound ops state.pending_punch cycle.store cycle.state
      × (((punch_supported ops.statfs state).punch_supported ≡ true)
          ⊎ ((cycle.store ≡ store) × (cycle.state.pending_punch ≡ state.pending_punch)))
unfolding defrag_cycle
defrag_cycle-Sound ops checkpoint_count force store state counted =
    let probed = punch_supported ops.statfs state in
    let same = probed-queue ops.statfs state in
    let start : Old ops state.pending_punch probed =
      rw (same.0, same.1) (All-Memᴰ state.pending_punch, counted) in
    elim (Bool-cases probed.punch_supported) [
      | inl e ↦ rw e (
        run_cycle-Sound ops state.pending_punch checkpoint_count force store probed start,
        inl refl,
      )
      | inr e ↦ rw e (Old-Sound ops state.pending_punch store probed start, inr (refl, same.0))
    ]

-- After a cycle every segment of the queue was in it before the cycle, or is counted, has a counter
-- of 0, and no live payload starts in it, though a record that starts in the segment before may
-- reach into it; and the count is the length of the queue. Where the file system cannot punch holes
-- the cycle leaves the store and the queue as they are. The conditions: the count was the length of
-- the queue before the cycle, and when the cycle ends the counter of each counted segment is exact
-- for the live payloads, each of which has a size hint.
pub defrag_cycle-Quarantined {ℓ} :
    {S : Type ℓ} (ops : Operations S) (checkpoint_count : ℕ) (force : Bool) (store : S)
    (state : DefragState) (live : List ℕ)
    → state.pending_punch_count ≡ length state.pending_punch
    → ((seg : ℕ)
        → seg
          < segment_count
              (ops.ownership (defrag_cycle ops checkpoint_count force store state).store)
        → Accounts ops.segment_bytes seg live
            (ops.ownership (defrag_cycle ops checkpoint_count force store state).store))
    → All (λ p. 0 < hint_bytes p) live
    → Quarantined ops store state live (defrag_cycle ops checkpoint_count force store state)
defrag_cycle-Quarantined ops checkpoint_count force store state live counted accounts hints =
    let cycle = defrag_cycle ops checkpoint_count force store state in
    let (sound, refused) = defrag_cycle-Sound ops checkpoint_count force store state counted in
    record {
      queue =
          map-All
            (Queued-Unowned state.pending_punch (ops.ownership cycle.store) ops.segment_bytes live
              accounts hints)
            cycle.state.pending_punch sound.0;
      counted = sound.1;
      refused = refused;
    }
