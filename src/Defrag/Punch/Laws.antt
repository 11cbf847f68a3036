-- ===== src/Defrag/Punch/Laws.antt =====
-- What a punch run gives back, and what it leaves in the queue.
use mathlib.Core.List.{Memᴰ}
use vmem_kv.Prelude.{
  ℕ, ◌+◌, ◌*◌, ◌≤◌, ◌<◌, ◌≡◌, ◌≢◌, ◌⊎◌, inl, inr, refl, sym, ◌∙◌, Bool, true, false, List, [], ◌∷◌,
  length, All, Bool-cases, arith,
}
use vmem_kv.Store.Ownership.{T2Ownership, hint_bytes}
use vmem_kv.Store.Ownership.Accounting.{Accounts, segment_of}
use vmem_kv.Store.Ownership.Replace.{Accounts-evacuated}
use vmem_kv.Defrag.{DefragState, u64, live_of, segment_count, is_evacuated_segment}
use vmem_kv.Defrag.Punch.Queue.{
  map-All, All-Memᴰ, erase_values-kept, erase_values-gone, All-at, All-both,
}
use vmem_kv.Defrag.Punch.{
  PunchOutcome, PunchRun, punched, already_hollow, failed, punch_step, punch_loop, punch_run,
  erase_values, reconcile, punch_evacuated_segments,
}

module _ (outcome : ℕ → ℕ → PunchOutcome) (segment_bytes : ℕ) (own : T2Ownership) (base : ℕ) where
  is_evacuated-parts :
      (seg : ℕ)
      → is_evacuated_segment segment_bytes own base seg ≡ true
      → (seg < segment_count own) × (live_of own seg ≡ 0) × (u64 ((seg + 1) * segment_bytes) ≤ base)
  unfolding is_evacuated_segment
  is_evacuated-parts seg h = ground arith

  module _ {ℓ} (P : ℕ → Type ℓ) where
    All-punch_step :
        (seg : ℕ) (o : PunchOutcome) (rest : PunchRun)
        → P seg
        → All P rest.punched
        → All P (punch_step segment_bytes seg o rest).punched
    unfolding punch_step
    All-punch_step seg punched rest p h = (p, h)
    All-punch_step seg already_hollow rest p h = (p, h)
    All-punch_step seg failed rest p h = tt

    All-punch_loop :
        (position : ℕ) (segs : List ℕ)
        → All (λ seg. is_evacuated_segment segment_bytes own base seg ≡ true → P seg) segs
        → All P (punch_loop outcome segment_bytes own base position segs).punched
    unfolding punch_loop
    All-punch_loop position [] h = tt
    All-punch_loop position (seg ∷ segs) h =
        elim (Bool-cases (is_evacuated_segment segment_bytes own base seg)) [
          | inl e ↦ rw e (
              All-punch_step seg (outcome position seg)
                (punch_loop outcome segment_bytes own base (position + 1) segs) (h.0 e)
                (All-punch_loop (position + 1) segs h.1))
          | inr e ↦ rw e (All-punch_loop (position + 1) segs h.1)
        ]

-- A segment that was in the queue, lies below the base boundary, and in which no live payload starts.
pub record GivenBack (segment_bytes : ℕ) (own : T2Ownership) (base : ℕ) (queue live : List ℕ)
    (seg : ℕ) : Type 0 where
  pub queued : Memᴰ seg queue
  pub counted : seg < segment_count own
  pub frozen : u64 ((seg + 1) * segment_bytes) ≤ base
  pub unowned : All (λ p. segment_of segment_bytes p ≢ seg) live

-- Every segment that a run punches, or finds hollow, was in the queue when the run began, ends at
-- or below the base boundary (as a 64-bit number), and holds the start of no live payload. The
-- conditions: the counter of each counted segment is exact for the live payloads, and each of them
-- has a size hint.
pub punch_run-GivenBack :
    (outcome : ℕ → ℕ → PunchOutcome) (segment_bytes : ℕ) (own : T2Ownership) (base : ℕ)
    (state : DefragState) (live : List ℕ)
    → ((seg : ℕ) → seg < segment_count own → Accounts segment_bytes seg live own)
    → All (λ p. 0 < hint_bytes p) live
    → All
        (GivenBack segment_bytes own base state.pending_punch live)
        (punch_run outcome segment_bytes own base state).punched
punch_run-GivenBack outcome segment_bytes own base state live accounts hints =
    All-punch_loop outcome segment_bytes own base
      (GivenBack segment_bytes own base state.pending_punch live) 0 state.pending_punch
      (map-All give state.pending_punch (All-Memᴰ state.pending_punch))
  where
    give :
        (seg : ℕ)
        → Memᴰ seg state.pending_punch
        → is_evacuated_segment segment_bytes own base seg ≡ true
        → GivenBack segment_bytes own base state.pending_punch live seg
    give seg m e =
        let (counted, empty, frozen) = is_evacuated-parts outcome segment_bytes own base seg e in
        record {
          queued = m;
          counted = counted;
          frozen = frozen;
          unowned =
              Accounts-evacuated segment_bytes seg live own (accounts seg counted) hints empty;
        }

-- Some segment that passes the check is reported as a failure.
pub data Fails (outcome : ℕ → ℕ → PunchOutcome) (segment_bytes : ℕ) (own : T2Ownership) (base : ℕ)
    : ℕ → List ℕ → Type 0 where
  here :
      {position seg : ℕ} {rest : List ℕ}
      → is_evacuated_segment segment_bytes own base seg ≡ true
      → outcome position seg ≡ failed
      → Fails outcome segment_bytes own base position (seg ∷ rest)
  there :
      {position seg : ℕ} {rest : List ℕ}
      → Fails outcome segment_bytes own base (position + 1) rest
      → Fails outcome segment_bytes own base position (seg ∷ rest)

-- What becomes of a segment of the queue when no punch fails: it leaves the queue if it passes the
-- check, and else it stays.
pub data Sorted (segment_bytes : ℕ) (own : T2Ownership) (base : ℕ) (after : List ℕ) (seg : ℕ)
    : Type 0 where
  gone :
      is_evacuated_segment segment_bytes own base seg ≡ true
      → All (λ x. x ≢ seg) after
      → Sorted segment_bytes own base after seg
  left :
      is_evacuated_segment segment_bytes own base seg ≡ false
      → Memᴰ seg after
      → Sorted segment_bytes own base after seg

-- The state that a run leaves.
pub data Reconciled (outcome : ℕ → ℕ → PunchOutcome) (segment_bytes : ℕ) (own : T2Ownership)
    (base : ℕ) (state after : DefragState) : Type 0 where
  dropped :
      Fails outcome segment_bytes own base 0 state.pending_punch
      → after.pending_punch ≡ []
      → after.punch_supported ≡ false
      → Reconciled outcome segment_bytes own base state after
  kept :
      ¬ Fails outcome segment_bytes own base 0 state.pending_punch
      → All (Sorted segment_bytes own base after.pending_punch) state.pending_punch
      → after.punch_supported ≡ state.punch_supported
      → Reconciled outcome segment_bytes own base state after

module _ (outcome : ℕ → ℕ → PunchOutcome) (segment_bytes : ℕ) (own : T2Ownership) (base : ℕ) where
  abbrev run : ℕ → List ℕ → PunchRun
  run position segs = punch_loop outcome segment_bytes own base position segs

  abbrev Failing : ℕ → List ℕ → Type 0
  Failing position segs = Fails outcome segment_bytes own base position segs

  abbrev passes : ℕ → Bool
  passes seg = is_evacuated_segment segment_bytes own base seg

  -- The flag of a run, and that it has taken all that pass where the flag is clear.
  data Ran (position : ℕ) (segs : List ℕ) (r : PunchRun) : Type 0 where
    broken : Failing position segs → r.punch_failed ≡ true → Ran position segs r
    whole :
        ¬ Failing position segs
        → r.punch_failed ≡ false
        → All (λ seg. (passes seg ≡ true) → Memᴰ seg r.punched) segs
        → Ran position segs r

  Failing-next :
      (position seg : ℕ) (segs : List ℕ)
      → Failing position (seg ∷ segs)
      → ((passes seg ≡ true) × (outcome position seg ≡ failed)) ⊎ Failing (position + 1) segs
  Failing-next position seg segs (here p f) = inl (p, f)
  Failing-next position seg segs (there f) = inr f

  Ran-taken :
      (position seg : ℕ) (segs : List ℕ) (r taken : PunchRun)
      → outcome position seg ≢ failed
      → taken.punched ≡ seg ∷ r.punched
      → taken.punch_failed ≡ r.punch_failed
      → Ran (position + 1) segs r
      → Ran position (seg ∷ segs) taken
  Ran-taken position seg segs r taken fine took flag (broken f e) = broken (there f) (flag ∙ e)
  Ran-taken position seg segs r taken fine took flag (whole none_fails e all) =
      whole
        (λ f. elim (Failing-next position seg segs f) [
          | inl (_, h) ↦ fine h
          | inr h ↦ none_fails h
        ])
        (flag ∙ e)
        (λ p. rw took (Memᴰ.head refl), map-All (λ x m p. rw took (Memᴰ.tail (m p))) segs all)

  Ran-step :
      (position seg : ℕ) (segs : List ℕ) (o : PunchOutcome)
      → outcome position seg ≡ o
      → passes seg ≡ true
      → Ran (position + 1) segs (run (position + 1) segs)
      → Ran position (seg ∷ segs) (punch_step segment_bytes seg o (run (position + 1) segs))
  unfolding punch_step
  Ran-step position seg segs punched o p r =
      Ran-taken position seg segs _ _ (λ f. cc (sym o ∙ f)) refl refl r
  Ran-step position seg segs already_hollow o p r =
      Ran-taken position seg segs _ _ (λ f. cc (sym o ∙ f)) refl refl r
  Ran-step position seg segs failed o p r = broken (here p o) refl

  Ran-passed_over :
      (position seg : ℕ) (segs : List ℕ) (r : PunchRun)
      → passes seg ≡ false
      → Ran (position + 1) segs r
      → Ran position (seg ∷ segs) r
  Ran-passed_over position seg segs r over (broken f e) = broken (there f) e
  Ran-passed_over position seg segs r over (whole none_fails e all) =
      whole
        (λ f. elim (Failing-next position seg segs f) [
          | inl (p, _) ↦ cc (sym over ∙ p)
          | inr h ↦ none_fails h
        ])
        e (λ p. absurd (cc (sym over ∙ p)), all)

  punch_loop-Ran : (position : ℕ) (segs : List ℕ) → Ran position segs (run position segs)
  unfolding punch_loop
  punch_loop-Ran position [] = whole (λ f. elim f [ ]) refl tt
  punch_loop-Ran position (seg ∷ segs) =
      let rest = punch_loop-Ran (position + 1) segs in
      elim (Bool-cases (passes seg)) [
        | inl p ↦ rw p (Ran-step position seg segs (outcome position seg) refl p rest)
        | inr p ↦ rw p (Ran-passed_over position seg segs _ p rest)
      ]

  -- What is punched passes.
  punched-passes :
      (position : ℕ) (segs : List ℕ) → All (λ seg. passes seg ≡ true) (run position segs).punched
  punched-passes position segs =
      All-punch_loop outcome segment_bytes own base (λ seg. passes seg ≡ true) position segs
        (All-same segs)
    where
      All-same : (xs : List ℕ) → All (λ seg. passes seg ≡ true → passes seg ≡ true) xs
      All-same [] = tt
      All-same (x ∷ xs) = (λ h. h, All-same xs)

  Sorted-kept :
      (r : PunchRun) (queue : List ℕ) (seg : ℕ)
      → All (λ s. passes s ≡ true) r.punched
      → (passes seg ≡ true → Memᴰ seg r.punched)
      → Memᴰ seg queue
      → Sorted segment_bytes own base (erase_values r.punched queue) seg
  Sorted-kept r queue seg pass taken m = elim (Bool-cases (passes seg)) [
    | inl p ↦ gone p (
        All-at (λ s. All (λ x. x ≢ s) (erase_values r.punched queue)) seg r.punched
          (erase_values-gone r.punched queue) (taken p))
    | inr p ↦ elim (erase_values-kept r.punched seg queue m) [
      | inl k ↦ absurd (cc (sym p ∙ All-at (λ s. passes s ≡ true) seg r.punched pass k))
      | inr k ↦ left p k
    ]
  ]

  reconcile-Reconciled :
      (state : DefragState) (r : PunchRun)
      → Ran 0 state.pending_punch r
      → All (λ s. passes s ≡ true) r.punched
      → Reconciled outcome segment_bytes own base state (reconcile state r)
  unfolding reconcile
  reconcile-Reconciled state r (broken f e) pass = dropped f (rw e refl) (rw e refl)
  reconcile-Reconciled state r (whole none_fails e all) pass =
      kept none_fails
        (rw e (
          All-both state.pending_punch
            (λ seg taken m. Sorted-kept r state.pending_punch seg pass taken m) all
            (All-Memᴰ state.pending_punch)))
        (rw e refl)

  -- After a run: if the file system reports a failure for some segment of the queue that passes the
  -- check, at its position in the queue, then the queue is empty and punching is off. If it reports
  -- none, every segment of the queue that passes the check is in the queue no longer, every other one
  -- still is, and punching stays as it was. The count that defrag_wanted reads is the length of the
  -- queue in both cases.
  pub punch_evacuated_segments-Reconciled :
      (state : DefragState)
      → let after = (punch_evacuated_segments outcome segment_bytes own base state).0 in
        Reconciled outcome segment_bytes own base state after
        × (after.pending_punch_count ≡ length after.pending_punch)
  unfolding punch_evacuated_segments reconcile
  punch_evacuated_segments-Reconciled state = (
    reconcile-Reconciled state (run 0 state.pending_punch) (punch_loop-Ran 0 state.pending_punch)
        (punched-passes 0 state.pending_punch),
    refl,
  )
