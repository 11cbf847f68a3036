-- ===== src/Defrag/Victims/Laws.antt =====
-- What is chosen: only frozen segments that are half garbage, in ascending order, and within the
-- budget but for the last one.
use native.Mathlib.Nat.{mul-le-mul_right}
use vmem_kv.Prelude.{
  ℕ, zero, suc, ◌+◌, ◌-◌, ◌*◌, ◌^◌, ◌≤◌, ◌<◌, ◌≡◌, inl, inr, refl, sym, ◌∙◌, true, ◌&&◌, List, [],
  ◌∷◌, All, min, ltb, leb, Bool-cases, arith,
}
use vmem_kv.Store.Ownership.{T2Ownership}
use vmem_kv.Defrag.{u64, live_of, segment_count}
use vmem_kv.Defrag.Victims.{
  Victim, is_frozen, is_garbage, is_victim, victim_of, find_victims, insert_victim, sort_victims,
  moves, take_victims, insert_number, sort_numbers, select_victims,
}
use vmem_kv.Defrag.Victims.Sorting.{IsSorted, All-sort_numbers, IsSorted-sort_numbers}

-- A frozen segment of which at least half of the used bytes are not live.
pub record IsVictim (segment_bytes : ℕ) (own : T2Ownership) (base used seg : ℕ) : Type 0 where
  pub counted : seg < segment_count own
  pub frozen : (seg + 1) * segment_bytes ≤ base
  pub in_use : seg * segment_bytes < used
  pub garbage : 2 * live_of own seg ≤ min ((seg + 1) * segment_bytes) used - seg * segment_bytes

-- The bytes that emptying the chosen segments is taken to move.
unfoldable pub moved_by : ℕ → T2Ownership → List ℕ → ℕ
moved_by segment_bytes own [] = 0
moved_by segment_bytes own (seg ∷ segs) =
    min (live_of own seg) segment_bytes + moved_by segment_bytes own segs

-- The two tests, on a segment from `start` to `end`.
victim_tests :
    (start end base used live : ℕ)
    → end < 2 ^ 63
    → (leb end base
        && ltb start used
        && is_garbage (min end used - start) (min live (min end used - start)))
      ≡ true
    → (end ≤ base) × (start < used) × (2 * live ≤ min end used - start)
unfolding is_garbage
victim_tests start end base used live small h = ground arith

module _ (segment_bytes : ℕ) (own : T2Ownership) where
  module _ (base used : ℕ) (addressable : segment_count own * segment_bytes < 2 ^ 63) where
    is_victim-IsVictim :
        (seg : ℕ)
        → seg < segment_count own
        → is_victim segment_bytes own base used seg ≡ true
        → IsVictim segment_bytes own base used seg
    unfolding is_victim is_frozen is_garbage
    is_victim-IsVictim seg counted h =
        let top : (seg + 1) * segment_bytes ≤ segment_count own * segment_bytes =
          mul-le-mul_right segment_bytes (omega arith) in
        let step : (seg + 1) * segment_bytes ≡ seg * segment_bytes + segment_bytes = omega arith in
        let start : u64 (seg * segment_bytes) ≡ seg * segment_bytes = omega arith in
        let end : u64 (seg * segment_bytes + segment_bytes) ≡ (seg + 1) * segment_bytes =
          omega arith in
        let (frozen, in_use, garbage) =
          victim_tests (seg * segment_bytes) ((seg + 1) * segment_bytes) base used (live_of own seg)
            (omega arith) (sym (rw (start, end) refl) ∙ h) in
        record { counted = counted; frozen = frozen; in_use = in_use; garbage = garbage }

    All-find_victims :
        (rounds seg : ℕ)
        → seg + rounds ≤ segment_count own
        → All
            (λ v. IsVictim segment_bytes own base used v.seg)
            (find_victims rounds segment_bytes own base used seg)
    unfolding find_victims victim_of
    All-find_victims zero seg h = tt
    All-find_victims (suc rounds) seg h =
        let rest = All-find_victims rounds (seg + 1) (omega arith) in
        elim (Bool-cases (is_victim segment_bytes own base used seg)) [
          | inl e ↦ rw e (is_victim-IsVictim seg (omega arith) e, rest)
          | inr e ↦ rw e rest
        ]

  module _ {ℓ} (P : Victim → Type ℓ) where
    All-insert_victim :
        (v : Victim) (vs : List Victim) → P v → All P vs → All P (insert_victim v vs)
    unfolding insert_victim
    All-insert_victim v [] p h = (p, tt)
    All-insert_victim v (w ∷ ws) p h = elim (Bool-cases (ltb v.garbage w.garbage)) [
      | inl e ↦ rw e (h.0, All-insert_victim v ws p h.1)
      | inr e ↦ rw e (p, h)
    ]

    All-sort_victims : (vs : List Victim) → All P vs → All P (sort_victims vs)
    unfolding sort_victims
    All-sort_victims [] h = tt
    All-sort_victims (v ∷ vs) h =
        All-insert_victim v (sort_victims vs) h.0 (All-sort_victims vs h.1)

  All-take_victims {ℓ} :
      (P : ℕ → Type ℓ) (budget est : ℕ) (vs : List Victim)
      → All (λ v. P v.seg) vs
      → All P (take_victims budget segment_bytes own est vs)
  unfolding take_victims
  All-take_victims P budget est [] h = tt
  All-take_victims P budget est (v ∷ vs) h = elim (Bool-cases (leb budget est)) [
    | inl e ↦ rw e tt
    | inr e ↦ rw e (h.0, All-take_victims P budget (u64 (est + moves segment_bytes own v)) vs h.1)
  ]

  -- The loop stops as soon as the estimate reaches the budget.
  moved_by-take_victims :
      (budget est : ℕ) (vs : List Victim)
      → budget + segment_bytes < 2 ^ 64
      → est ≤ budget + segment_bytes
      → est + moved_by segment_bytes own (take_victims budget segment_bytes own est vs)
        ≤ budget + segment_bytes
  unfolding take_victims moved_by
  moved_by-take_victims budget est [] small h = omega arith
  moved_by-take_victims budget est (v ∷ vs) small h =
      let next = est + moves segment_bytes own v in
      elim (Bool-cases (leb budget est)) [
        | inl e ↦ rw e (omega arith)
        | inr e ↦
            let below : est < budget = ground arith in
            let exact : u64 next ≡ next = omega arith in
            rw (e, exact) (omega (arith, moved_by-take_victims budget next vs small (omega arith)))
      ]

  moved_by-insert_number :
      (n : ℕ) (ns : List ℕ)
      → moved_by segment_bytes own (insert_number n ns) ≡ moved_by segment_bytes own (n ∷ ns)
  unfolding insert_number moved_by
  moved_by-insert_number n [] = refl
  moved_by-insert_number n (m ∷ ms) = elim (Bool-cases (ltb m n)) [
    | inl e ↦ rw e (omega (arith, moved_by-insert_number n ms))
    | inr e ↦ rw e refl
  ]

  moved_by-sort_numbers :
      (ns : List ℕ) → moved_by segment_bytes own (sort_numbers ns) ≡ moved_by segment_bytes own ns
  unfolding sort_numbers moved_by
  moved_by-sort_numbers [] = refl
  moved_by-sort_numbers (n ∷ ns) =
      omega (arith, moved_by-insert_number n (sort_numbers ns), moved_by-sort_numbers ns)

-- What a cycle may rely on.
pub record Selected (budget segment_bytes : ℕ) (own : T2Ownership) (base used : ℕ) (segs : List ℕ)
    : Type 0 where
  pub victims : All (IsVictim segment_bytes own base used) segs
  pub sorted : IsSorted segs
  pub affordable : moved_by segment_bytes own segs ≤ budget + segment_bytes

-- Every selected segment is counted, lies below the base boundary, starts in the used part of the
-- file, and at least half of its used bytes are not live. The segments ascend, and emptying them is
-- estimated at no more than the budget and one segment. The conditions: the segments have less
-- than 2 ^ 63 bytes in all, and the budget and a segment fit 64 bits.
pub select_victims-Selected :
    (budget segment_bytes : ℕ) (own : T2Ownership) (base used : ℕ)
    → segment_count own * segment_bytes < 2 ^ 63
    → budget + segment_bytes < 2 ^ 64
    → Selected budget segment_bytes own base used
        (select_victims budget segment_bytes own base used)
unfolding select_victims
select_victims-Selected budget segment_bytes own base used addressable small =
    let found = find_victims (segment_count own) segment_bytes own base used 0 in
    let taken = take_victims budget segment_bytes own 0 (sort_victims found) in
    record {
      victims = All-sort_numbers (IsVictim segment_bytes own base used) taken (
          All-take_victims segment_bytes own (IsVictim segment_bytes own base used) budget 0
            (sort_victims found)
            (All-sort_victims segment_bytes own (λ v. IsVictim segment_bytes own base used v.seg)
              found
              (All-find_victims segment_bytes own base used addressable (segment_count own) 0
                (omega arith))));
      sorted = IsSorted-sort_numbers taken;
      affordable = omega (
        arith,
        moved_by-sort_numbers segment_bytes own taken,
        moved_by-take_victims segment_bytes own budget 0 (sort_victims found) small (omega arith),
      );
    }
