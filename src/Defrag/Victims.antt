-- ===== src/Defrag/Victims.antt =====
-- The segments that a cycle empties: select_victims.
--
-- std::sort is an insertion sort. Of victims with the same garbage the source leaves the order open,
-- and with it which of them still falls under the budget.
pub mod Sorting
pub mod Laws
use vmem_kv.Prelude.{
  ℕ, zero, suc, ◌+◌, ◌-◌, ◌*◌, Bool, ◌&&◌, ◌||◌, Option, none, some, List, [], ◌∷◌, leb, ltb, min,
  if◌then◌else◌,
}
use vmem_kv.Store.Ownership.{T2Ownership}
use vmem_kv.Defrag.{u64, live_of, segment_count}

pub record Victim : Type 0 where
  pub seg : ℕ
  pub garbage : ℕ

-- The bytes of a segment that are in use, and those of them that count as live.
abbrev pub seg_used : ℕ → ℕ → ℕ → ℕ
seg_used segment_bytes used seg =
    let seg_start = u64 (seg * segment_bytes) in
    min (u64 (seg_start + segment_bytes)) used - seg_start

abbrev pub seg_live : ℕ → T2Ownership → ℕ → ℕ → ℕ
seg_live segment_bytes own used seg = min (live_of own seg) (seg_used segment_bytes used seg)

unfoldable pub is_frozen : ℕ → ℕ → ℕ → ℕ → Bool
is_frozen segment_bytes base used seg =
    let seg_start = u64 (seg * segment_bytes) in
    leb (u64 (seg_start + segment_bytes)) base && ltb seg_start used

unfoldable pub is_garbage : ℕ → ℕ → Bool
is_garbage used live = ltb live used && leb used (u64 ((used - live) * 2))

-- One round of the first loop.
unfoldable pub is_victim : ℕ → T2Ownership → ℕ → ℕ → ℕ → Bool
unfolding is_frozen is_garbage
is_victim segment_bytes own base used seg =
    is_frozen segment_bytes base used seg
    && is_garbage (seg_used segment_bytes used seg) (seg_live segment_bytes own used seg)

unfoldable pub victim_of : ℕ → T2Ownership → ℕ → ℕ → Victim
victim_of segment_bytes own used seg = record {
  seg = seg;
  garbage = seg_used segment_bytes used seg - seg_live segment_bytes own used seg;
}

-- The first loop, with the rounds that are left.
unfoldable pub find_victims : ℕ → ℕ → T2Ownership → ℕ → ℕ → ℕ → List Victim
unfolding is_victim victim_of
find_victims zero segment_bytes own base used seg = []
find_victims (suc rounds) segment_bytes own base used seg =
    let rest = find_victims rounds segment_bytes own base used (seg + 1) in
    if is_victim segment_bytes own base used seg
    then victim_of segment_bytes own used seg ∷ rest
    else rest

unfoldable pub insert_victim : Victim → List Victim → List Victim
insert_victim v [] = v ∷ []
insert_victim v (w ∷ ws) =
    let rest = insert_victim v ws in if ltb v.garbage w.garbage then w ∷ rest else v ∷ w ∷ ws

-- The sort by garbage, greatest first.
unfoldable pub sort_victims : List Victim → List Victim
unfolding insert_victim
sort_victims [] = []
sort_victims (v ∷ vs) = insert_victim v (sort_victims vs)

-- The bytes that emptying a victim is taken to move.
abbrev pub moves : ℕ → T2Ownership → Victim → ℕ
moves segment_bytes own v = min (live_of own v.seg) segment_bytes

-- The loop under the budget.
unfoldable pub take_victims : ℕ → ℕ → T2Ownership → ℕ → List Victim → List ℕ
take_victims budget segment_bytes own est_move [] = []
take_victims budget segment_bytes own est_move (v ∷ vs) =
    let rest =
      take_victims budget segment_bytes own (u64 (est_move + moves segment_bytes own v)) vs in
    if leb budget est_move then [] else v.seg ∷ rest

unfoldable pub insert_number : ℕ → List ℕ → List ℕ
insert_number n [] = n ∷ []
insert_number n (m ∷ ms) = let rest = insert_number n ms in if ltb m n then m ∷ rest else n ∷ m ∷ ms

-- std::sort on numbers.
unfoldable pub sort_numbers : List ℕ → List ℕ
unfolding insert_number
sort_numbers [] = []
sort_numbers (n ∷ ns) = insert_number n (sort_numbers ns)

unfoldable pub select_victims : ℕ → ℕ → T2Ownership → ℕ → ℕ → List ℕ
unfolding find_victims sort_victims take_victims sort_numbers
select_victims budget segment_bytes own base used = sort_numbers (
    take_victims budget segment_bytes own 0
      (sort_victims (find_victims (segment_count own) segment_bytes own base used 0)))
