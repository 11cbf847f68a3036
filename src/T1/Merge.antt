-- ===== src/T1/Merge.antt =====
-- The merge of T1Index::reorganize, implementation/vmemkv/src/t1_index/t1_index.hpp: the sorted
-- region with the sorted entries of the frozen append region. A loop over two indices is a
-- recursion on the two rests, on fuel for each step.
pub mod Plain
pub mod Sorting
pub mod Live
pub mod Rebuild
use vmem_kv.Prelude.{ℕ, zero, suc, ◌+◌, Bool, true, false, List, [], ◌∷◌, length, if◌then◌else◌}
use vmem_kv.T1.Entry.{EntrySnapshot, entry_identity_equal, entry_less, is_live}

-- std::sort with the merge's comparison.
unfoldable pub insert_entry : EntrySnapshot → List EntrySnapshot → List EntrySnapshot
unfolding entry_less
insert_entry e [] = e ∷ []
insert_entry e (x ∷ xs) =
    let rest = insert_entry e xs in
    if entry_less x.key x.hash e.key e.hash then x ∷ rest else e ∷ x ∷ xs

unfoldable pub sort_entries : List EntrySnapshot → List EntrySnapshot
unfolding insert_entry
sort_entries [] = []
sort_entries (x ∷ xs) = insert_entry x (sort_entries xs)

-- AppendRegion::collect_live_entries, of published slots.
unfoldable pub collect_live_entries : List EntrySnapshot → List EntrySnapshot
collect_live_entries [] = []
collect_live_entries (slot ∷ slots) =
    let rest = collect_live_entries slots in if is_live slot.payload_bits then slot ∷ rest else rest

-- The sorted slots from the next live one.
unfoldable pub skip_dead : List EntrySnapshot → List EntrySnapshot
skip_dead [] = []
skip_dead (s ∷ ss) = elim (is_live s.payload_bits) [ true ↦ s ∷ ss | false ↦ skip_dead ss ]

unfoldable pub merge_loop : ℕ → List EntrySnapshot → List EntrySnapshot → List EntrySnapshot
unfolding skip_dead entry_identity_equal entry_less
merge_loop zero sorted imm = []
merge_loop (suc fuel) [] [] = []
merge_loop (suc fuel) (s ∷ ss) [] = s ∷ merge_loop fuel (skip_dead ss) []
merge_loop (suc fuel) [] (m ∷ ms) = m ∷ merge_loop fuel [] ms
merge_loop (suc fuel) (s ∷ ss) (m ∷ ms) = elim (entry_identity_equal s.key s.hash m.key m.hash) [
  | true ↦ m ∷ merge_loop fuel (skip_dead ss) ms
  | false ↦ elim (entry_less s.key s.hash m.key m.hash) [
    | true ↦ s ∷ merge_loop fuel (skip_dead ss) (m ∷ ms)
    | false ↦ m ∷ merge_loop fuel (s ∷ ss) ms
  ]
]

unfoldable pub merge_entries : List EntrySnapshot → List EntrySnapshot → List EntrySnapshot
unfolding merge_loop
merge_entries sorted imm = merge_loop (length sorted + length imm) (skip_dead sorted) imm

-- What reorganize makes of the sorted region and the frozen append region.
unfoldable pub rebuild : List EntrySnapshot → List EntrySnapshot → List EntrySnapshot
unfolding merge_entries sort_entries collect_live_entries
rebuild sorted old_active = merge_entries sorted (sort_entries (collect_live_entries old_active))
