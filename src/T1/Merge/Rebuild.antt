-- ===== src/T1/Merge/Rebuild.antt =====
-- The sorted region that T1Index::reorganize builds.
use vmem_kv.Prelude.{ℕ, ◌+◌, ◌≡◌, ap, ◌∙◌, List, length, All, arith}
use vmem_kv.T1.Entry.{EntrySnapshot}
use vmem_kv.T1.Merge.{rebuild, sort_entries, collect_live_entries}
use vmem_kv.T1.Merge.Plain.{
  Ascending, find_entry, or_else, All-plain, Ascending-plain, find_entry-plain,
}
use vmem_kv.T1.Merge.Live.{
  IsLive, merge_entries-plain, length-collect_live_entries, Ascending-collect_live_entries,
  IsLive-collect_live_entries,
}
use vmem_kv.T1.Merge.Sorting.{
  Distinct, Ascending-sort_entries, All-sort_entries, find_entry-sort_entries,
}

-- The new sorted region is strictly ascending, all its entries are live, and a lookup of a prefix
-- and clean hash finds the live entry of the frozen append region, or else the live entry of the old
-- sorted region, provided that the old sorted region was strictly ascending and the live entries of
-- the append region have different identities.
pub rebuild-lookup :
    (sorted old_active : List EntrySnapshot) (prefix : List ℕ) (hash : ℕ)
    → Ascending sorted
    → Distinct (collect_live_entries old_active)
    → Ascending (rebuild sorted old_active)
      × All IsLive (rebuild sorted old_active)
      × (find_entry prefix hash (rebuild sorted old_active)
          ≡ or_else
              (find_entry prefix hash (collect_live_entries old_active))
              (find_entry prefix hash (collect_live_entries sorted)))
unfolding rebuild
rebuild-lookup sorted old_active prefix hash p q =
    let imm = sort_entries (collect_live_entries old_active) in
    let fuel = length sorted + length imm in
    let old = collect_live_entries sorted in
    let up = Ascending-sort_entries (collect_live_entries old_active) q in
    let down = Ascending-collect_live_entries sorted p in
    rw (merge_entries-plain sorted imm) (
      Ascending-plain fuel old imm down up,
      All-plain IsLive fuel old imm (IsLive-collect_live_entries sorted) (
          All-sort_entries IsLive (collect_live_entries old_active)
            (IsLive-collect_live_entries old_active)),
      find_entry-plain prefix hash fuel old imm (omega (arith, length-collect_live_entries sorted))
            down up
          ∙ ap (λ o. or_else o (find_entry prefix hash old))
              (find_entry-sort_entries prefix hash (collect_live_entries old_active) q),
    )
