-- ===== src/Tests/T1Tests.antt =====
-- The index of implementation/vmemkv/src/t1_index, run.
use vmem_kv.Prelude.{ℕ, ◌≡◌, refl, ap, inl, true, false, none, List, [], ◌∷◌, All, arith, replicate}
use vmem_kv.Bytes.Compare.{sign_of}
use vmem_kv.Bytes.Compare.Laws.{dictionary}
use vmem_kv.T1.Codec.{clean_hash, prefix_from_bytes, store_not_found}
use vmem_kv.T1.Entry.{EntrySnapshot, answers}
use vmem_kv.T1.Entry.Order.{order}
use vmem_kv.T1.Bloom.{reset, add, maybe_contains}
use vmem_kv.T1.Bloom.Size.{IsSized-reset}
use vmem_kv.T1.Bloom.Laws.{IsSized-add, contains-add, add-maybe_contains}
use vmem_kv.T1.Merge.{rebuild, collect_live_entries}
use vmem_kv.T1.Merge.Plain.{Ascending, find_entry, or_else}
use vmem_kv.T1.Merge.Live.{IsLive}
use vmem_kv.T1.Merge.Rebuild.{rebuild-lookup}
use vmem_kv.T1.Index.{T1Index, applied, empty_append_region, sorted_region_of, put, publish_merged}
use vmem_kv.T1.Index.Lookup.{WellFormed, view}
use vmem_kv.T1.Index.Map.{IsPut, stored_hash, put-get}
use vmem_kv.T1.Index.Reorganize.{payload_of, publish_merged-payload, sorted_region_of-Covers}
use vmem_kv.T1.Index.Tombstone.{frozen, published, removed, remove-resurrected}

abbrev key_a : List ℕ
key_a = 97 ∷ replicate 15 0

abbrev key_b : List ℕ
key_b = 98 ∷ replicate 15 0

abbrev entry_a : EntrySnapshot
entry_a = record { key = key_a; payload_bits = 1000; hash = 7 }

abbrev entry_b : EntrySnapshot
entry_b = record { key = key_b; payload_bits = 2000; hash = 8 }

abbrev newer_a : EntrySnapshot
newer_a = record { key = key_a; payload_bits = 3000; hash = 7 }

abbrev dead_b : EntrySnapshot
dead_b = record { key = key_b; payload_bits = store_not_found; hash = 8 }

abbrev index_a : T1Index
index_a = record {
  append_active = empty_append_region;
  append_immutable = none;
  sorted_region = sorted_region_of (entry_a ∷ []);
  sorted_write_frozen = false;
}

index_a-WellFormed : WellFormed index_a
unfolding sorted_region_of
index_a-WellFormed = record {
  ascending = (tt, tt);
  covered = sorted_region_of-Covers (entry_a ∷ []);
  active = tt;
  immutable = tt;
}

abbrev head : List ℕ → ℕ
head [] = 0
head (x ∷ xs) = x

add-maybe_contains_example :
    (maybe_contains (add 5 (add 3 (reset 2))) 5 ≡ true)
    × (maybe_contains (add 5 (add 3 (reset 2))) 3 ≡ true)
add-maybe_contains_example =
    add-maybe_contains 5 (add 3 (reset 2)) 3 (IsSized-add 3 (reset 2) (IsSized-reset 2))
      (contains-add 3 (reset 2) (IsSized-reset 2))

Ascending-ab : Ascending (entry_a ∷ entry_b ∷ [])
unfolding order dictionary sign_of clean_hash
Ascending-ab = ((refl, tt), (tt, tt))

rebuild-lookup_example :
    Ascending (rebuild (entry_a ∷ entry_b ∷ []) (dead_b ∷ newer_a ∷ []))
    × All IsLive (rebuild (entry_a ∷ entry_b ∷ []) (dead_b ∷ newer_a ∷ []))
    × (find_entry key_a 7 (rebuild (entry_a ∷ entry_b ∷ []) (dead_b ∷ newer_a ∷ []))
        ≡ or_else
            (find_entry key_a 7 (collect_live_entries (dead_b ∷ newer_a ∷ [])))
            (find_entry key_a 7 (collect_live_entries (entry_a ∷ entry_b ∷ []))))
unfolding collect_live_entries
rebuild-lookup_example =
    rebuild-lookup (entry_a ∷ entry_b ∷ []) (dead_b ∷ newer_a ∷ []) key_a 7 Ascending-ab (tt, tt)

put-get_example :
    IsPut 4 index_a
      (97 ∷ [])
      500
      (stored_hash (97 ∷ []) true 2)
      (98 ∷ [])
      (put 4 index_a (97 ∷ []) 500 true 2)
unfolding prefix_from_bytes
put-get_example =
    put-get 4 index_a (97 ∷ []) 500 true 2 (98 ∷ []) index_a-WellFormed
      (inl (λ e. let d : 98 ≡ 97 = ap head e in absurd (omega arith)))

publish_merged-payload_example :
    WellFormed (publish_merged (λ entries. entries) index_a)
    × (payload_of (view (publish_merged (λ entries. entries) index_a) key_a 7)
        ≡ payload_of (view index_a key_a 7))
unfolding find_entry
publish_merged-payload_example =
    publish_merged-payload index_a key_a 7 index_a-WellFormed (inl refl)

remove-resurrected_example :
    ((removed 4 index_a key_a 7).1 ≡ applied)
    × (payload_of (view (published ((removed 4 index_a key_a 7).0)) key_a 7) ≡ store_not_found)
    × (payload_of (view (published (frozen (published ((removed 4 index_a key_a 7).0)))) key_a 7)
        ≡ 1000)
unfolding find_entry answers clean_hash dictionary sorted_region_of sign_of
remove-resurrected_example =
    remove-resurrected 4 index_a key_a 7 entry_a index_a-WellFormed refl refl refl refl refl
      (omega arith)
