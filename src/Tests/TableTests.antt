-- ===== src/Tests/TableTests.antt =====
-- implementation/vmemkv/src/core/lock_free_hash_table.hpp, run.
use vmem_kv.Prelude.{ℕ, zero, suc, ◌≡◌, refl, true, none, some, [], ◌∷◌}
use vmem_kv.Bytes.Compare.{bytes_equal}
use vmem_kv.Table.{Slot, Buckets, holds, store_bucket, find_slot_index, publish_slot, Published}
use vmem_kv.Table.Publish.{IsTable, publish_slot-find_slot_index}

-- Slot 0 has the key "a" and slot 1 the key "b", with the same hash.
abbrev two_slots : ℕ → Slot
two_slots zero = record { published = true; hash = 5; key = 97 ∷ [] }
two_slots (suc n) = record { published = true; hash = 5; key = 98 ∷ [] }

abbrev no_buckets : Buckets
no_buckets i = 0

no_buckets-IsTable : IsTable two_slots 4 no_buckets
no_buckets-IsTable q n = absurd (cc n)

abbrev first_published : Published
first_published = record { buckets = store_bucket 1 1 no_buckets; displaced = none }

publish_slot-find_slot_index_example :
    (find_slot_index 4 two_slots (97 ∷ []) 5 first_published.buckets ≡ 1)
    × (find_slot_index 4 two_slots (98 ∷ []) 5 first_published.buckets
        ≡ find_slot_index 4 two_slots (98 ∷ []) 5 no_buckets)
    × IsTable two_slots 4 first_published.buckets
unfolding publish_slot holds bytes_equal
publish_slot-find_slot_index_example =
    publish_slot-find_slot_index two_slots 4 no_buckets (97 ∷ []) 5 1 first_published
      no_buckets-IsTable refl refl refl (98 ∷ []) 5 refl

-- The second slot goes to the bucket after it.
probes_next :
    publish_slot 4 two_slots (98 ∷ []) 5 first_published.buckets 2
    ≡ some (record { buckets = store_bucket 2 2 first_published.buckets; displaced = none })
unfolding publish_slot holds bytes_equal
probes_next = refl
