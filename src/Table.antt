-- ===== src/Table.antt =====
-- The open-addressing table of implementation/vmemkv/src/core/lock_free_hash_table.hpp, one call at a
-- time.
--
-- A bucket is a number, 0 for kEmpty and else the index of a slot and one. `& (bucket_count - 1)` is
-- `% bucket_count`, since the count is a power of two. What a slot holds is an argument.
pub mod Found
pub mod Others
pub mod Publish
use vmem_kv.Prelude.{
  ℕ, zero, suc, ◌+◌, ◌-◌, ◌%◌, Bool, true, false, ◌&&◌, Option, none, some, List, ◌==◌,
  if◌then◌else◌,
}
use vmem_kv.Bytes.Compare.{bytes_equal}

pub record Slot : Type 0 where
  pub published : Bool
  pub hash : ℕ
  pub key : List ℕ

abbrev pub Buckets : Type 0
Buckets = ℕ → ℕ

unfoldable pub bucket_index : ℕ → ℕ → ℕ
bucket_index bucket_count hash = hash % bucket_count

unfoldable pub next_pos : ℕ → ℕ → ℕ
next_pos bucket_count pos = (pos + 1) % bucket_count

-- The test on an occupied bucket.
unfoldable pub holds : (ℕ → Slot) → List ℕ → ℕ → ℕ → Bool
holds slot_at key hash observed =
    let slot = slot_at (observed - 1) in
    slot.published && (slot.hash == hash) && bytes_equal slot.key key

unfoldable pub store_bucket : ℕ → ℕ → Buckets → Buckets
store_bucket pos value buckets i = if i == pos then value else buckets i

-- The buckets after a publication, and the index that on_displaced is called with.
pub record Published : Type 0 where
  pub buckets : Buckets
  pub displaced : Option ℕ

module _ (bucket_count : ℕ) (slot_at : ℕ → Slot) (key : List ℕ) (hash : ℕ) where
  -- The loop of find_slot_index, with the probes that are left.
  unfoldable pub find_loop : (probes : ℕ) → Buckets → ℕ → ℕ
  unfolding next_pos
  find_loop zero buckets pos = 0
  find_loop (suc probes) buckets pos =
      let rest = find_loop probes buckets (next_pos bucket_count pos) in
      if buckets pos == 0
      then 0
      else if holds slot_at key hash (buckets pos)
      then buckets pos
      else rest

  unfoldable pub find_slot_index : Buckets → ℕ
  unfolding find_loop bucket_index
  find_slot_index buckets = find_loop bucket_count buckets (bucket_index bucket_count hash)

  -- The loop of publish_slot; nothing is returned where every probe fails.
  unfoldable pub publish_loop : (probes : ℕ) → Buckets → ℕ → ℕ → Option Published
  unfolding next_pos store_bucket
  publish_loop zero buckets slot_plus_one pos = none
  publish_loop (suc probes) buckets slot_plus_one pos =
      let rest = publish_loop probes buckets slot_plus_one (next_pos bucket_count pos) in
      if buckets pos == 0
      then some (record { buckets = store_bucket pos slot_plus_one buckets; displaced = none })
      else if holds slot_at key hash (buckets pos)
      then some (record {
        buckets = store_bucket pos slot_plus_one buckets;
        displaced = some (buckets pos - 1);
      })
      else rest

  unfoldable pub publish_slot : Buckets → ℕ → Option Published
  unfolding publish_loop bucket_index
  publish_slot buckets slot_plus_one =
      publish_loop bucket_count buckets slot_plus_one (bucket_index bucket_count hash)
