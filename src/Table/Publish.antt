-- ===== src/Table/Publish.antt =====
-- publish_slot and find_slot_index are the update and the lookup of a map.
use vmem_kv.Prelude.{
  ℕ, zero, suc, ◌-◌, ◌≡◌, ◌⊎◌, inl, inr, sym, ap, ◌∙◌, true, false, some, List, ◌==◌, ==_iff,
  Bool-cases, arith,
}
use mathlib.Core.Path.{subst}
use vmem_kv.Bytes.Compare.{bytes_equal}
use vmem_kv.Bytes.Compare.Order.{bytes_equal_iff}
use vmem_kv.Table.{
  Slot, Buckets, bucket_index, next_pos, holds, store_bucket, find_slot_index, Published,
  publish_slot,
}
use vmem_kv.Table.Found.{
  Chain, arrived, over, store_bucket_here, store_bucket_other, Placed, publish_loop-Placed,
  found_loop,
}
use vmem_kv.Table.Others.{Reachable, find_loop-store_bucket}

module _ (slot_at : ℕ → Slot) where
  -- Every slot of the table can be reached from the bucket of its hash.
  abbrev pub IsTable : ℕ → Buckets → Type 0
  IsTable bucket_count buckets =
      (q : ℕ)
      → (buckets q == 0) ≡ false
      → Chain bucket_count buckets q bucket_count
          (bucket_index bucket_count (slot_at (buckets q - 1)).hash)

  holds-parts :
      (key : List ℕ) (hash observed : ℕ)
      → holds slot_at key hash observed ≡ true
      → ((slot_at (observed - 1)).published ≡ true)
        × ((slot_at (observed - 1)).hash ≡ hash)
        × (bytes_equal (slot_at (observed - 1)).key key ≡ true)
  unfolding holds
  holds-parts key hash observed h = ground arith

  IsTable-Reachable :
      (bucket_count : ℕ) (buckets : Buckets) (key : List ℕ) (hash : ℕ)
      → IsTable bucket_count buckets
      → Reachable bucket_count slot_at key hash buckets bucket_count
          (bucket_index bucket_count hash)
  IsTable-Reachable bucket_count buckets key hash table q n h =
      rw (← (holds-parts key hash (buckets q) h).1) (table q n)

  -- A bucket with one key does not hold another, of which a slot with the key is free.
  holds-other :
      (key other : List ℕ) (hash hash' slot at : ℕ)
      → holds slot_at key hash slot ≡ true
      → holds slot_at other hash' slot ≡ false
      → holds slot_at key hash at ≡ true
      → holds slot_at other hash' at ≡ false
  holds-other key other hash hash' slot at mine foreign there =
      elim (Bool-cases (holds slot_at other hash' at)) [
        | inr h ↦ h
        | inl h ↦
            let (_, hash_there, key_there) = holds-parts key hash at there in
            let (_, hash_here, key_here) = holds-parts other hash' at h in
            let stored = (slot_at (at - 1)).key in
            let keys : key ≡ other =
              sym ((bytes_equal_iff stored key).0 key_there)
              ∙ (bytes_equal_iff stored other).0 key_here in
            let hashes : hash ≡ hash' = sym hash_there ∙ hash_here in
            let same : holds slot_at other hash' slot ≡ true = rw (← keys, ← hashes) mine in
            absurd (cc (sym same ∙ foreign))
      ]

  Chain-store_bucket :
      (bucket_count : ℕ) (buckets : Buckets) (at slot target probes pos : ℕ)
      → (slot == 0) ≡ false
      → Chain bucket_count buckets target probes pos
      → Chain bucket_count (store_bucket at slot buckets) target probes pos
  Chain-store_bucket bucket_count buckets at slot target zero pos n c = elim c [ ]
  Chain-store_bucket bucket_count buckets at slot target (suc probes) pos n (arrived left p e) =
      arrived probes pos e
  Chain-store_bucket bucket_count buckets at slot target (suc probes) pos n
        (over left p busy rest) =
      let more =
        Chain-store_bucket bucket_count buckets at slot target probes (next_pos bucket_count pos) n
          rest in
      elim (Bool-cases (pos == at)) [
        | inl e ↦
            let now : store_bucket at slot buckets pos ≡ slot =
              ap (store_bucket at slot buckets) ((==_iff pos at).0 e)
              ∙ store_bucket_here at slot buckets in
            over probes pos (rw now n) more
        | inr e ↦ over probes pos (rw (store_bucket_other at slot pos buckets e) busy) more
      ]

  module _ (bucket_count : ℕ) (buckets : Buckets) (key : List ℕ) (hash slot : ℕ) (p : Published)
      (table : IsTable bucket_count buckets) (present : (slot == 0) ≡ false)
      (mine : holds slot_at key hash slot ≡ true)
      (done : publish_slot bucket_count slot_at key hash buckets slot ≡ some p) where
    placed :
        Placed bucket_count slot_at key hash bucket_count
          (bucket_index bucket_count hash)
          buckets
          slot
          p.buckets
    unfolding publish_slot
    placed =
        publish_loop-Placed bucket_count slot_at key hash bucket_count buckets slot
          (bucket_index bucket_count hash) p done

    found : find_slot_index bucket_count slot_at key hash p.buckets ≡ slot
    unfolding publish_slot find_slot_index
    found =
        found_loop bucket_count slot_at key hash bucket_count buckets slot
          (bucket_index bucket_count hash) p present mine done

    IsTable-after : IsTable bucket_count (store_bucket placed.at slot buckets)
    IsTable-after q n = elim (Bool-cases (q == placed.at)) [
      | inl e ↦
          let there : q ≡ placed.at = (==_iff q placed.at).0 e in
          let now : store_bucket placed.at slot buckets q ≡ slot =
            ap (store_bucket placed.at slot buckets) there
            ∙ store_bucket_here placed.at slot buckets in
          let start = (holds-parts key hash slot mine).1 in
          rw (now, start, there)
            (Chain-store_bucket bucket_count buckets placed.at slot placed.at bucket_count
              (bucket_index bucket_count hash) present placed.path)
      | inr e ↦
          let same = store_bucket_other placed.at slot q buckets e in
          let busy : (buckets q == 0) ≡ false = rw (← same) n in
          rw same (
            Chain-store_bucket bucket_count buckets placed.at slot q bucket_count
              (bucket_index bucket_count (slot_at (buckets q - 1)).hash) present (table q busy))
    ]

    unchanged :
        (other : List ℕ) (hash' : ℕ)
        → holds slot_at other hash' slot ≡ false
        → find_slot_index bucket_count slot_at other hash' (store_bucket placed.at slot buckets)
          ≡ find_slot_index bucket_count slot_at other hash' buckets
    unfolding find_slot_index
    unchanged other hash' foreign =
        find_loop-store_bucket bucket_count slot_at other hash' buckets placed.at slot foreign
          bucket_count (bucket_index bucket_count hash') was present
          (IsTable-Reachable bucket_count buckets other hash' table)
      where
        was : (buckets placed.at ≡ 0) ⊎ (holds slot_at other hash' (buckets placed.at) ≡ false)
        was = elim placed.free [
          | inl free ↦ inl free
          | inr held ↦
              inr (holds-other key other hash hash' slot (buckets placed.at) mine foreign held)
        ]

    -- In a table whose slots can all be reached, a successful publication of a slot under its own key
    -- and hash makes the lookup of that key and hash give the slot. The lookup of a key and hash that
    -- are not the slot's gives what it gave before, and all slots can still be reached.
    pub publish_slot-find_slot_index :
        (other : List ℕ) (hash' : ℕ)
        → holds slot_at other hash' slot ≡ false
        → (find_slot_index bucket_count slot_at key hash p.buckets ≡ slot)
          × (find_slot_index bucket_count slot_at other hash' p.buckets
              ≡ find_slot_index bucket_count slot_at other hash' buckets)
          × IsTable bucket_count p.buckets
    publish_slot-find_slot_index other hash' foreign = (
      found,
      ap (find_slot_index bucket_count slot_at other hash') placed.stored
          ∙ unchanged other hash' foreign,
      subst (IsTable bucket_count) (sym placed.stored) IsTable-after,
    )
