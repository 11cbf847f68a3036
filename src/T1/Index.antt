-- ===== src/T1/Index.antt =====
-- T1Index of implementation/vmemkv/src/t1_index/t1_index.hpp, as a state with its operations as
-- steps: an append region that is written, the append region that a reorganisation has frozen,
-- and the sorted region. Each operation runs without another between its reads and writes, so a
-- slot is read as a pair and carries no version, and all reserved slots are published. The
-- sorted region has its filter, as with UseBloomFilter of the configuration.
pub mod Find
pub mod Slots
pub mod Lookup
pub mod Resolved
pub mod Put
pub mod Map
pub mod Reorganize
pub mod Tombstone
use vmem_kv.Prelude.{
  ℕ, zero, suc, ◌+◌, Bool, true, false, ◌||◌, ◌&&◌, not, Option, none, some, List, [], ◌∷◌, ◌++◌,
  length, ◌==◌, leb, if◌then◌else◌,
}
use vmem_kv.T1.Codec.{store_not_found, clean_hash, prefix_from_bytes, hash_full_key, embed_metadata}
use vmem_kv.T1.Entry.{EntrySnapshot, key_equal, key_less, answers}
use vmem_kv.T1.Bloom.{BloomFilter, reset, add, maybe_contains}
use vmem_kv.T1.Merge.{rebuild}

pub record SortedRegion : Type 0 where
  pub slots : List EntrySnapshot
  pub bloom : BloomFilter

pub record AppendRegion : Type 0 where
  pub slots : List EntrySnapshot
  pub bounds : Option (List ℕ × List ℕ)

pub record T1Index : Type 0 where
  pub append_active : AppendRegion
  pub append_immutable : Option AppendRegion
  pub sorted_region : SortedRegion
  pub sorted_write_frozen : Bool

pub record LookupResult : Type 0 where
  pub payload_bits : ℕ
  pub raw_hash : ℕ

pub data PutResult : Type 0 where
  applied append_region_full : PutResult

unfoldable pub add_entries : List EntrySnapshot → BloomFilter → BloomFilter
add_entries [] bloom = bloom
add_entries (e ∷ es) bloom = add_entries es (add (clean_hash e.hash) bloom)

-- SortedRegion's constructor.
unfoldable pub sorted_region_of : List EntrySnapshot → SortedRegion
unfolding add_entries
sorted_region_of entries = record {
  slots = entries;
  bloom = add_entries entries (reset (length entries));
}

abbrev pub empty_append_region : AppendRegion
empty_append_region = record { slots = []; bounds = none }

-- std::lower_bound by key: the slots from the first whose key is not less.
unfoldable pub lower_bound : List ℕ → List EntrySnapshot → List EntrySnapshot
lower_bound key [] = []
lower_bound key (s ∷ ss) = elim (key_less s.key key) [ true ↦ lower_bound key ss | false ↦ s ∷ ss ]

-- The walk over the slots of one key.
unfoldable pub find_hash : List ℕ → ℕ → List EntrySnapshot → Option EntrySnapshot
unfolding clean_hash
find_hash key hash [] = none
find_hash key hash (s ∷ ss) =
    let rest = find_hash key hash ss in
    if key_equal s.key key then (if clean_hash s.hash == hash then some s else rest) else none

unfoldable pub find_sorted : SortedRegion → List ℕ → ℕ → Option EntrySnapshot
unfolding lower_bound find_hash maybe_contains
find_sorted sorted key hash =
    if not (maybe_contains sorted.bloom hash)
    then none
    else find_hash key hash (lower_bound key sorted.slots)

-- What the hash index of an append region finds: the slot of the prefix and clean hash.
unfoldable pub find_with_index : List ℕ → ℕ → List EntrySnapshot → Option EntrySnapshot
unfolding answers
find_with_index key hash [] = none
find_with_index key hash (s ∷ ss) =
    let rest = find_with_index key hash ss in if answers key hash s then some s else rest

abbrev pub find_append : AppendRegion → List ℕ → ℕ → Option EntrySnapshot
find_append region key hash = find_with_index key hash region.slots

abbrev pub find_immutable : Option AppendRegion → List ℕ → ℕ → Option EntrySnapshot
find_immutable none key hash = none
find_immutable (some imm) key hash = find_append imm key hash

abbrev pub result_of : Option EntrySnapshot → LookupResult
result_of none = record { payload_bits = store_not_found; raw_hash = 0 }
result_of (some slot) = record { payload_bits = slot.payload_bits; raw_hash = slot.hash }

unfoldable pub lookup_by_prefix_hash : T1Index → List ℕ → ℕ → LookupResult
unfolding find_with_index find_sorted
lookup_by_prefix_hash t1 prefix hash = elim (find_append t1.append_active prefix hash) [
  | some slot ↦ result_of (some slot)
  | none ↦ elim (find_immutable t1.append_immutable prefix hash) [
    | some slot ↦ result_of (some slot)
    | none ↦ result_of (find_sorted t1.sorted_region prefix hash)
  ]
]

unfoldable pub get_with_hash : T1Index → List ℕ → LookupResult
unfolding prefix_from_bytes hash_full_key lookup_by_prefix_hash
get_with_hash t1 key = lookup_by_prefix_hash t1 (prefix_from_bytes key) (hash_full_key key)

-- The slot that a write may change in place.
pub data ResolvedSlot : Type 0 where
  append sorted absent : ResolvedSlot

unfoldable pub resolve : T1Index → List ℕ → ℕ → ResolvedSlot
unfolding find_with_index find_sorted
resolve t1 key hash = elim (find_append t1.append_active key hash) [
  | some _ ↦ append
  | none ↦ elim (find_immutable t1.append_immutable key hash) [
    | some _ ↦ absent
    | none ↦ elim (find_sorted t1.sorted_region key hash) [
      | some _ ↦ if t1.sorted_write_frozen then absent else sorted
      | none ↦ absent
    ]
  ]
]

-- try_store and store_hash on the slot that answers.
unfoldable pub store_slot : List ℕ → ℕ → ℕ → ℕ → List EntrySnapshot → List EntrySnapshot
unfolding answers
store_slot key hash stored_hash value [] = []
store_slot key hash stored_hash value (s ∷ ss) =
    let rest = store_slot key hash stored_hash value ss in
    if answers key hash s
    then record { key = s.key; payload_bits = value; hash = stored_hash } ∷ ss
    else s ∷ rest

unfoldable pub update_bounds : List ℕ → Option (List ℕ × List ℕ) → Option (List ℕ × List ℕ)
update_bounds key none = some (key, key)
update_bounds key (some (low, high)) =
    some (if key_less key low then key else low, if key_less high key then key else high)

unfoldable pub publish : AppendRegion → List ℕ → ℕ → ℕ → AppendRegion
unfolding update_bounds
publish region key hash value = record {
  slots = region.slots ++ record { key = key; payload_bits = value; hash = hash } ∷ [];
  bounds = update_bounds key region.bounds;
}

-- The write, on the slot that resolve found. append_cap_ is the first argument.
unfoldable pub put_resolved : ℕ → T1Index → List ℕ → ℕ → ℕ → ℕ → ResolvedSlot → T1Index × PutResult
unfolding store_slot publish
put_resolved append_cap t1 prefix hash stored_hash value append = (
  record {
    append_active = record {
      slots = store_slot prefix hash stored_hash value t1.append_active.slots;
      bounds = t1.append_active.bounds;
    };
    append_immutable = t1.append_immutable;
    sorted_region = t1.sorted_region;
    sorted_write_frozen = t1.sorted_write_frozen;
  },
  applied,
)
put_resolved append_cap t1 prefix hash stored_hash value sorted = (
  record {
    append_active = t1.append_active;
    append_immutable = t1.append_immutable;
    sorted_region = record {
      slots = store_slot prefix hash stored_hash value t1.sorted_region.slots;
      bloom = t1.sorted_region.bloom;
    };
    sorted_write_frozen = t1.sorted_write_frozen;
  },
  applied,
)
put_resolved append_cap t1 prefix hash stored_hash value absent =
    if leb append_cap (length t1.append_active.slots) then (t1, append_region_full) else (
      record {
        append_active = publish t1.append_active prefix stored_hash value;
        append_immutable = t1.append_immutable;
        sorted_region = t1.sorted_region;
        sorted_write_frozen = t1.sorted_write_frozen;
      },
      applied,
    )

unfoldable pub put_with_stored_hash : ℕ → T1Index → List ℕ → ℕ → ℕ → ℕ → T1Index × PutResult
unfolding resolve put_resolved
put_with_stored_hash append_cap t1 prefix hash stored_hash value =
    put_resolved append_cap t1 prefix hash stored_hash value (resolve t1 prefix hash)

unfoldable pub put : ℕ → T1Index → List ℕ → ℕ → Bool → ℕ → T1Index × PutResult
unfolding prefix_from_bytes hash_full_key embed_metadata put_with_stored_hash
put append_cap t1 key value inlined inline_size =
    let hash = hash_full_key key in
    let stored_hash = if inlined then embed_metadata hash inline_size else hash in
    put_with_stored_hash append_cap t1 (prefix_from_bytes key) hash stored_hash value

-- reorganize, first part: the active region is frozen and a fresh one takes its place.
unfoldable pub freeze_append : T1Index → T1Index
freeze_append t1 = record {
  append_active = empty_append_region;
  append_immutable = some t1.append_active;
  sorted_region = t1.sorted_region;
  sorted_write_frozen = t1.sorted_write_frozen;
}

-- Then the sorted region is frozen for writers.
unfoldable pub freeze_sorted : T1Index → T1Index
freeze_sorted t1 = record {
  append_active = t1.append_active;
  append_immutable = t1.append_immutable;
  sorted_region = t1.sorted_region;
  sorted_write_frozen = true;
}

abbrev pub frozen_slots : Option AppendRegion → List EntrySnapshot
frozen_slots none = []
frozen_slots (some region) = region.slots

-- Then the merged region, its payloads mapped by the caller, is published and both are unfrozen.
unfoldable pub publish_merged : (List EntrySnapshot → List EntrySnapshot) → T1Index → T1Index
unfolding rebuild sorted_region_of
publish_merged offset_mapper t1 = record {
  append_active = t1.append_active;
  append_immutable = none;
  sorted_region =
      sorted_region_of
        (offset_mapper (rebuild t1.sorted_region.slots (frozen_slots t1.append_immutable)));
  sorted_write_frozen = false;
}
