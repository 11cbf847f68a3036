-- ===== src/T1/Index/Map.antt =====
-- T1Index as a map from keys: put and get_with_hash.
use mathlib.Core.Path.{subst}
use vmem_kv.Prelude.{
  ℕ, ◌≤◌, ◌≡◌, length, sym, ap, ◌∙◌, ◌⊎◌, Bool, true, false, inl, inr, List, if◌then◌else◌, arith,
}
use vmem_kv.T1.Codec.{clean_hash, prefix_from_bytes, hash_full_key, embed_metadata}
use vmem_kv.T1.Codec.Laws.{clean_hash-embed_metadata}
use vmem_kv.T1.Index.{
  T1Index, PutResult, applied, append_region_full, result_of, get_with_hash, put,
  put_with_stored_hash,
}
use vmem_kv.T1.Index.Slots.{Other}
use vmem_kv.T1.Index.Lookup.{WellFormed, view, lookup-view}
use vmem_kv.T1.Index.Resolved.{NoSlot}
use vmem_kv.T1.Index.Put.{Written, put_with_stored_hash-Written}

-- The hash that put stores.
abbrev pub stored_hash : List ℕ → Bool → ℕ → ℕ
stored_hash key inlined inline_size =
    if inlined then embed_metadata (hash_full_key key) inline_size else hash_full_key key

clean_hash-hash_full_key : (key : List ℕ) → clean_hash (hash_full_key key) ≡ hash_full_key key
unfolding hash_full_key clean_hash
clean_hash-hash_full_key key = omega arith

clean_hash-stored_hash :
    (key : List ℕ) (inlined : Bool) (inline_size : ℕ)
    → clean_hash (stored_hash key inlined inline_size) ≡ hash_full_key key
clean_hash-stored_hash key true inline_size =
    clean_hash-embed_metadata (hash_full_key key) inline_size ∙ clean_hash-hash_full_key key
clean_hash-stored_hash key false inline_size = clean_hash-hash_full_key key

-- After a put of one key, and a get of another key whose prefix or hash differs.
pub record IsPut (append_cap : ℕ) (t1 : T1Index) (key : List ℕ) (value stored : ℕ) (other : List ℕ)
    (after : T1Index × PutResult) : Type 0 where
  pub well_formed : WellFormed after.0
  pub kept : get_with_hash after.0 other ≡ get_with_hash t1 other
  pub outcome :
      ((after.1 ≡ applied)
        × (get_with_hash after.0 key ≡ record { payload_bits = value; raw_hash = stored }))
      ⊎ ((after.1 ≡ append_region_full)
          × (after.0 ≡ t1)
          × (append_cap ≤ length t1.append_active.slots)
          × NoSlot t1 (prefix_from_bytes key) (clean_hash stored))

get-view :
    (t1 : T1Index) (key : List ℕ)
    → WellFormed t1
    → get_with_hash t1 key ≡ result_of (view t1 (prefix_from_bytes key) (hash_full_key key))
unfolding get_with_hash
get-view t1 key w = lookup-view t1 (prefix_from_bytes key) (hash_full_key key) w

IsPut-Written :
    (append_cap : ℕ) (t1 : T1Index) (key : List ℕ) (value stored : ℕ) (other : List ℕ)
    (after : T1Index × PutResult)
    → WellFormed t1
    → clean_hash stored ≡ hash_full_key key
    → Written append_cap t1
        (prefix_from_bytes key)
        stored
        value
        (prefix_from_bytes other)
        (hash_full_key other)
        after
    → IsPut append_cap t1 key value stored other after
IsPut-Written append_cap t1 key value stored other after w c r = record {
  well_formed = r.well_formed;
  kept = get-view after.0 other r.well_formed ∙ ap result_of r.other ∙ sym (get-view t1 other w);
  outcome = elim r.outcome [
    | inl (done, seen) ↦ inl (
      done,
      get-view after.0 key r.well_formed
          ∙ ap (λ h. result_of (view after.0 (prefix_from_bytes key) h)) (sym c)
          ∙ ap result_of seen,
    )
    | inr (full, same_state, cap, gone) ↦ inr (full, same_state, cap, gone)
  ];
}

-- put leaves a well formed index, and a get of a key with another prefix or another hash gives what
-- it gave before. Either the put is applied and a get of the key gives exactly the payload and the
-- stored hash, with its inline metadata; or nothing has changed, the active append region has reached
-- its capacity, and no region has a slot of the key that may be written in place: the active append
-- region has none, and the frozen append region has one, or the sorted region is frozen or has none.
pub put-get :
    (append_cap : ℕ) (t1 : T1Index) (key : List ℕ) (value : ℕ) (inlined : Bool) (inline_size : ℕ)
    (other : List ℕ)
    → WellFormed t1
    → Other
        (prefix_from_bytes other)
        (hash_full_key other)
        (prefix_from_bytes key)
        (hash_full_key key)
    → IsPut append_cap t1 key value
        (stored_hash key inlined inline_size)
        other
        (put append_cap t1 key value inlined inline_size)
unfolding put
put-get append_cap t1 key value inlined inline_size other w o =
    let stored = stored_hash key inlined inline_size in
    let clean = clean_hash-stored_hash key inlined inline_size in
    IsPut-Written append_cap t1 key value stored other
      (put append_cap t1 key value inlined inline_size) w clean
      (subst
        (λ h.
          Other (prefix_from_bytes other) (hash_full_key other) (prefix_from_bytes key) h
          → Written append_cap t1 (prefix_from_bytes key) stored value (prefix_from_bytes other)
              (hash_full_key other)
              (put_with_stored_hash append_cap t1 (prefix_from_bytes key) h stored value))
        clean
        (put_with_stored_hash-Written append_cap t1 (prefix_from_bytes key) stored value
          (prefix_from_bytes other) (hash_full_key other) w)
        o)
