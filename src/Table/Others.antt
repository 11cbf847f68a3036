-- ===== src/Table/Others.antt =====
-- A publication leaves the lookups of other keys, in a table whose slots can all be reached.
use vmem_kv.Prelude.{
  ℕ, zero, suc, ◌≡◌, ◌⊎◌, inl, inr, refl, sym, ap, ◌∙◌, true, false, List, ◌==◌, ==_iff, Bool-cases,
}
use vmem_kv.Table.{Slot, Buckets, next_pos, holds, store_bucket, find_loop}
use vmem_kv.Table.Found.{
  Chain, arrived, over, store_bucket_here, store_bucket_other, find_loop-empty, find_loop-holds,
  find_loop-next, find_loop-zero,
}

module _ (bucket_count : ℕ) (slot_at : ℕ → Slot) (key : List ℕ) (hash : ℕ) where
  -- Every bucket with this key can be reached from a position.
  abbrev pub Reachable : Buckets → ℕ → ℕ → Type 0
  Reachable buckets probes pos =
      (q : ℕ)
      → (buckets q == 0) ≡ false
      → holds slot_at key hash (buckets q) ≡ true
      → Chain bucket_count buckets q probes pos

  abbrev Absent : Buckets → Type 0
  Absent buckets = (q : ℕ) → (buckets q == 0) ≡ false → holds slot_at key hash (buckets q) ≡ false

  find_loop-Absent :
      (buckets : Buckets) (probes pos : ℕ)
      → Absent buckets
      → find_loop bucket_count slot_at key hash probes buckets pos ≡ 0
  find_loop-Absent buckets zero pos h = find_loop-zero bucket_count slot_at key hash buckets pos
  find_loop-Absent buckets (suc probes) pos h = elim (Bool-cases (buckets pos == 0)) [
    | inl z ↦ find_loop-empty bucket_count slot_at key hash probes buckets pos z
    | inr z ↦
        find_loop-next bucket_count slot_at key hash probes buckets pos z (h pos z)
        ∙ find_loop-Absent buckets probes (next_pos bucket_count pos) h
  ]

  Chain-free :
      (buckets : Buckets) (probes pos q : ℕ)
      → Chain bucket_count buckets q probes pos
      → (buckets pos == 0) ≡ true
      → (buckets q == 0) ≡ false
      → holds slot_at key hash (buckets q) ≡ false
  Chain-free buckets zero pos q c z n = elim c [ ]
  Chain-free buckets (suc probes) pos q (arrived left at same) z n =
      absurd (cc (sym z ∙ ap (λ i. buckets i == 0) same ∙ n))
  Chain-free buckets (suc probes) pos q (over left at busy rest) z n = absurd (cc (sym z ∙ busy))

  -- At a free bucket the key can only be absent.
  free-Absent :
      (buckets : Buckets) (probes pos : ℕ)
      → Reachable buckets probes pos
      → (buckets pos == 0) ≡ true
      → Absent buckets
  free-Absent buckets probes pos reach z q n =
      elim (Bool-cases (holds slot_at key hash (buckets q))) [
        | inr h ↦ h
        | inl h ↦ Chain-free buckets probes pos q (reach q n h) z n
      ]

  Chain-next :
      (buckets : Buckets) (left pos q : ℕ)
      → holds slot_at key hash (buckets pos) ≡ false
      → holds slot_at key hash (buckets q) ≡ true
      → Chain bucket_count buckets q (suc left) pos
      → Chain bucket_count buckets q left (next_pos bucket_count pos)
  Chain-next buckets left pos q h k (arrived m at same) =
      absurd (cc (sym h ∙ ap (λ i. holds slot_at key hash (buckets i)) same ∙ k))
  Chain-next buckets left pos q h k (over m at busy rest) = rest

  -- A bucket that was free, or held another key, takes a slot of another key.
  module _ (buckets : Buckets) (at slot : ℕ) (foreign : holds slot_at key hash slot ≡ false) where
    abbrev pub after : Buckets
    after = store_bucket at slot buckets

    Absent-store_bucket : Absent buckets → Absent after
    Absent-store_bucket h q n = elim (Bool-cases (q == at)) [
      | inl e ↦
          let same : after q ≡ slot =
            ap after ((==_iff q at).0 e) ∙ store_bucket_here at slot buckets in
          rw same foreign
      | inr e ↦
          let same = store_bucket_other at slot q buckets e in
          rw same (h q (sym (rw same refl) ∙ n))
    ]

    pub find_loop-store_bucket :
        (probes pos : ℕ)
        → (buckets at ≡ 0) ⊎ (holds slot_at key hash (buckets at) ≡ false)
        → (slot == 0) ≡ false
        → Reachable buckets probes pos
        → find_loop bucket_count slot_at key hash probes after pos
          ≡ find_loop bucket_count slot_at key hash probes buckets pos
    find_loop-store_bucket zero pos was n reach =
        find_loop-zero bucket_count slot_at key hash after pos
        ∙ sym (find_loop-zero bucket_count slot_at key hash buckets pos)
    find_loop-store_bucket (suc probes) pos was n reach = elim (Bool-cases (buckets pos == 0)) [
      | inl z ↦
          let absent = free-Absent buckets (suc probes) pos reach z in
          find_loop-Absent after (suc probes) pos (Absent-store_bucket absent)
          ∙ sym (find_loop-empty bucket_count slot_at key hash probes buckets pos z)
      | inr z ↦ elim (Bool-cases (pos == at)) [
        | inl e ↦
            let there : pos ≡ at = (==_iff pos at).0 e in
            let now : after pos ≡ slot = ap after there ∙ store_bucket_here at slot buckets in
            let held : holds slot_at key hash (buckets pos) ≡ false = elim was [
              | inl free ↦
                  let empty : buckets pos ≡ 0 = ap buckets there ∙ free in
                  absurd (cc (sym ((==_iff (buckets pos) 0).1 empty) ∙ z))
              | inr other ↦ ap (λ i. holds slot_at key hash (buckets i)) there ∙ other
            ] in
            find_loop-next bucket_count slot_at key hash probes after pos (rw now n)
              (rw now foreign)
            ∙ find_loop-store_bucket probes (next_pos bucket_count pos) was n
                (λ q m k. Chain-next buckets probes pos q held k (reach q m k))
            ∙ sym (find_loop-next bucket_count slot_at key hash probes buckets pos z held)
        | inr e ↦
            let same = store_bucket_other at slot pos buckets e in
            elim (Bool-cases (holds slot_at key hash (buckets pos))) [
              | inl h ↦
                  find_loop-holds bucket_count slot_at key hash probes after pos (rw same z)
                    (rw same h)
                  ∙ same
                  ∙ sym (find_loop-holds bucket_count slot_at key hash probes buckets pos z h)
              | inr h ↦
                  find_loop-next bucket_count slot_at key hash probes after pos (rw same z)
                    (rw same h)
                  ∙ find_loop-store_bucket probes (next_pos bucket_count pos) was n
                      (λ q m k. Chain-next buckets probes pos q h k (reach q m k))
                  ∙ sym (find_loop-next bucket_count slot_at key hash probes buckets pos z h)
            ]
      ]
    ]
