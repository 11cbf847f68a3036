-- ===== src/Table/Found.antt =====
-- A published slot is found.
use vmem_kv.Prelude.{
  ℕ, zero, suc, ◌≡◌, ◌⊎◌, inl, inr, refl, sym, ap, ◌∙◌, true, false, Option, none, some, List, ◌==◌,
  ==_refl, ==_iff, Bool-cases, if_true, if_false,
}
use vmem_kv.Table.{Slot, Buckets, next_pos, holds, store_bucket, find_loop, Published, publish_loop}

pub store_bucket_here :
    (pos value : ℕ) (buckets : Buckets) → store_bucket pos value buckets pos ≡ value
unfolding store_bucket
store_bucket_here pos value buckets = rw (==_refl pos) refl

pub store_bucket_other :
    (pos value i : ℕ) (buckets : Buckets)
    → (i == pos) ≡ false
    → store_bucket pos value buckets i ≡ buckets i
unfolding store_bucket
store_bucket_other pos value i buckets e = rw e refl

-- From a position to a bucket, within some probes, over occupied buckets only.
pub data Chain (bucket_count : ℕ) (buckets : Buckets) (target : ℕ) : ℕ → ℕ → Type 0 where
  arrived : (left pos : ℕ) → pos ≡ target → Chain bucket_count buckets target (suc left) pos
  over :
      (left pos : ℕ)
      → (buckets pos == 0) ≡ false
      → Chain bucket_count buckets target left (next_pos bucket_count pos)
      → Chain bucket_count buckets target (suc left) pos

stored :
    {b : Buckets} {d : Option ℕ} {p : Published}
    → Path (Option Published) (some (record { buckets = b; displaced = d })) (some p)
    → b ≡ p.buckets
stored e = cc

module _ (bucket_count : ℕ) (slot_at : ℕ → Slot) (key : List ℕ) (hash : ℕ) where
  -- Where a publication stores, and what it finds there.
  pub record Placed (probes pos : ℕ) (buckets : Buckets) (slot_plus_one : ℕ) (after : Buckets)
      : Type 0 where
    pub at : ℕ
    pub path : Chain bucket_count buckets at probes pos
    pub free : (buckets at ≡ 0) ⊎ (holds slot_at key hash (buckets at) ≡ true)
    pub stored : after ≡ store_bucket at slot_plus_one buckets

  module _ (probes : ℕ) (buckets : Buckets) (pos : ℕ) where
    pub find_loop-empty :
        (buckets pos == 0) ≡ true
        → find_loop bucket_count slot_at key hash (suc probes) buckets pos ≡ 0
    unfolding find_loop
    find_loop-empty e = rw e refl

    pub find_loop-holds :
        (buckets pos == 0) ≡ false
        → holds slot_at key hash (buckets pos) ≡ true
        → find_loop bucket_count slot_at key hash (suc probes) buckets pos ≡ buckets pos
    unfolding find_loop
    find_loop-holds e h = rw (e, h) refl

    pub find_loop-next :
        (buckets pos == 0) ≡ false
        → holds slot_at key hash (buckets pos) ≡ false
        → find_loop bucket_count slot_at key hash (suc probes) buckets pos
          ≡ find_loop bucket_count slot_at key hash probes buckets (next_pos bucket_count pos)
    unfolding find_loop
    find_loop-next e h = rw (e, h) refl

    pub publish_loop-next :
        (slot : ℕ)
        → (buckets pos == 0) ≡ false
        → holds slot_at key hash (buckets pos) ≡ false
        → publish_loop bucket_count slot_at key hash (suc probes) buckets slot pos
          ≡ publish_loop bucket_count slot_at key hash probes buckets slot
              (next_pos bucket_count pos)
    unfolding publish_loop
    publish_loop-next slot e h = rw (e, h) refl

    publish_loop-empty :
        (slot : ℕ) (p : Published)
        → (buckets pos == 0) ≡ true
        → publish_loop bucket_count slot_at key hash (suc probes) buckets slot pos ≡ some p
        → p.buckets ≡ store_bucket pos slot buckets
    unfolding publish_loop
    publish_loop-empty slot p e f = sym (stored (if_true (buckets pos == 0) _ _ e f))

    publish_loop-holds :
        (slot : ℕ) (p : Published)
        → (buckets pos == 0) ≡ false
        → holds slot_at key hash (buckets pos) ≡ true
        → publish_loop bucket_count slot_at key hash (suc probes) buckets slot pos ≡ some p
        → p.buckets ≡ store_bucket pos slot buckets
    unfolding publish_loop
    publish_loop-holds slot p e h f = sym (
        stored (
          if_true (holds slot_at key hash (buckets pos)) _ _ h
            (if_false (buckets pos == 0) _ _ e f)))

  pub find_loop-zero :
      (buckets : Buckets) (pos : ℕ) → find_loop bucket_count slot_at key hash 0 buckets pos ≡ 0
  unfolding find_loop
  find_loop-zero buckets pos = refl

  publish_loop-zero :
      (buckets : Buckets) (slot pos : ℕ)
      → publish_loop bucket_count slot_at key hash 0 buckets slot pos ≡ none
  unfolding publish_loop
  publish_loop-zero buckets slot pos = refl

  -- A publication stores in one bucket, that was free or held the key.
  pub publish_loop-Placed :
      (probes : ℕ) (buckets : Buckets) (slot pos : ℕ) (p : Published)
      → publish_loop bucket_count slot_at key hash probes buckets slot pos ≡ some p
      → Placed probes pos buckets slot p.buckets
  publish_loop-Placed zero buckets slot pos p e =
      absurd (cc (sym (publish_loop-zero buckets slot pos) ∙ e))
  publish_loop-Placed (suc probes) buckets slot pos p e = elim (Bool-cases (buckets pos == 0)) [
    | inl z ↦ record {
      at = pos;
      path = arrived probes pos refl;
      free = inl ((==_iff (buckets pos) 0).0 z);
      stored = publish_loop-empty probes buckets pos slot p z e;
    }
    | inr z ↦ elim (Bool-cases (holds slot_at key hash (buckets pos))) [
      | inl h ↦ record {
        at = pos;
        path = arrived probes pos refl;
        free = inr h;
        stored = publish_loop-holds probes buckets pos slot p z h e;
      }
      | inr h ↦
          let rest =
            publish_loop-Placed probes buckets slot (next_pos bucket_count pos) p
              (sym (publish_loop-next probes buckets pos slot z h) ∙ e) in
          record {
            at = rest.at;
            path = over probes pos z rest.path;
            free = rest.free;
            stored = rest.stored;
          }
    ]
  ]

  -- An occupied bucket of another key is not where the publication stores.
  kept :
      (probes start : ℕ) (buckets : Buckets) (slot : ℕ) (after : Buckets) (pos : ℕ)
      → Placed probes start buckets slot after
      → (buckets pos == 0) ≡ false
      → holds slot_at key hash (buckets pos) ≡ false
      → after pos ≡ buckets pos
  kept probes start buckets slot after pos placed z h = elim (Bool-cases (pos == placed.at)) [
    | inl same ↦
        let there : pos ≡ placed.at = (==_iff pos placed.at).0 same in
        elim placed.free [
          | inl free ↦
              let empty : buckets pos ≡ 0 = ap buckets there ∙ free in
              absurd (cc (sym ((==_iff (buckets pos) 0).1 empty) ∙ z))
          | inr held ↦
              absurd (cc (sym (ap (λ i. holds slot_at key hash (buckets i)) there ∙ held) ∙ h))
        ]
    | inr other ↦
        ap (λ b. b pos) placed.stored ∙ store_bucket_other placed.at slot pos buckets other
  ]

  pub found_loop :
      (probes : ℕ) (buckets : Buckets) (slot pos : ℕ) (p : Published)
      → (slot == 0) ≡ false
      → holds slot_at key hash slot ≡ true
      → publish_loop bucket_count slot_at key hash probes buckets slot pos ≡ some p
      → find_loop bucket_count slot_at key hash probes p.buckets pos ≡ slot
  found_loop zero buckets slot pos p n m e =
      absurd (cc (sym (publish_loop-zero buckets slot pos) ∙ e))
  found_loop (suc probes) buckets slot pos p n m e =
      let here : p.buckets ≡ store_bucket pos slot buckets
          → find_loop bucket_count slot_at key hash (suc probes) p.buckets pos ≡ slot =
        λ stored.
          let now : p.buckets pos ≡ slot =
            ap (λ b. b pos) stored ∙ store_bucket_here pos slot buckets in
          find_loop-holds probes p.buckets pos (rw now n) (rw now m) ∙ now in
      elim (Bool-cases (buckets pos == 0)) [
        | inl z ↦ here (publish_loop-empty probes buckets pos slot p z e)
        | inr z ↦ elim (Bool-cases (holds slot_at key hash (buckets pos))) [
          | inl h ↦ here (publish_loop-holds probes buckets pos slot p z h e)
          | inr h ↦
              let later = sym (publish_loop-next probes buckets pos slot z h) ∙ e in
              let same =
                kept probes (next_pos bucket_count pos) buckets slot p.buckets pos
                  (publish_loop-Placed probes buckets slot (next_pos bucket_count pos) p later) z
                  h in
              find_loop-next probes p.buckets pos (rw same z) (rw same h)
              ∙ found_loop probes buckets slot (next_pos bucket_count pos) p n m later
        ]
      ]
