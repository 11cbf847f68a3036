-- ===== src/T1/Index/Slots.antt =====
-- Writing a slot of a region: the identities stay, and only lookups of the written one change.
use vmem_kv.Prelude.{
  ℕ, ◌≡◌, ◌≢◌, refl, sym, ap, ◌∙◌, ◌⊎◌, true, false, Bool-cases, inl, inr, Option, none, some, List,
  [], ◌∷◌, All, if◌then◌else◌,
}
use vmem_kv.Bytes.Compare.{same}
use vmem_kv.Bytes.Compare.Laws.{flip}
use vmem_kv.T1.Codec.{clean_hash}
use vmem_kv.T1.Entry.{EntrySnapshot, answers}
use vmem_kv.T1.Entry.Order.{
  order, order-flip, order-same_left, answers-same, answers-key, order-of_identity,
}
use vmem_kv.T1.Merge.Plain.{Ascending, Below, find_entry, All-map}
use vmem_kv.T1.Merge.Sorting.{Apart, Distinct}
use vmem_kv.T1.Index.{store_slot}

order-same_right : (x a b : EntrySnapshot) → order a b ≡ same → order x a ≡ order x b
order-same_right x a b h = order-flip a x ∙ ap flip (order-same_left a b x h) ∙ sym (order-flip b x)

-- Another prefix, or another clean hash.
abbrev pub Other : List ℕ → ℕ → List ℕ → ℕ → Type 0
Other p h prefix hash = (p ≢ prefix) ⊎ (h ≢ hash)

pub answers-Other :
    (p : List ℕ) (h : ℕ) (prefix : List ℕ) (hash : ℕ) (e : EntrySnapshot)
    → Other p h prefix hash
    → answers prefix hash e ≡ true
    → answers p h e ≡ false
answers-Other p h prefix hash e o a = elim (Bool-cases (answers p h e)) [
  | inr n ↦ n
  | inl y ↦
      let (k, c) = answers-key prefix hash e a in
      let (k', c') = answers-key p h e y in
      absurd (elim o [ inl d ↦ d (sym k' ∙ k) | inr d ↦ d (sym c' ∙ c) ])
]

module _ (prefix : List ℕ) (hash stored_hash value : ℕ)
    (clean : clean_hash stored_hash ≡ hash) where
  abbrev pub written : EntrySnapshot → EntrySnapshot
  written s = record { key = s.key; payload_bits = value; hash = stored_hash }

  pub written-same : (s : EntrySnapshot) → answers prefix hash s ≡ true → order (written s) s ≡ same
  written-same s a =
      let (_, c) = answers-key prefix hash s a in
      order-of_identity (written s) s refl (clean ∙ sym c)

  store_slot-here :
      (s : EntrySnapshot) (ss : List EntrySnapshot)
      → answers prefix hash s ≡ true
      → store_slot prefix hash stored_hash value (s ∷ ss) ≡ written s ∷ ss
  unfolding store_slot
  store_slot-here s ss a = rw a refl

  store_slot-later :
      (s : EntrySnapshot) (ss : List EntrySnapshot)
      → answers prefix hash s ≡ false
      → store_slot prefix hash stored_hash value (s ∷ ss)
        ≡ s ∷ store_slot prefix hash stored_hash value ss
  unfolding store_slot
  store_slot-later s ss a = rw a refl

  pub All-store_slot {ℓ} :
      (P : EntrySnapshot → Type ℓ) (xs : List EntrySnapshot)
      → ((a b : EntrySnapshot) → order a b ≡ same → P b → P a)
      → All P xs
      → All P (store_slot prefix hash stored_hash value xs)
  unfolding store_slot
  All-store_slot P [] f h = tt
  All-store_slot P (s ∷ ss) f h = elim (Bool-cases (answers prefix hash s)) [
    | inl a ↦ rw (store_slot-here s ss a) (f (written s) s (written-same s a) h.0, h.1)
    | inr a ↦ rw (store_slot-later s ss a) (h.0, All-store_slot P ss f h.1)
  ]

  pub Ascending-store_slot :
      (xs : List EntrySnapshot)
      → Ascending xs
      → Ascending (store_slot prefix hash stored_hash value xs)
  unfolding store_slot
  Ascending-store_slot [] h = tt
  Ascending-store_slot (s ∷ ss) h = elim (Bool-cases (answers prefix hash s)) [
    | inl a ↦
        rw (store_slot-here s ss a)
          (All-map ss (λ b k. order-same_left (written s) s b (written-same s a) ∙ k) h.0, h.1)
    | inr a ↦ rw (store_slot-later s ss a) (
      All-store_slot (Below s) ss (λ x y e k. order-same_right s x y e ∙ k) h.0,
      Ascending-store_slot ss h.1,
    )
  ]

  pub Distinct-store_slot :
      (xs : List EntrySnapshot)
      → Distinct xs
      → Distinct (store_slot prefix hash stored_hash value xs)
  unfolding store_slot
  Distinct-store_slot [] h = tt
  Distinct-store_slot (s ∷ ss) h = elim (Bool-cases (answers prefix hash s)) [
    | inl a ↦ rw (store_slot-here s ss a) (
      All-map ss (λ b k e. k (sym (order-same_left (written s) s b (written-same s a)) ∙ e)) h.0,
      h.1,
    )
    | inr a ↦ rw (store_slot-later s ss a) (
      All-store_slot (Apart s) ss (λ x y e k t. k (sym (order-same_right s x y e) ∙ t)) h.0,
      Distinct-store_slot ss h.1,
    )
  ]

  -- The written slot is found, with what was written.
  pub find_entry-store_slot :
      (xs : List EntrySnapshot) (old : EntrySnapshot)
      → find_entry prefix hash xs ≡ some old
      → find_entry prefix hash (store_slot prefix hash stored_hash value xs) ≡ some (written old)
  unfolding find_entry store_slot
  find_entry-store_slot [] old f = cc
  find_entry-store_slot (s ∷ ss) old f = elim (Bool-cases (answers prefix hash s)) [
    | inl a ↦
        let e : some s ≡ some old = sym (rw a refl) ∙ f in
        ap (find_entry prefix hash) (store_slot-here s ss a)
        ∙ rw (answers-same prefix hash (written s) s (written-same s a), a) refl
        ∙ ap (map_written) e
    | inr a ↦
        ap (find_entry prefix hash) (store_slot-later s ss a)
        ∙ rw a (find_entry-store_slot ss old (sym (rw a refl) ∙ f))
  ]
    where
      map_written : Option EntrySnapshot → Option EntrySnapshot
      map_written none = none
      map_written (some x) = some (written x)

  pub find_entry-store_slot-Other :
      (p : List ℕ) (h : ℕ) (xs : List EntrySnapshot)
      → Other p h prefix hash
      → find_entry p h (store_slot prefix hash stored_hash value xs) ≡ find_entry p h xs
  unfolding find_entry store_slot
  find_entry-store_slot-Other p h [] o = refl
  find_entry-store_slot-Other p h (s ∷ ss) o = elim (Bool-cases (answers prefix hash s)) [
    | inl a ↦
        let no = answers-Other p h prefix hash s o a in
        ap (find_entry p h) (store_slot-here s ss a)
        ∙ rw (answers-same p h (written s) s (written-same s a), no) refl
    | inr a ↦
        ap (find_entry p h) (store_slot-later s ss a)
        ∙ ap (λ r. if answers p h s then some s else r) (find_entry-store_slot-Other p h ss o)
  ]
