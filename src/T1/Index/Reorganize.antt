-- ===== src/T1/Index/Reorganize.antt =====
-- T1Index::reorganize keeps what lookups see.
use mathlib.Core.Path.{ap₂}
use vmem_kv.Prelude.{
  ℕ, ◌≡◌, refl, sym, ap, ◌∙◌, ◌⊎◌, true, false, Bool-cases, inl, inr, Option, none, some, List, [],
  ◌∷◌, All, arith, if◌then◌else◌, length,
}
use vmem_kv.T1.Codec.{clean_hash, store_not_found}
use vmem_kv.T1.Entry.{EntrySnapshot, answers, is_live}
use vmem_kv.T1.Entry.Order.{answers-both}
use vmem_kv.T1.Bloom.{BloomFilter, maybe_contains, reset, add}
use vmem_kv.T1.Bloom.Size.{IsSized, IsSized-reset}
use vmem_kv.T1.Bloom.Laws.{IsSized-add, add-maybe_contains, contains-add}
use vmem_kv.T1.Merge.{rebuild, collect_live_entries}
use vmem_kv.T1.Merge.Plain.{Ascending, find_entry, or_else, All-map}
use vmem_kv.T1.Merge.Live.{All-collect_live_entries}
use vmem_kv.T1.Merge.Sorting.{Apart, Distinct}
use vmem_kv.T1.Merge.Rebuild.{rebuild-lookup}
use vmem_kv.T1.Index.{
  T1Index, sorted_region_of, add_entries, freeze_append, freeze_sorted, publish_merged,
  frozen_slots,
}
use vmem_kv.T1.Index.Find.{Covers}
use vmem_kv.T1.Index.Lookup.{WellFormed, view}

-- The payload that a lookup returns.
abbrev pub payload_of : Option EntrySnapshot → ℕ
payload_of none = store_not_found
payload_of (some e) = e.payload_bits

-- The filter of a new sorted region has seen all its entries.
add_entries-kept :
    (es : List EntrySnapshot) (bloom : BloomFilter) (g : ℕ)
    → IsSized bloom
    → maybe_contains bloom g ≡ true
    → maybe_contains (add_entries es bloom) g ≡ true
unfolding add_entries
add_entries-kept [] bloom g s h = h
add_entries-kept (e ∷ es) bloom g s h =
    add_entries-kept es (add (clean_hash e.hash) bloom) g (IsSized-add (clean_hash e.hash) bloom s)
      ((add-maybe_contains (clean_hash e.hash) bloom g s h).1)

add_entries-Covers :
    (es : List EntrySnapshot) (bloom : BloomFilter)
    → IsSized bloom
    → All (Covers (add_entries es bloom)) es
unfolding add_entries
add_entries-Covers [] bloom s = tt
add_entries-Covers (e ∷ es) bloom s =
    let next = add (clean_hash e.hash) bloom in
    let sized = IsSized-add (clean_hash e.hash) bloom s in
    (
      add_entries-kept es next (clean_hash e.hash) sized (contains-add (clean_hash e.hash) bloom s),
      add_entries-Covers es next sized,
    )

pub sorted_region_of-Covers :
    (es : List EntrySnapshot) → All (Covers ((sorted_region_of es).bloom)) es
unfolding sorted_region_of
sorted_region_of-Covers es = add_entries-Covers es (reset (length es)) (IsSized-reset (length es))

pub Distinct-Ascending : (xs : List EntrySnapshot) → Ascending xs → Distinct xs
Distinct-Ascending [] h = tt
Distinct-Ascending (x ∷ xs) h = (All-map xs (λ b k e. cc (k, e)) h.0, Distinct-Ascending xs h.1)

Distinct-collect_live_entries :
    (xs : List EntrySnapshot) → Distinct xs → Distinct (collect_live_entries xs)
unfolding collect_live_entries
Distinct-collect_live_entries [] h = tt
Distinct-collect_live_entries (x ∷ xs) h = elim (Bool-cases (is_live x.payload_bits)) [
  | inl e ↦
      rw (collect_live_entries, e)
        (All-collect_live_entries (Apart x) xs h.0, Distinct-collect_live_entries xs h.1)
  | inr e ↦ rw (collect_live_entries, e) (Distinct-collect_live_entries xs h.1)
]

find_entry-Apart :
    (p : List ℕ) (h : ℕ) (a : EntrySnapshot) (xs : List EntrySnapshot)
    → answers p h a ≡ true
    → All (Apart a) xs
    → find_entry p h xs ≡ none
unfolding find_entry
find_entry-Apart p h a [] y n = refl
find_entry-Apart p h a (x ∷ xs) y n = elim (Bool-cases (answers p h x)) [
  | inl e ↦ absurd (n.0 (answers-both p h a x y e))
  | inr e ↦ rw e (find_entry-Apart p h a xs y n.1)
]

-- Dropping the dead entries drops exactly the dead answers.
abbrev pub live_only : Option EntrySnapshot → Option EntrySnapshot
live_only none = none
live_only (some e) = if is_live e.payload_bits then some e else none

find_entry-collect_live_entries :
    (p : List ℕ) (h : ℕ) (xs : List EntrySnapshot)
    → Distinct xs
    → find_entry p h (collect_live_entries xs) ≡ live_only (find_entry p h xs)
unfolding find_entry collect_live_entries
find_entry-collect_live_entries p h [] d = refl
find_entry-collect_live_entries p h (x ∷ xs) d =
    let ih = find_entry-collect_live_entries p h xs d.1 in
    elim (Bool-cases (answers p h x)) [
      | inl a ↦ elim (Bool-cases (is_live x.payload_bits)) [
        | inl l ↦ rw (l, a, l) refl
        | inr l ↦ rw (l, a, l) (ih ∙ ap live_only (find_entry-Apart p h x xs a d.0))
      ]
      | inr a ↦ elim (Bool-cases (is_live x.payload_bits)) [
        | inl l ↦ rw (l, a) ih
        | inr l ↦ rw (l, a) ih
      ]
    ]

-- What a lookup sees after the merged region is published.
module _ (t1 : T1Index) (w : WellFormed t1) where
  abbrev pub merged : List EntrySnapshot
  merged = rebuild t1.sorted_region.slots (frozen_slots t1.append_immutable)

  abbrev pub after : T1Index
  after = publish_merged (λ entries. entries) t1

  pub rebuilt :
      (p : List ℕ) (h : ℕ)
      → Ascending merged
        × (find_entry p h merged
            ≡ or_else
                (live_only (find_entry p h (frozen_slots t1.append_immutable)))
                (live_only (find_entry p h t1.sorted_region.slots)))
  rebuilt p h =
      let old = t1.sorted_region.slots in
      let imm = frozen_slots t1.append_immutable in
      let (up, _, found) =
        rebuild-lookup old imm p h w.ascending (Distinct-collect_live_entries imm w.immutable) in
      (
        up,
        found
            ∙ ap₂ or_else (find_entry-collect_live_entries p h imm w.immutable)
                (find_entry-collect_live_entries p h old (Distinct-Ascending old w.ascending)),
      )

  pub publish_merged-WellFormed : WellFormed after
  unfolding publish_merged sorted_region_of
  publish_merged-WellFormed = record {
    ascending = (rebuilt [] 0).0;
    covered = sorted_region_of-Covers merged;
    active = w.active;
    immutable = tt;
  }

  pub publish_merged-view :
      (p : List ℕ) (h : ℕ)
      → view after p h
        ≡ or_else (find_entry p h t1.append_active.slots) (
            or_else
              (live_only (find_entry p h (frozen_slots t1.append_immutable)))
              (live_only (find_entry p h t1.sorted_region.slots)))
  unfolding publish_merged sorted_region_of find_entry
  publish_merged-view p h = ap (or_else (find_entry p h t1.append_active.slots)) ((rebuilt p h).1)

-- No tombstone of the frozen append region hides a live entry of the sorted region.
abbrev pub Unshadowed : T1Index → List ℕ → ℕ → Type 0
Unshadowed t1 p h =
    (find_entry p h (frozen_slots t1.append_immutable) ≡ none)
    ⊎ (is_live (payload_of (find_entry p h (frozen_slots t1.append_immutable))) ≡ true)
    ⊎ (is_live (payload_of (find_entry p h t1.sorted_region.slots)) ≡ false)

dead-payload : (v : ℕ) → is_live v ≡ false → v ≡ store_not_found
dead-payload v h = ground arith

payload_of-live_only : (o : Option EntrySnapshot) → payload_of (live_only o) ≡ payload_of o
payload_of-live_only none = refl
payload_of-live_only (some e) = elim (Bool-cases (is_live e.payload_bits)) [
  | inl l ↦ rw l refl
  | inr l ↦ rw l (sym (dead-payload e.payload_bits l))
]

payload_of-or_else :
    (a b c : Option EntrySnapshot)
    → (b ≡ none) ⊎ (is_live (payload_of b) ≡ true) ⊎ (is_live (payload_of c) ≡ false)
    → payload_of (or_else a (or_else (live_only b) (live_only c)))
      ≡ payload_of (or_else a (or_else b c))
payload_of-or_else (some x) b c h = refl
payload_of-or_else none none c h = payload_of-live_only c
payload_of-or_else none (some e) c (inl h) = cc
payload_of-or_else none (some e) c (inr (inl h)) = rw h refl
payload_of-or_else none (some e) c (inr (inr h)) = elim (Bool-cases (is_live e.payload_bits)) [
  | inl l ↦ rw l refl
  | inr l ↦
      rw l (
        payload_of-live_only c
        ∙ dead-payload (payload_of c) h
        ∙ sym (dead-payload e.payload_bits l))
]

-- Publishing the merge of the frozen append region and the sorted region leaves a well formed index,
-- and the payload that a lookup returns stays what it was, where no tombstone of the frozen region
-- hides a live sorted entry of that identity. The caller maps no payload.
pub publish_merged-payload :
    (t1 : T1Index) (p : List ℕ) (h : ℕ)
    → WellFormed t1
    → Unshadowed t1 p h
    → WellFormed (publish_merged (λ entries. entries) t1)
      × (payload_of (view (publish_merged (λ entries. entries) t1) p h) ≡ payload_of (view t1 p h))
publish_merged-payload t1 p h w u = (
  publish_merged-WellFormed t1 w,
  ap payload_of (publish_merged-view t1 w p h)
      ∙ payload_of-or_else (find_entry p h t1.append_active.slots)
          (find_entry p h (frozen_slots t1.append_immutable))
          (find_entry p h t1.sorted_region.slots) u,
)

pub freeze-view :
    (t1 : T1Index) (p : List ℕ) (h : ℕ)
    → t1.append_immutable ≡ none
    → view (freeze_sorted (freeze_append t1)) p h ≡ view t1 p h
unfolding freeze_sorted freeze_append find_entry
freeze-view t1 p h e =
    ap
      (λ i.
        or_else (find_entry p h t1.append_active.slots)
          (or_else (find_entry p h (frozen_slots i)) (find_entry p h t1.sorted_region.slots)))
      (sym e)

pub freeze-WellFormed :
    (t1 : T1Index) → WellFormed t1 → WellFormed (freeze_sorted (freeze_append t1))
unfolding freeze_sorted freeze_append
freeze-WellFormed t1 w = record {
  ascending = w.ascending;
  covered = w.covered;
  active = tt;
  immutable = w.active;
}
