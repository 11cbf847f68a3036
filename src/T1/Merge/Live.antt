-- ===== src/T1/Merge/Live.antt =====
-- The merge that passes over dead sorted slots is the merge of the live ones.
use vmem_kv.Prelude.{
  ℕ, zero, suc, ◌+◌, ◌≤◌, ◌≡◌, refl, sym, ap, ◌∙◌, true, false, Bool-cases, inl, inr, List, [], ◌∷◌,
  length, All, arith,
}
use vmem_kv.Bytes.Compare.{less, same, greater, is_same, is_less}
use vmem_kv.T1.Entry.{EntrySnapshot, is_live, entry_identity_equal, entry_less}
use vmem_kv.T1.Entry.Order.{order, entry_less-order, entry_identity_equal-order}
use vmem_kv.T1.Merge.{collect_live_entries, skip_dead, merge_loop, merge_entries}
use vmem_kv.T1.Merge.Plain.{
  Ascending, Below, plain, plain-same, plain-less, plain-greater, Sign-cases,
}

abbrev pub HeadLive : List EntrySnapshot → Type 0
HeadLive [] = Unit
HeadLive (s ∷ ss) = is_live s.payload_bits ≡ true

abbrev pub IsLive : EntrySnapshot → Type 0
IsLive e = is_live e.payload_bits ≡ true

HeadLive-skip_dead : (ss : List EntrySnapshot) → HeadLive (skip_dead ss)
unfolding skip_dead
HeadLive-skip_dead [] = tt
HeadLive-skip_dead (s ∷ ss) = elim (Bool-cases (is_live s.payload_bits)) [
  | inl e ↦ rw (skip_dead, e) e
  | inr e ↦ rw (skip_dead, e) (HeadLive-skip_dead ss)
]

collect_live_entries-live :
    (s : EntrySnapshot) (ss : List EntrySnapshot)
    → is_live s.payload_bits ≡ true
    → collect_live_entries (s ∷ ss) ≡ s ∷ collect_live_entries ss
unfolding collect_live_entries
collect_live_entries-live s ss e = rw e refl

collect_live_entries-dead :
    (s : EntrySnapshot) (ss : List EntrySnapshot)
    → is_live s.payload_bits ≡ false
    → collect_live_entries (s ∷ ss) ≡ collect_live_entries ss
unfolding collect_live_entries
collect_live_entries-dead s ss e = rw e refl

skip_dead-live :
    (s : EntrySnapshot) (ss : List EntrySnapshot)
    → is_live s.payload_bits ≡ true
    → skip_dead (s ∷ ss) ≡ s ∷ ss
unfolding skip_dead
skip_dead-live s ss e = ground arith

skip_dead-dead :
    (s : EntrySnapshot) (ss : List EntrySnapshot)
    → is_live s.payload_bits ≡ false
    → skip_dead (s ∷ ss) ≡ skip_dead ss
unfolding skip_dead
skip_dead-dead s ss e = ground arith

pub collect_live_entries-skip_dead :
    (ss : List EntrySnapshot) → collect_live_entries (skip_dead ss) ≡ collect_live_entries ss
unfolding collect_live_entries skip_dead
collect_live_entries-skip_dead [] = refl
collect_live_entries-skip_dead (s ∷ ss) = elim (Bool-cases (is_live s.payload_bits)) [
  | inl e ↦ ap collect_live_entries (skip_dead-live s ss e)
  | inr e ↦
      ap collect_live_entries (skip_dead-dead s ss e)
      ∙ collect_live_entries-skip_dead ss
      ∙ sym (collect_live_entries-dead s ss e)
]

pub length-collect_live_entries :
    (ss : List EntrySnapshot) → length (collect_live_entries ss) ≤ length ss
unfolding collect_live_entries
length-collect_live_entries [] = omega arith
length-collect_live_entries (s ∷ ss) = ground (arith, length-collect_live_entries ss)

pub All-collect_live_entries {ℓ} :
    (P : EntrySnapshot → Type ℓ) (ss : List EntrySnapshot)
    → All P ss
    → All P (collect_live_entries ss)
unfolding collect_live_entries
All-collect_live_entries P [] h = tt
All-collect_live_entries P (s ∷ ss) h = elim (Bool-cases (is_live s.payload_bits)) [
  | inl e ↦ rw (collect_live_entries, e) (h.0, All-collect_live_entries P ss h.1)
  | inr e ↦ rw (collect_live_entries, e) (All-collect_live_entries P ss h.1)
]

pub Ascending-collect_live_entries :
    (ss : List EntrySnapshot) → Ascending ss → Ascending (collect_live_entries ss)
unfolding collect_live_entries
Ascending-collect_live_entries [] h = tt
Ascending-collect_live_entries (s ∷ ss) h = elim (Bool-cases (is_live s.payload_bits)) [
  | inl e ↦
      rw (collect_live_entries, e)
        (All-collect_live_entries (Below s) ss h.0, Ascending-collect_live_entries ss h.1)
  | inr e ↦ rw (collect_live_entries, e) (Ascending-collect_live_entries ss h.1)
]

pub IsLive-collect_live_entries : (ss : List EntrySnapshot) → All IsLive (collect_live_entries ss)
unfolding collect_live_entries
IsLive-collect_live_entries [] = tt
IsLive-collect_live_entries (s ∷ ss) = elim (Bool-cases (is_live s.payload_bits)) [
  | inl e ↦ rw (collect_live_entries, e) (e, IsLive-collect_live_entries ss)
  | inr e ↦ rw (collect_live_entries, e) (IsLive-collect_live_entries ss)
]

module _ (fuel : ℕ) (s m : EntrySnapshot) (ss ms : List EntrySnapshot) where
  merge_loop-same :
      order s m ≡ same
      → merge_loop (suc fuel) (s ∷ ss) (m ∷ ms) ≡ m ∷ merge_loop fuel (skip_dead ss) ms
  unfolding merge_loop
  merge_loop-same e =
      let equal : entry_identity_equal s.key s.hash m.key m.hash ≡ true =
        entry_identity_equal-order s m ∙ ap is_same e in
      ground arith

  merge_loop-less :
      order s m ≡ less
      → merge_loop (suc fuel) (s ∷ ss) (m ∷ ms) ≡ s ∷ merge_loop fuel (skip_dead ss) (m ∷ ms)
  unfolding merge_loop
  merge_loop-less e =
      let equal : entry_identity_equal s.key s.hash m.key m.hash ≡ false =
        entry_identity_equal-order s m ∙ ap is_same e in
      let before : entry_less s.key s.hash m.key m.hash ≡ true =
        entry_less-order s m ∙ ap is_less e in
      ground arith

  merge_loop-greater :
      order s m ≡ greater
      → merge_loop (suc fuel) (s ∷ ss) (m ∷ ms) ≡ m ∷ merge_loop fuel (s ∷ ss) ms
  unfolding merge_loop
  merge_loop-greater e =
      let equal : entry_identity_equal s.key s.hash m.key m.hash ≡ false =
        entry_identity_equal-order s m ∙ ap is_same e in
      let before : entry_less s.key s.hash m.key m.hash ≡ false =
        entry_less-order s m ∙ ap is_less e in
      ground arith

pub merge_loop-plain :
    (fuel : ℕ) (ss ms : List EntrySnapshot)
    → HeadLive ss
    → merge_loop fuel ss ms ≡ plain fuel (collect_live_entries ss) ms
unfolding plain merge_loop collect_live_entries
merge_loop-plain zero ss ms h = refl
merge_loop-plain (suc fuel) [] [] h = refl
merge_loop-plain (suc fuel) [] (m ∷ ms) h = ap (λ r. m ∷ r) (merge_loop-plain fuel [] ms tt)
merge_loop-plain (suc fuel) (s ∷ ss) ms h =
    let rest : (l : List EntrySnapshot)
        → merge_loop fuel (skip_dead ss) l ≡ plain fuel (collect_live_entries ss) l =
      λ l.
        merge_loop-plain fuel (skip_dead ss) l (HeadLive-skip_dead ss)
        ∙ ap (λ k. plain fuel k l) (collect_live_entries-skip_dead ss) in
    let here = collect_live_entries-live s ss h in
    elim ms
      as (λ l.
        merge_loop (suc fuel) (s ∷ ss) l ≡ plain (suc fuel) (collect_live_entries (s ∷ ss)) l) [
          | [] ↦ ap (λ r. s ∷ r) (rest []) ∙ ap (λ k. plain (suc fuel) k []) (sym here)
          | m ∷ tail ↦
              elim (Sign-cases (order s m)) [
                | inl e ↦
                    merge_loop-same fuel s m ss tail e
                    ∙ ap (λ r. m ∷ r) (rest tail)
                    ∙ sym (plain-same fuel s m (collect_live_entries ss) tail e)
                | inr (inl e) ↦
                    merge_loop-less fuel s m ss tail e
                    ∙ ap (λ r. s ∷ r) (rest (m ∷ tail))
                    ∙ sym (plain-less fuel s m (collect_live_entries ss) tail e)
                | inr (inr e) ↦
                    merge_loop-greater fuel s m ss tail e
                    ∙ ap (λ r. m ∷ r) (merge_loop-plain fuel (s ∷ ss) tail h)
                    ∙ ap (λ k. m ∷ plain fuel k tail) here
                    ∙ sym (plain-greater fuel s m (collect_live_entries ss) tail e)
              ]
              ∙ ap (λ k. plain (suc fuel) k (m ∷ tail)) (sym here)
        ]

pub merge_entries-plain :
    (ss ms : List EntrySnapshot)
    → merge_entries ss ms ≡ plain (length ss + length ms) (collect_live_entries ss) ms
unfolding merge_entries
merge_entries-plain ss ms =
    merge_loop-plain (length ss + length ms) (skip_dead ss) ms (HeadLive-skip_dead ss)
    ∙ ap (λ k. plain (length ss + length ms) k ms) (collect_live_entries-skip_dead ss)
