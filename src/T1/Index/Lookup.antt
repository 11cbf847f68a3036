-- ===== src/T1/Index/Lookup.antt =====
-- A write to the index is an update of the map that lookups see.
use mathlib.Core.Path.{ap₂}
use vmem_kv.Prelude.{
  ℕ, ◌≡◌, refl, sym, ◌∙◌, true, Bool-cases, inl, inr, Option, none, some, List, [], ◌∷◌, ◌++◌, All,
  if◌then◌else◌,
}
use vmem_kv.T1.Entry.{EntrySnapshot, answers}
use vmem_kv.T1.Entry.Order.{answers-same}
use vmem_kv.T1.Merge.Plain.{Ascending, find_entry, or_else}
use vmem_kv.T1.Merge.Sorting.{Apart, Distinct}
use vmem_kv.T1.Index.{
  T1Index, AppendRegion, lookup_by_prefix_hash, find_immutable, find_with_index, find_sorted,
  result_of, frozen_slots,
}
use vmem_kv.T1.Index.Find.{Covers, find_with_index-find_entry, find_sorted-find_entry}

-- The sorted region ascends, its filter has seen all of it, and an append region has no identity
-- twice.
pub record WellFormed (t1 : T1Index) : Type 0 where
  pub ascending : Ascending t1.sorted_region.slots
  pub covered : All (Covers t1.sorted_region.bloom) t1.sorted_region.slots
  pub active : Distinct t1.append_active.slots
  pub immutable : Distinct (frozen_slots t1.append_immutable)

-- The entry that a lookup finds: the newest region first.
abbrev pub view : T1Index → List ℕ → ℕ → Option EntrySnapshot
view t1 p h = or_else (find_entry p h t1.append_active.slots) (
    or_else (find_entry p h (frozen_slots t1.append_immutable))
      (find_entry p h t1.sorted_region.slots))

pub immutable-find_entry :
    (imm : Option AppendRegion) (p : List ℕ) (h : ℕ)
    → find_immutable imm p h ≡ find_entry p h (frozen_slots imm)
unfolding find_entry
immutable-find_entry none p h = refl
immutable-find_entry (some region) p h = find_with_index-find_entry p h region.slots

pub lookup-view :
    (t1 : T1Index) (p : List ℕ) (h : ℕ)
    → WellFormed t1
    → lookup_by_prefix_hash t1 p h ≡ result_of (view t1 p h)
unfolding lookup_by_prefix_hash
lookup-view t1 p h w =
    let e1 = find_with_index-find_entry p h t1.append_active.slots in
    let e2 = immutable-find_entry t1.append_immutable p h in
    let e3 = find_sorted-find_entry t1.sorted_region p h w.ascending w.covered in
    by_regions (find_with_index p h t1.append_active.slots) (find_immutable t1.append_immutable p h)
      (find_sorted t1.sorted_region p h)
    ∙ ap₂ (λ a r. result_of (or_else a r)) e1 (ap₂ or_else e2 e3)
  where
    by_regions :
        (a b c : Option EntrySnapshot)
        → elim a [
          | some slot ↦ result_of (some slot)
          | none ↦ elim b [ some slot ↦ result_of (some slot) | none ↦ result_of c ]
        ]
          ≡ result_of (or_else a (or_else b c))
    by_regions (some x) b c = refl
    by_regions none (some x) c = refl
    by_regions none none c = refl

pub find_entry-append :
    (p : List ℕ) (h : ℕ) (xs : List EntrySnapshot) (e : EntrySnapshot)
    → find_entry p h (xs ++ e ∷ [])
      ≡ or_else (find_entry p h xs) (if answers p h e then some e else none)
unfolding find_entry
find_entry-append p h [] e = refl
find_entry-append p h (x ∷ xs) e = elim (Bool-cases (answers p h x)) [
  | inl a ↦ rw a refl
  | inr a ↦ rw a (find_entry-append p h xs e)
]

-- Nothing answers, so an entry of that identity is new.
pub Apart-missing :
    (p : List ℕ) (h : ℕ) (e : EntrySnapshot) (xs : List EntrySnapshot)
    → answers p h e ≡ true
    → find_entry p h xs ≡ none
    → All (λ x. Apart x e) xs
unfolding find_entry
Apart-missing p h e [] a n = tt
Apart-missing p h e (x ∷ xs) a n = elim (Bool-cases (answers p h x)) [
  | inl b ↦ let m : some x ≡ none = sym (rw b refl) ∙ n in absurd (cc m)
  | inr b ↦ (λ s. cc (answers-same p h x e s, a, b), Apart-missing p h e xs a (sym (rw b refl) ∙ n))
]

pub Distinct-append :
    (xs : List EntrySnapshot) (e : EntrySnapshot)
    → Distinct xs
    → All (λ x. Apart x e) xs
    → Distinct (xs ++ e ∷ [])
Distinct-append [] e d n = (tt, tt)
Distinct-append (x ∷ xs) e d n = (All-append xs d.0 n.0, Distinct-append xs e d.1 n.1)
  where
    All-append :
        (ys : List EntrySnapshot) → All (Apart x) ys → Apart x e → All (Apart x) (ys ++ e ∷ [])
    All-append [] h k = (k, tt)
    All-append (y ∷ ys) h k = (h.0, All-append ys h.1 k)
