-- ===== src/T1/Index/Resolved.antt =====
-- What T1Index::resolve finds out.
use vmem_kv.Prelude.{ℕ, ◌≡◌, refl, sym, Bool, true, false, Option, none, some, List, if◌then◌else◌}
use vmem_kv.T1.Entry.{EntrySnapshot}
use vmem_kv.T1.Merge.Plain.{find_entry}
use vmem_kv.T1.Index.{
  T1Index, ResolvedSlot, find_immutable, find_with_index, find_sorted, resolve, frozen_slots,
  append, sorted, absent,
}
use vmem_kv.T1.Index.Find.{find_with_index-find_entry, find_sorted-find_entry}
use vmem_kv.T1.Index.Lookup.{WellFormed, immutable-find_entry}

-- No region has a slot that a put may write: the active append region has none, and the frozen
-- append region hides the sorted one, or that one is frozen or has none.
pub data NoSlot (t1 : T1Index) (p : List ℕ) (h : ℕ) : Type 0 where
  hidden :
      (old : EntrySnapshot)
      → find_entry p h t1.append_active.slots ≡ none
      → find_entry p h (frozen_slots t1.append_immutable) ≡ some old
      → NoSlot t1 p h
  write_frozen :
      find_entry p h t1.append_active.slots ≡ none → t1.sorted_write_frozen ≡ true → NoSlot t1 p h
  missing :
      find_entry p h t1.append_active.slots ≡ none
      → find_entry p h t1.sorted_region.slots ≡ none
      → NoSlot t1 p h

-- What resolve has found out.
pub data Resolved (t1 : T1Index) (p : List ℕ) (h : ℕ) : ResolvedSlot → Type 0 where
  in_active :
      (old : EntrySnapshot)
      → find_entry p h t1.append_active.slots ≡ some old
      → Resolved t1 p h append
  in_sorted :
      (old : EntrySnapshot)
      → find_entry p h t1.append_active.slots ≡ none
      → find_entry p h (frozen_slots t1.append_immutable) ≡ none
      → find_entry p h t1.sorted_region.slots ≡ some old
      → Resolved t1 p h sorted
  nowhere : find_entry p h t1.append_active.slots ≡ none → NoSlot t1 p h → Resolved t1 p h absent

pub resolved :
    (t1 : T1Index) (p : List ℕ) (h : ℕ) → WellFormed t1 → Resolved t1 p h (resolve t1 p h)
unfolding resolve
resolved t1 p h w =
    go (find_with_index p h t1.append_active.slots) (find_immutable t1.append_immutable p h)
      (find_sorted t1.sorted_region p h) t1.sorted_write_frozen refl
      (sym (find_with_index-find_entry p h t1.append_active.slots))
      (sym (immutable-find_entry t1.append_immutable p h))
      (sym (find_sorted-find_entry t1.sorted_region p h w.ascending w.covered))
  where
    go :
        (a b c : Option EntrySnapshot) (frozen : Bool)
        → t1.sorted_write_frozen ≡ frozen
        → find_entry p h t1.append_active.slots ≡ a
        → find_entry p h (frozen_slots t1.append_immutable) ≡ b
        → find_entry p h t1.sorted_region.slots ≡ c
        → Resolved t1 p h (elim a [
          | some _ ↦ append
          | none ↦ elim b [
            | some _ ↦ absent
            | none ↦ elim c [ some _ ↦ if frozen then absent else sorted | none ↦ absent ]
          ]
        ])
    go (some x) b c frozen ef ea eb ec = in_active x ea
    go none (some y) c frozen ef ea eb ec = nowhere ea (hidden y ea eb)
    go none none (some z) true ef ea eb ec = nowhere ea (write_frozen ea ef)
    go none none (some z) false ef ea eb ec = in_sorted z ea eb ec
    go none none none frozen ef ea eb ec = nowhere ea (missing ea ec)
