-- ===== src/T1/Index/Tombstone.antt =====
-- A deletion that falls between the freezing of the sorted region and the publication of the merge
-- in T1Index::reorganize (implementation/vmemkv/src/t1_index/t1_index.hpp).
use mathlib.Core.Path.{ap₂}
use vmem_kv.Prelude.{
  ℕ, ◌<◌, ◌≡◌, refl, ap, ◌∙◌, true, false, Option, none, some, List, [], ◌∷◌, arith, leb,
}
use vmem_kv.T1.Codec.{clean_hash, store_not_found}
use vmem_kv.T1.Entry.{EntrySnapshot, is_live}
use vmem_kv.T1.Merge.Plain.{find_entry, or_else}
use vmem_kv.T1.Index.{
  T1Index, ResolvedSlot, find_sorted, PutResult, applied, put_with_stored_hash, put_resolved,
  publish, update_bounds, resolve, absent, find_with_index, sorted_region_of, freeze_append,
  freeze_sorted, publish_merged,
}
use vmem_kv.T1.Index.Lookup.{WellFormed, view}
use vmem_kv.T1.Index.Find.{find_with_index-find_entry, find_sorted-find_entry}
use vmem_kv.T1.Entry.Order.{answers_self}
use vmem_kv.T1.Index.Reorganize.{
  payload_of, live_only, publish_merged-WellFormed, publish_merged-view, rebuilt, merged,
  freeze-WellFormed,
}

abbrev pub frozen : T1Index → T1Index
frozen t1 = freeze_sorted (freeze_append t1)

abbrev pub published : T1Index → T1Index
published t1 = publish_merged (λ entries. entries) t1

-- The remove that runs while a reorganisation has both regions frozen.
abbrev pub removed : ℕ → T1Index → List ℕ → ℕ → T1Index × PutResult
removed append_cap t1 p h = put_with_stored_hash append_cap (frozen t1) p h h store_not_found

-- resolve in the two frozen regions.
abbrev in_older : Option EntrySnapshot → Option EntrySnapshot → ResolvedSlot
in_older b c = elim b [ some _ ↦ absent | none ↦ elim c [ some _ ↦ absent | none ↦ absent ] ]

module _ (append_cap : ℕ) (t1 : T1Index) (p : List ℕ) (h : ℕ) (old : EntrySnapshot)
    (w : WellFormed t1) (idle : t1.append_immutable ≡ none) (clean : clean_hash h ≡ h)
    (unlisted : find_entry p h t1.append_active.slots ≡ none)
    (listed : find_entry p h t1.sorted_region.slots ≡ some old)
    (alive : is_live old.payload_bits ≡ true) (room : 0 < append_cap) where
  abbrev tombstone : EntrySnapshot
  tombstone = record { key = p; payload_bits = store_not_found; hash = h }

  abbrev deleted : T1Index
  deleted = record {
    append_active = record { slots = tombstone ∷ []; bounds = some (p, p) };
    append_immutable = some t1.append_active;
    sorted_region = t1.sorted_region;
    sorted_write_frozen = true;
  }

  nowhere : resolve (frozen t1) p h ≡ absent
  unfolding resolve freeze_append freeze_sorted find_with_index
  nowhere =
      let imm : find_with_index p h t1.append_active.slots ≡ none =
        find_with_index-find_entry p h t1.append_active.slots ∙ unlisted in
      let region : find_sorted t1.sorted_region p h ≡ some old =
        find_sorted-find_entry t1.sorted_region p h w.ascending w.covered ∙ listed in
      ap (λ b. in_older b (find_sorted t1.sorted_region p h)) imm ∙ ap (in_older none) region

  removed-deleted : removed append_cap t1 p h ≡ (deleted, applied)
  unfolding put_with_stored_hash put_resolved publish update_bounds freeze_append freeze_sorted
  removed-deleted =
      let space : leb append_cap 0 ≡ false = ground arith in
      ap (put_resolved append_cap (frozen t1) p h h store_not_found) nowhere ∙ rw space refl

  deleted-WellFormed : WellFormed deleted
  deleted-WellFormed = record {
    ascending = w.ascending;
    covered = w.covered;
    active = (tt, tt);
    immutable = w.active;
  }

  tombstone-found : find_entry p h (tombstone ∷ []) ≡ some tombstone
  unfolding find_entry
  tombstone-found = rw (answers_self p h tombstone refl clean) refl

  sees-tombstone : payload_of (view (published deleted) p h) ≡ store_not_found
  sees-tombstone =
      ap payload_of (publish_merged-view deleted deleted-WellFormed p h)
      ∙ ap
          (λ a. payload_of (
            or_else a (
              or_else (live_only (find_entry p h t1.append_active.slots))
                (live_only (find_entry p h t1.sorted_region.slots)))))
          tombstone-found

  kept-sorted : find_entry p h (merged deleted deleted-WellFormed) ≡ some old
  kept-sorted =
      (rebuilt deleted deleted-WellFormed p h).1
      ∙ ap₂ (λ a b. or_else (live_only a) (live_only b)) unlisted listed
      ∙ rw alive refl

  sees-old : payload_of (view (published (frozen (published deleted))) p h) ≡ old.payload_bits
  unfolding publish_merged freeze_append freeze_sorted find_entry sorted_region_of
  sees-old =
      let w4 = publish_merged-WellFormed deleted deleted-WellFormed in
      let w5 = freeze-WellFormed (published deleted) w4 in
      ap payload_of (publish_merged-view (frozen (published deleted)) w5 p h)
      ∙ ap₂ (λ a b. payload_of (or_else (live_only a) (live_only b))) tombstone-found kept-sorted
      ∙ rw alive refl

  -- A key that is live in the sorted region and in no append region, and that is removed while a
  -- reorganisation has both regions frozen: the removal is applied, and after that reorganisation a
  -- lookup finds the key deleted; but after the next reorganisation, with no write in between, a
  -- lookup returns the old payload again. The append capacity is not 0.
  pub remove-resurrected :
      ((removed append_cap t1 p h).1 ≡ applied)
      × (payload_of (view (published ((removed append_cap t1 p h).0)) p h) ≡ store_not_found)
      × (payload_of (view (published (frozen (published ((removed append_cap t1 p h).0)))) p h)
          ≡ old.payload_bits)
  remove-resurrected =
      let e = removed-deleted in
      (
        ap (λ r. r.1) e,
        ap (λ r. payload_of (view (published r.0) p h)) e ∙ sees-tombstone,
        ap (λ r. payload_of (view (published (frozen (published r.0))) p h)) e ∙ sees-old,
      )
