-- ===== src/T1/Index/Put.antt =====
-- T1Index::put_with_stored_hash on each branch of resolve.
use vmem_kv.Prelude.{
  ℕ, ◌≤◌, ◌≡◌, refl, sym, ap, ◌∙◌, ◌⊎◌, true, false, Bool-cases, inl, inr, Option, none, some, List,
  [], ◌∷◌, ◌++◌, arith, length, leb,
}
use vmem_kv.T1.Codec.{clean_hash}
use vmem_kv.T1.Entry.{EntrySnapshot, answers}
use vmem_kv.T1.Entry.Order.{order-same, answers-key, answers_self}
use vmem_kv.T1.Bloom.{maybe_contains}
use vmem_kv.T1.Merge.Plain.{find_entry, or_else, or_else-none}
use vmem_kv.T1.Index.{
  T1Index, PutResult, applied, append_region_full, ResolvedSlot, resolve, store_slot, publish,
  put_with_stored_hash, put_resolved, frozen_slots, append, sorted, absent,
}
use vmem_kv.T1.Index.Find.{Covers}
use vmem_kv.T1.Index.Slots.{
  Other, All-store_slot, Ascending-store_slot, Distinct-store_slot, find_entry-store_slot,
  find_entry-store_slot-Other, answers-Other,
}
use vmem_kv.T1.Index.Lookup.{WellFormed, view, find_entry-append, Apart-missing, Distinct-append}
use vmem_kv.T1.Index.Resolved.{NoSlot, Resolved, in_active, in_sorted, nowhere, resolved}

-- What a put leaves behind: a well formed state, in which the lookup (p, h) sees what it saw. An
-- applied put is seen by lookups of its identity; a full region leaves all as it was.
pub record Written (append_cap : ℕ) (t1 : T1Index) (prefix : List ℕ) (stored_hash value : ℕ)
    (p : List ℕ) (h : ℕ) (after : T1Index × PutResult) : Type 0 where
  pub well_formed : WellFormed after.0
  pub other : view after.0 p h ≡ view t1 p h
  pub outcome :
      ((after.1 ≡ applied)
        × (view after.0 prefix (clean_hash stored_hash)
            ≡ some (record { key = prefix; payload_bits = value; hash = stored_hash })))
      ⊎ ((after.1 ≡ append_region_full)
          × (after.0 ≡ t1)
          × (append_cap ≤ length t1.append_active.slots)
          × NoSlot t1 prefix (clean_hash stored_hash))

found-key :
    (prefix : List ℕ) (hash : ℕ) (xs : List EntrySnapshot) (old : EntrySnapshot)
    → find_entry prefix hash xs ≡ some old
    → old.key ≡ prefix
unfolding find_entry
found-key prefix hash [] old f = cc
found-key prefix hash (x ∷ xs) old f = elim (Bool-cases (answers prefix hash x)) [
  | inl a ↦
      let e : some x ≡ some old = sym (rw a refl) ∙ f in
      let k : x.key ≡ prefix = (answers-key prefix hash x a).0 in cc (e, k)
  | inr a ↦ found-key prefix hash xs old (sym (rw a refl) ∙ f)
]

module _ (append_cap : ℕ) (t1 : T1Index) (prefix : List ℕ) (stored_hash value : ℕ) (p : List ℕ)
    (h : ℕ) (w : WellFormed t1) (o : Other p h prefix (clean_hash stored_hash)) where
  abbrev hash : ℕ
  hash = clean_hash stored_hash

  abbrev entry : EntrySnapshot
  entry = record { key = prefix; payload_bits = value; hash = stored_hash }

  written-entry :
      (xs : List EntrySnapshot) (old : EntrySnapshot)
      → find_entry prefix hash xs ≡ some old
      → find_entry prefix hash (store_slot prefix hash stored_hash value xs) ≡ some entry
  written-entry xs old f =
      find_entry-store_slot prefix hash stored_hash value refl xs old f
      ∙ ap (λ k. some (record { key = k; payload_bits = value; hash = stored_hash }))
          (found-key prefix hash xs old f)

  abbrev Result : T1Index × PutResult → Type 0
  Result after = Written append_cap t1 prefix stored_hash value p h after

  in_append :
      (old : EntrySnapshot)
      → find_entry prefix hash t1.append_active.slots ≡ some old
      → Result (
        record {
          append_active = record {
            slots = store_slot prefix hash stored_hash value t1.append_active.slots;
            bounds = t1.append_active.bounds;
          };
          append_immutable = t1.append_immutable;
          sorted_region = t1.sorted_region;
          sorted_write_frozen = t1.sorted_write_frozen;
        },
        applied,
      )
  in_append old f =
      let slots = t1.append_active.slots in
      record {
        well_formed = record {
          ascending = w.ascending;
          covered = w.covered;
          active = Distinct-store_slot prefix hash stored_hash value refl slots w.active;
          immutable = w.immutable;
        };
        other =
            ap (λ a. or_else a (older p h))
              (find_entry-store_slot-Other prefix hash stored_hash value refl p h slots o);
        outcome = inl (refl, ap (λ a. or_else a (older prefix hash)) (written-entry slots old f));
      }
    where
      older : List ℕ → ℕ → Option EntrySnapshot
      older q k =
          or_else (find_entry q k (frozen_slots t1.append_immutable))
            (find_entry q k t1.sorted_region.slots)

  in_sorted_region :
      (old : EntrySnapshot)
      → find_entry prefix hash t1.append_active.slots ≡ none
      → find_entry prefix hash (frozen_slots t1.append_immutable) ≡ none
      → find_entry prefix hash t1.sorted_region.slots ≡ some old
      → Result (
        record {
          append_active = t1.append_active;
          append_immutable = t1.append_immutable;
          sorted_region = record {
            slots = store_slot prefix hash stored_hash value t1.sorted_region.slots;
            bloom = t1.sorted_region.bloom;
          };
          sorted_write_frozen = t1.sorted_write_frozen;
        },
        applied,
      )
  in_sorted_region old ea eb ec =
      let slots = t1.sorted_region.slots in
      let bloom = t1.sorted_region.bloom in
      record {
        well_formed = record {
          ascending = Ascending-store_slot prefix hash stored_hash value refl slots w.ascending;
          covered =
              All-store_slot prefix hash stored_hash value refl (Covers bloom) slots
                (λ a b e c. ap (maybe_contains bloom) ((order-same a b e).1) ∙ c) w.covered;
          active = w.active;
          immutable = w.immutable;
        };
        other =
            ap
              (λ s.
                or_else (find_entry p h t1.append_active.slots)
                  (or_else (find_entry p h (frozen_slots t1.append_immutable)) s))
              (find_entry-store_slot-Other prefix hash stored_hash value refl p h slots o);
        outcome = inl (refl, rw (ea, eb) (written-entry slots old ec));
      }

  new_slot :
      find_entry prefix hash t1.append_active.slots ≡ none
      → Result (
        record {
          append_active = publish t1.append_active prefix stored_hash value;
          append_immutable = t1.append_immutable;
          sorted_region = t1.sorted_region;
          sorted_write_frozen = t1.sorted_write_frozen;
        },
        applied,
      )
  unfolding publish
  new_slot ea =
      let slots = t1.append_active.slots in
      let hit : answers prefix hash entry ≡ true = answers_self prefix hash entry refl refl in
      let found : find_entry prefix hash (slots ++ entry ∷ []) ≡ some entry =
        find_entry-append prefix hash slots entry ∙ rw (ea, hit) refl in
      let miss : answers p h entry ≡ false = answers-Other p h prefix hash entry o hit in
      record {
        well_formed = record {
          ascending = w.ascending;
          covered = w.covered;
          active =
              Distinct-append slots entry w.active (Apart-missing prefix hash entry slots hit ea);
          immutable = w.immutable;
        };
        other =
            ap
              (λ a. or_else a (
                or_else (find_entry p h (frozen_slots t1.append_immutable))
                  (find_entry p h t1.sorted_region.slots)))
              (find_entry-append p h slots entry ∙ rw miss (or_else-none (find_entry p h slots)));
        outcome = inl (
          refl,
          ap
              (λ a. or_else a (
                or_else (find_entry prefix hash (frozen_slots t1.append_immutable))
                  (find_entry prefix hash t1.sorted_region.slots)))
              found,
        );
      }

  unchanged :
      append_cap ≤ length t1.append_active.slots
      → NoSlot t1 prefix hash
      → Result (t1, append_region_full)
  unchanged c gone = record { well_formed = w; other = refl; outcome = inr (refl, refl, c, gone) }

  by_slot :
      (s : ResolvedSlot)
      → Resolved t1 prefix hash s
      → Result (put_resolved append_cap t1 prefix hash stored_hash value s)
  unfolding put_resolved
  by_slot append (in_active old f) = in_append old f
  by_slot sorted (in_sorted old ea eb ec) = in_sorted_region old ea eb ec
  by_slot absent (nowhere ea gone) =
      elim (Bool-cases (leb append_cap (length t1.append_active.slots))) [
        | inl full ↦ rw full (unchanged (ground arith) gone)
        | inr room ↦ rw room (new_slot ea)
      ]

  -- put_with_stored_hash keeps the index well formed and does not touch a lookup of another prefix
  -- or clean hash. Either it is applied, and a lookup of its identity sees exactly the written
  -- payload and stored hash, whatever region the entry was in; or the append region is full, and
  -- nothing has changed.
  pub put_with_stored_hash-Written :
      Written append_cap t1 prefix stored_hash value p h
        (put_with_stored_hash append_cap t1 prefix (clean_hash stored_hash) stored_hash value)
  unfolding put_with_stored_hash
  put_with_stored_hash-Written = by_slot (resolve t1 prefix hash) (resolved t1 prefix hash w)
