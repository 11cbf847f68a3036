-- ===== src/Wal/Commit/Batch.antt =====
-- One batch: what is collected, and what is left of it in the file.
use vmem_kv.Prelude.{
  ℕ, zero, suc, ◌+◌, ◌%◌, ◌≤◌, ◌≡◌, ◌⊎◌, inl, inr, refl, sym, ap, ◌∙◌, Bool, true, false, ◌&&◌,
  Option, none, some, List, [], ◌∷◌, ◌++◌, length, take, drop, ◌==◌, ==_iff, if_true, if_false,
  Bool-cases, Option-cases, if◌then◌else◌, ok, err, ◌>>=◌, Outcome, arith, append_assoc, append-nil,
  take-append_length, length-drop,
}
use vmem_kv.Wal.Commit.{
  PendingRecord, Wal, CommitError, collect_loop, collect_batch, BatchIo, iov_max, buffers,
  write_chunks, truncate_back, settle_batch, Files, files_of, write_file, sync_file,
  write_and_fsync_batch,
}

-- A batch of consecutive LSNs, each in its slot.
abbrev pub Collected : ℕ → (ℕ → Option PendingRecord) → ℕ → List PendingRecord → Type 0
Collected capacity ring next [] = Unit
Collected capacity ring next (rec ∷ recs) =
    (ring (next % capacity) ≡ some rec) × (rec.lsn ≡ next) × Collected capacity ring (next + 1) recs

ok-bind :
    (m : Outcome CommitError (List PendingRecord)) (rec : PendingRecord)
    (batch : List PendingRecord)
    → (m >>= λ rest. ok (rec ∷ rest)) ≡ ok batch
    → (rest : List PendingRecord) × (m ≡ ok rest) × (batch ≡ rec ∷ rest)
ok-bind (ok rest) rec batch e = (rest, refl, cc)
ok-bind (err x) rec batch e = cc

module _ (capacity : ℕ) (target : ℕ) (ring : ℕ → Option PendingRecord) where
  collect_loop-some :
      (rounds next : ℕ) (rec : PendingRecord)
      → (next == target) ≡ false
      → ring (next % capacity) ≡ some rec
      → collect_loop capacity (suc rounds) target ring next ≡ (
          if rec.lsn == next
          then (collect_loop capacity rounds target ring (next + 1) >>= λ batch. ok (rec ∷ batch))
          else err CommitError.slot_mismatch)
  unfolding collect_loop
  collect_loop-some rounds next rec e s = rw (e, s) refl

  collect_loop-none :
      (rounds next : ℕ)
      → (next == target) ≡ false
      → ring (next % capacity) ≡ none
      → collect_loop capacity (suc rounds) target ring next ≡ err CommitError.waits
  unfolding collect_loop
  collect_loop-none rounds next e s = rw (e, s) refl

  collect_loop-end :
      (rounds next : ℕ)
      → (next == target) ≡ true
      → collect_loop capacity (suc rounds) target ring next ≡ ok []
  unfolding collect_loop
  collect_loop-end rounds next e = rw e refl

  same_ok :
      {xs ys : List PendingRecord} (m : Outcome CommitError (List PendingRecord))
      → m ≡ ok xs
      → m ≡ ok ys
      → xs ≡ ys
  same_ok m e f = cc

  collect_loop-Collected :
      (rounds next : ℕ) (batch : List PendingRecord)
      → collect_loop capacity rounds target ring next ≡ ok batch
      → Collected capacity ring next batch
  unfolding collect_loop
  collect_loop-Collected zero next batch e = let empty : [] ≡ batch = cc in rw (← empty) tt
  collect_loop-Collected (suc rounds) next batch e = elim (Bool-cases (next == target)) [
    | inl last ↦
        let empty : [] ≡ batch =
          same_ok (collect_loop capacity (suc rounds) target ring next)
            (collect_loop-end rounds next last) e in
        rw (← empty) tt
    | inr more ↦ elim (Option-cases (ring (next % capacity))) [
      | inl gone ↦ absurd (cc (sym (collect_loop-none rounds next more gone) ∙ e))
      | inr (rec, here) ↦
          let step = sym (collect_loop-some rounds next rec more here) ∙ e in
          elim (Bool-cases (rec.lsn == next)) [
            | inl match ↦
                let taken = if_true (rec.lsn == next) _ _ match step in
                let (rest, found, whole) =
                  ok-bind (collect_loop capacity rounds target ring (next + 1)) rec batch taken in
                rw whole (
                  here,
                  (==_iff rec.lsn next).0 match,
                  collect_loop-Collected rounds (next + 1) rest found,
                )
            | inr wrong ↦ absurd (cc (if_false (rec.lsn == next) _ _ wrong step))
          ]
    ]
  ]

-- Writing a batch, from what the loop over its chunks leaves.
buffers-take-drop :
    (n : ℕ) (batch : List PendingRecord)
    → buffers (take n batch) ++ buffers (drop n batch) ≡ buffers batch
unfolding buffers
buffers-take-drop zero batch = refl
buffers-take-drop (suc n) [] = refl
buffers-take-drop (suc n) (rec ∷ recs) =
    append_assoc rec.buffer (buffers (take n recs)) (buffers (drop n recs))
    ∙ ap (λ bytes. rec.buffer ++ bytes) (buffers-take-drop n recs)

write_chunks-zero :
    (io : BatchIo) (chunk : ℕ) (file : List ℕ)
    → (write_chunks 0 io chunk [] file).1 ≡ file ++ buffers []
unfolding write_chunks buffers
write_chunks-zero io chunk file = sym (append-nil file)

write_chunks-nil :
    (fuel : ℕ) (io : BatchIo) (chunk : ℕ) (file : List ℕ)
    → (write_chunks (suc fuel) io chunk [] file).1 ≡ file ++ buffers []
unfolding write_chunks buffers
write_chunks-nil fuel io chunk file = sym (append-nil file)

module _ (fuel : ℕ) (io : BatchIo) (chunk : ℕ) (rec : PendingRecord) (recs : List PendingRecord)
    (file : List ℕ) where
  abbrev bytes : List ℕ
  bytes = buffers (take iov_max (rec ∷ recs))

  abbrev later : List PendingRecord
  later = drop iov_max (rec ∷ recs)

  abbrev is_whole : Bool
  is_whole = io.writev chunk (length bytes) == length bytes

  write_chunks-next :
      is_whole ≡ true
      → write_chunks (suc fuel) io chunk (rec ∷ recs) file
        ≡ write_chunks fuel io (chunk + 1) later (file ++ bytes)
  unfolding write_chunks
  write_chunks-next e = rw e refl

  write_chunks-stop :
      is_whole ≡ false
      → write_chunks (suc fuel) io chunk (rec ∷ recs) file
        ≡ (false, file ++ take (io.writev chunk (length bytes)) bytes)
  unfolding write_chunks
  write_chunks-stop e = rw e refl

pub take-append_more : (xs ys : List ℕ) (k : ℕ) → take (length xs + k) (xs ++ ys) ≡ xs ++ take k ys
take-append_more [] ys k = ap (λ n. take n ys) (omega arith)
take-append_more (x ∷ xs) ys k =
    let e : suc (length xs) + k ≡ suc (length xs + k) = omega arith in
    rw e (ap (λ zs. x ∷ zs) (take-append_more xs ys k))

take_prefix : (n : ℕ) (xs ys : List ℕ) → (k : ℕ) × (take n xs ≡ take k (xs ++ ys))
take_prefix zero xs ys = (0, refl)
take_prefix (suc n) [] ys = (0, refl)
take_prefix (suc n) (x ∷ xs) ys = let (k, e) = take_prefix n xs ys in (suc k, ap (λ zs. x ∷ zs) e)

write_chunks-out :
    (io : BatchIo) (chunk : ℕ) (batch : List PendingRecord) (file : List ℕ)
    → (write_chunks 0 io chunk batch file).1 ≡ file ++ []
unfolding write_chunks
write_chunks-out io chunk batch file = sym (append-nil file)

write_chunks-done :
    (fuel : ℕ) (io : BatchIo) (chunk : ℕ) (file : List ℕ)
    → (write_chunks (suc fuel) io chunk [] file).1 ≡ file ++ []
unfolding write_chunks
write_chunks-done fuel io chunk file = sym (append-nil file)

-- The loop only adds to the file, and what it adds is the beginning of the buffers.
write_chunks-adds :
    (fuel : ℕ) (io : BatchIo) (chunk : ℕ) (batch : List PendingRecord) (file : List ℕ)
    → (k : ℕ) × ((write_chunks fuel io chunk batch file).1 ≡ file ++ take k (buffers batch))
write_chunks-adds zero io chunk batch file = (0, write_chunks-out io chunk batch file)
write_chunks-adds (suc fuel) io chunk [] file = (0, write_chunks-done fuel io chunk file)
write_chunks-adds (suc fuel) io chunk (rec ∷ recs) file =
    let one = bytes fuel io chunk rec recs file in
    let rest = later fuel io chunk rec recs file in
    let whole = buffers-take-drop iov_max (rec ∷ recs) in
    let (k, more) = write_chunks-adds fuel io (chunk + 1) rest (file ++ one) in
    elim (Bool-cases (is_whole fuel io chunk rec recs file)) [
      | inl e ↦ (
        length one + k,
        ap (λ r. r.1) (write_chunks-next fuel io chunk rec recs file e)
            ∙ more
            ∙ append_assoc file one (take k (buffers rest))
            ∙ ap (λ bs. file ++ bs)
                (sym (take-append_more one (buffers rest) k) ∙ ap (take (length one + k)) whole),
      )
      | inr e ↦
          let (k', cut) = take_prefix (io.writev chunk (length one)) one (buffers rest) in
          (
            k',
            ap (λ r. r.1) (write_chunks-stop fuel io chunk rec recs file e)
                ∙ ap (λ bs. file ++ bs) (cut ∙ ap (take k') whole),
          )
    ]

-- A loop that ends well has added every buffer.
write_chunks-all :
    (fuel : ℕ) (io : BatchIo) (chunk : ℕ) (batch : List PendingRecord) (file : List ℕ)
    → length batch ≤ fuel
    → (write_chunks fuel io chunk batch file).0 ≡ true
    → (write_chunks fuel io chunk batch file).1 ≡ file ++ buffers batch
write_chunks-all zero io chunk [] file h e = write_chunks-zero io chunk file
write_chunks-all zero io chunk (rec ∷ recs) file h e = absurd (omega arith)
write_chunks-all (suc fuel) io chunk [] file h e = write_chunks-nil fuel io chunk file
write_chunks-all (suc fuel) io chunk (rec ∷ recs) file h e =
    let one = bytes fuel io chunk rec recs file in
    let rest = later fuel io chunk rec recs file in
    let fewer : length rest ≤ fuel = omega (arith, length-drop iov_max (rec ∷ recs)) in
    elim (Bool-cases (is_whole fuel io chunk rec recs file)) [
      | inl w ↦
          let next = write_chunks-next fuel io chunk rec recs file w in
          ap (λ r. r.1) next
          ∙ write_chunks-all fuel io (chunk + 1) rest (file ++ one) fewer
              (sym (ap (λ r. r.0) next) ∙ e)
          ∙ append_assoc file one (buffers rest)
          ∙ ap (λ bs. file ++ bs) (buffers-take-drop iov_max (rec ∷ recs))
      | inr w ↦
          absurd (cc (sym (ap (λ r. r.0) (write_chunks-stop fuel io chunk rec recs file w)) ∙ e))
    ]

truncate_back-adds :
    (io : BatchIo) (saved added : List ℕ)
    → io.fstat_ok ≡ true
    → io.ftruncate_ok ≡ true
    → truncate_back io saved (saved ++ added) ≡ saved
unfolding truncate_back
truncate_back-adds io saved added stat trunc =
    rw (stat, trunc) (take-append_length saved added (length saved) refl)

abbrev pub whole_batch : List PendingRecord → Wal → Files
whole_batch batch wal = record {
  file = wal.file ++ buffers batch;
  disk = wal.file ++ buffers batch;
  versions = [];
}

abbrev pub cut_batch : ℕ → List PendingRecord → Wal → Files
cut_batch k batch wal = record {
  file = wal.file;
  disk = wal.disk;
  versions = wal.file ∷ (wal.file ++ take k (buffers batch)) ∷ wal.versions;
}

-- What follows the loop over the chunks, by its outcome and that of fdatasync.
module _ (capacity : ℕ) (batch : List PendingRecord) (wal : Wal) where
  unfoldable finish : Bool → Bool → List ℕ → List ℕ → Wal
  unfolding write_file sync_file
  finish written durable file cut =
      let after = write_file file (files_of wal) in
      let synced = if written then sync_file durable after else after in
      if written && durable
      then settle_batch capacity false synced batch wal
      else settle_batch capacity true (write_file cut synced) batch wal

  failing :
      (file cut : List ℕ) (k : ℕ)
      → file ≡ wal.file ++ take k (buffers batch)
      → cut ≡ wal.file
      → settle_batch capacity true
          (record { file = cut; disk = wal.disk; versions = cut ∷ file ∷ wal.versions })
          batch
          wal
        ≡ settle_batch capacity true (cut_batch k batch wal) batch wal
  failing file cut k adds restored i =
      settle_batch capacity true
        (record {
          file = restored i;
          disk = wal.disk;
          versions = restored i ∷ adds i ∷ wal.versions;
        })
        batch wal

  by_answers :
      (written durable : Bool) (file cut : List ℕ) (k : ℕ)
      → (written ≡ true → file ≡ wal.file ++ buffers batch)
      → file ≡ wal.file ++ take k (buffers batch)
      → cut ≡ wal.file
      → (finish written durable file cut
          ≡ settle_batch capacity false (whole_batch batch wal) batch wal)
        ⊎ ((k : ℕ) × (finish written durable file cut
              ≡ settle_batch capacity true (cut_batch k batch wal) batch wal))
  unfolding finish
  by_answers true true file cut k whole adds restored = inl (
      ap (λ f. settle_batch capacity false (record { file = f; disk = f; versions = [] }) batch wal)
        (whole refl))
  by_answers true false file cut k whole adds restored = inr (k, failing file cut k adds restored)
  by_answers false durable file cut k whole adds restored =
      inr (k, failing file cut k adds restored)

-- What a batch leaves: all of it in the file, synced, or none of it and the log poisoned, where the
-- file has had the beginning of the batch. The conditions on
-- the system: fstat succeeds, and so does ftruncate, where a write or the sync has failed.
pub write_and_fsync_batch-cases :
    (capacity : ℕ) (io : BatchIo) (batch : List PendingRecord) (wal : Wal)
    → io.fstat_ok ≡ true
    → io.ftruncate_ok ≡ true
    → (write_and_fsync_batch capacity io batch wal
        ≡ settle_batch capacity false (whole_batch batch wal) batch wal)
      ⊎ ((k : ℕ) × (write_and_fsync_batch capacity io batch wal
            ≡ settle_batch capacity true (cut_batch k batch wal) batch wal))
unfolding write_and_fsync_batch finish
write_and_fsync_batch-cases capacity io batch wal stat trunc =
    let run = write_chunks (length batch) io 0 batch wal.file in
    let (k, adds) = write_chunks-adds (length batch) io 0 batch wal.file in
    by_answers capacity batch wal run.0 io.fdatasync_ok run.1 (truncate_back io wal.file run.1) k
      (write_chunks-all (length batch) io 0 batch wal.file (omega arith)) adds
      (ap (truncate_back io wal.file) adds
        ∙ truncate_back-adds io wal.file (take k (buffers batch)) stat trunc)

pub collect_batch-Collected :
    (capacity target : ℕ) (wal : Wal) (batch : List PendingRecord)
    → collect_batch capacity target wal ≡ ok batch
    → Collected capacity wal.ring wal.next_to_flush batch
unfolding collect_batch
collect_batch-Collected capacity target wal batch e =
    collect_loop-Collected capacity target wal.ring capacity wal.next_to_flush batch e
