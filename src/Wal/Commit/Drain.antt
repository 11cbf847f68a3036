-- ===== src/Wal/Commit/Drain.antt =====
-- A drain that finds every reserved record published settles them all.
use vmem_kv.Prelude.{
  ℕ, zero, suc, ◌+◌, ◌-◌, ◌≤◌, ◌<◌, ◌≡◌, inl, inr, refl, sym, ap, ◌∙◌, Bool, true, false, ◌&&◌,
  Option, List, [], ◌∷◌, ◌++◌, map, map-append, append-nil, length, ◌==◌, ==_refl, Bool-cases,
  if◌then◌else◌, ok, arith,
}
use vmem_kv.Wal.Commit.{
  PendingRecord, Settled, Wal, collect_loop, collect_batch, BatchIo, settle, settle_batch, Files,
  files_of, write_file, sync_file, write_chunks, truncate_back, write_and_fsync_batch, drain_loop,
  drain_pending,
}
use vmem_kv.Wal.Commit.Batch.{Collected}

later_eq : (n m : ℕ) → 0 < m → (n == n + m) ≡ false
later_eq n m h = ground arith

collect_loop-Collected_all :
    (capacity target : ℕ) (ring : ℕ → Option PendingRecord) (rounds start : ℕ)
    (batch : List PendingRecord)
    → Collected capacity ring start batch
    → start + length batch ≡ target
    → length batch ≤ rounds
    → collect_loop capacity rounds target ring start ≡ ok batch
unfolding collect_loop
collect_loop-Collected_all capacity target ring zero start [] c e h = refl
collect_loop-Collected_all capacity target ring zero start (rec ∷ batch) c e h =
    absurd (omega arith)
collect_loop-Collected_all capacity target ring (suc rounds) start [] c e h =
    let last : (start == target) ≡ true = ground arith in rw last refl
collect_loop-Collected_all capacity target ring (suc rounds) start (rec ∷ batch) c e h =
    let more : (start == target) ≡ false = ground arith in
    let match : (rec.lsn == start) ≡ true = rw c.1 (==_refl start) in
    rw
      (
        more,
        c.0,
        match,
        collect_loop-Collected_all capacity target ring rounds (start + 1) batch c.2 (omega arith)
            (omega arith),
      )
      refl

-- However the system answers, a batch is settled.
write_and_fsync_batch-settles :
    (capacity : ℕ) (io : BatchIo) (batch : List PendingRecord) (wal : Wal)
    → (failed : Bool) × (files : Files) × (write_and_fsync_batch capacity io batch wal
        ≡ settle_batch capacity failed files batch wal)
unfolding write_and_fsync_batch
write_and_fsync_batch-settles capacity io batch wal =
    let run = write_chunks (length batch) io 0 batch wal.file in
    let after = write_file run.1 (files_of wal) in
    let synced = if run.0 then sync_file io.fdatasync_ok after else after in
    elim (Bool-cases (run.0 && io.fdatasync_ok)) [
      | inl e ↦ (false, synced, rw e refl)
      | inr e ↦ (true, write_file (truncate_back io wal.file run.1) synced, rw e refl)
    ]

abbrev numbers : List PendingRecord → List ℕ
numbers = map (λ rec. rec.lsn)

numbers-settle :
    (failed : Bool) (batch : List PendingRecord)
    → map (λ (s : Settled). s.lsn) (settle failed batch) ≡ numbers batch
unfolding settle
numbers-settle failed [] = refl
numbers-settle failed (rec ∷ batch) = ap (λ ns. rec.lsn ∷ ns) (numbers-settle failed batch)

-- What a drain leaves.
pub record Drained (w : Wal) (batch : List PendingRecord) (u : Wal) : Type 0 where
  pub flushed : u.next_to_flush ≡ w.next_lsn
  pub reserved : u.next_lsn ≡ w.next_lsn
  pub settled : map (λ s. s.lsn) u.settled ≡ map (λ s. s.lsn) w.settled ++ map (λ r. r.lsn) batch

drain_loop-end :
    (capacity rounds : ℕ) (io : ℕ → BatchIo) (target : ℕ) (w : Wal)
    → w.next_to_flush ≡ target
    → drain_loop capacity rounds io target w ≡ ok w
unfolding drain_loop
drain_loop-end capacity zero io target w e = refl
drain_loop-end capacity (suc rounds) io target w e =
    let last : (w.next_to_flush == target) ≡ true = rw e (==_refl target) in rw last refl

settle_batch-Drained :
    (capacity : ℕ) (failed : Bool) (files : Files) (batch : List PendingRecord) (w : Wal)
    → w.next_to_flush + length batch ≡ w.next_lsn
    → Drained w batch (settle_batch capacity failed files batch w)
unfolding settle_batch
settle_batch-Drained capacity failed files batch w e = record {
  flushed = e;
  reserved = refl;
  settled =
      map-append (λ s. s.lsn) w.settled (settle failed batch)
      ∙ ap (λ ns. map (λ s. s.lsn) w.settled ++ ns) (numbers-settle failed batch);
}

module _ (capacity : ℕ) (io : ℕ → BatchIo) (w : Wal) where
  drain_loop-round :
      (rounds : ℕ) (batch : List PendingRecord)
      → (w.next_to_flush == w.next_lsn) ≡ false
      → collect_batch capacity w.next_lsn w ≡ ok batch
      → drain_loop capacity (suc rounds) io w.next_lsn w
        ≡ drain_loop capacity rounds io w.next_lsn
            (write_and_fsync_batch capacity (io w.next_to_flush) batch w)
  unfolding drain_loop
  drain_loop-round rounds batch more found = rw (more, found) refl

  drained :
      (rounds : ℕ) (batch : List PendingRecord)
      → (w.next_to_flush == w.next_lsn) ≡ false
      → collect_batch capacity w.next_lsn w ≡ ok batch
      → w.next_to_flush + length batch ≡ w.next_lsn
      → (u : Wal) × (drain_loop capacity (suc rounds) io w.next_lsn w ≡ ok u) × Drained w batch u
  drained rounds batch more found e =
      let (failed, files, run) =
        write_and_fsync_batch-settles capacity (io w.next_to_flush) batch w in
      let u = settle_batch capacity failed files batch w in
      let result = settle_batch-Drained capacity failed files batch w e in
      (
        u,
        drain_loop-round rounds batch more found
            ∙ ap (drain_loop capacity rounds io w.next_lsn) run
            ∙ drain_loop-end capacity rounds io w.next_lsn u result.flushed,
        result,
      )

  collect_batch-all :
      (batch : List PendingRecord)
      → Collected capacity w.ring w.next_to_flush batch
      → w.next_to_flush + length batch ≡ w.next_lsn
      → length batch ≤ capacity
      → collect_batch capacity w.next_lsn w ≡ ok batch
  unfolding collect_batch
  collect_batch-all batch c e h =
      collect_loop-Collected_all capacity w.next_lsn w.ring capacity w.next_to_flush batch c e h

  -- Where every LSN below next_lsn that is not settled has its record in its slot of the ring, and
  -- they are no more than the ring has slots, drain_pending returns, whatever the system answers to
  -- the writes: it has settled each of them once, in the order of their LSNs, and none is left.
  pub drain_pending-Drained :
      (batch : List PendingRecord)
      → Collected capacity w.ring w.next_to_flush batch
      → w.next_to_flush + length batch ≡ w.next_lsn
      → length batch ≤ capacity
      → (u : Wal) × (drain_pending capacity io w ≡ ok u) × Drained w batch u
  unfolding drain_pending
  drain_pending-Drained [] c e h = (
    w,
    drain_loop-end capacity (w.next_lsn - w.next_to_flush) io w.next_lsn w (omega arith),
    record { flushed = omega arith; reserved = refl; settled = sym (append-nil _) },
  )
  drain_pending-Drained (rec ∷ batch) c e h =
      let rounds : w.next_lsn - w.next_to_flush ≡ suc (length batch) = omega arith in
      let more : (w.next_to_flush == w.next_lsn) ≡ false = ground arith in
      let (u, runs, result) =
        drained (length batch) (rec ∷ batch) more (collect_batch-all (rec ∷ batch) c e h) e in
      (u, ap (λ n. drain_loop capacity n io w.next_lsn w) rounds ∙ runs, result)
