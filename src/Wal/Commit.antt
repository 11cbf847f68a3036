-- ===== src/Wal/Commit.antt =====
-- Group commit: reserve_record, collect_batch, write_and_fsync_batch, drain_pending and
-- fail_all_pending_and_release_leadership of implementation/vmemkv/src/wal/wal.cpp.
--
-- A record is settled when its error field has been set, and it is of no use after that but for
-- that field; so a list of what was settled stands for the error fields. The answers of the system
-- to one batch are an argument. The notifications and the reference counts are left out.
pub mod Batch
pub mod Steps
pub mod Durable
pub mod Trace
pub mod Crash
pub mod Drain
use vmem_kv.Prelude.{
  ℕ, zero, suc, ◌+◌, ◌-◌, ◌*◌, ◌%◌, ◌^◌, Bool, true, false, ◌&&◌, not, Option, none, some, List, [],
  ◌∷◌, ◌++◌, map, length, take, drop, ltb, ◌==◌, if◌then◌else◌, Outcome, ok, err, ◌>>=◌,
}
use vmem_kv.Wal.Format.{WalRecordType, serialize_record}

abbrev pub wal_ring_capacity : ℕ
wal_ring_capacity = 4096

-- IOV_MAX, as Linux has it.
abbrev pub iov_max : ℕ
iov_max = 1024

pub record PendingRecord : Type 0 where
  pub lsn : ℕ
  pub buffer : List ℕ

-- A record whose error field is set: to an error, or to none.
pub record Settled : Type 0 where
  pub lsn : ℕ
  pub failed : Bool

-- The active segment as it is read, as the last successful fdatasync left it (`disk`), and as the
-- writes and cuts since then had it (`versions`); the ring by slots, and the producers that have an
-- LSN but no slot yet.
pub record Wal : Type 0 where
  pub file : List ℕ
  pub disk : List ℕ
  pub versions : List (List ℕ)
  pub ring : ℕ → Option PendingRecord
  pub unpublished : List PendingRecord
  pub next_lsn : ℕ
  pub next_to_flush : ℕ
  pub highest_settled_lsn : ℕ
  pub poisoned : Bool
  pub settled : List Settled

-- `poisoned_log` is the runtime_error of a poisoned log, `slot_mismatch` the logic_error of
-- collect_batch. `waits` is no error of the program: it spins on a slot that is not published.
pub data CommitError : Type 0 where
  poisoned_log slot_mismatch waits : CommitError

-- reserve_record up to the ring.
unfoldable pub reserve_record :
    WalRecordType → List ℕ → List ℕ → Wal → Outcome CommitError (PendingRecord × Wal)
reserve_record type key value wal =
    let lsn = wal.next_lsn in
    let rec : PendingRecord = record { lsn = lsn; buffer = serialize_record type key value lsn } in
    if wal.poisoned
    then err poisoned_log
    else ok (rec, record wal { next_lsn = lsn + 1; unpublished = rec ∷ wal.unpublished })

-- A ring with one slot stored.
unfoldable pub store_ring :
    ℕ → Option PendingRecord → (ℕ → Option PendingRecord) → ℕ → Option PendingRecord
store_ring slot value ring i = if i == slot then value else ring i

-- collect_batch, with the rounds that the size of the batch leaves.
unfoldable pub collect_loop :
    ℕ → (rounds : ℕ) → ℕ → (ℕ → Option PendingRecord) → ℕ → Outcome CommitError (List PendingRecord)
collect_loop capacity zero target ring next = ok []
collect_loop capacity (suc rounds) target ring next =
    let rest = collect_loop capacity rounds target ring (next + 1) in
    if next == target then ok [] else elim (ring (next % capacity)) [
      | none ↦ err waits
      | some rec ↦
          if rec.lsn == next then (rest >>= λ batch. ok (rec ∷ batch)) else err slot_mismatch
    ]

unfoldable pub collect_batch : ℕ → ℕ → Wal → Outcome CommitError (List PendingRecord)
unfolding collect_loop
collect_batch capacity target wal = collect_loop capacity capacity target wal.ring wal.next_to_flush

-- What the system answers: the bytes that each writev writes of those it is given, and whether
-- fdatasync, fstat and ftruncate succeed.
pub record BatchIo : Type 0 where
  pub writev : ℕ → ℕ → ℕ
  pub fdatasync_ok : Bool
  pub fstat_ok : Bool
  pub ftruncate_ok : Bool

unfoldable pub buffers : List PendingRecord → List ℕ
buffers [] = []
buffers (rec ∷ recs) = rec.buffer ++ buffers recs

-- The loop over chunks of IOV_MAX buffers: whether all were written, and the file. A chunk takes a
-- record at least, so the records are rounds enough.
unfoldable pub write_chunks :
    (fuel : ℕ) → BatchIo → (chunk : ℕ) → List PendingRecord → List ℕ → Bool × List ℕ
unfolding buffers
write_chunks zero io chunk batch file = (true, file)
write_chunks (suc fuel) io chunk [] file = (true, file)
write_chunks (suc fuel) io chunk (rec ∷ recs) file =
    let bytes = buffers (take iov_max (rec ∷ recs)) in
    let written = io.writev chunk (length bytes) in
    let rest = write_chunks fuel io (chunk + 1) (drop iov_max (rec ∷ recs)) (file ++ bytes) in
    if written == length bytes then rest else (false, file ++ take written bytes)

-- The file after the handler of a failure.
unfoldable pub truncate_back : BatchIo → List ℕ → List ℕ → List ℕ
truncate_back io saved file =
    let saved_length = if io.fstat_ok then length saved else 0 in
    if io.ftruncate_ok then take saved_length file else file

-- The slots of a batch, emptied.
unfoldable pub clear_slots :
    ℕ → List PendingRecord → (ℕ → Option PendingRecord) → ℕ → Option PendingRecord
unfolding store_ring
clear_slots capacity [] ring = ring
clear_slots capacity (rec ∷ recs) ring =
    clear_slots capacity recs (store_ring (rec.lsn % capacity) none ring)

unfoldable pub settle : Bool → List PendingRecord → List Settled
settle failed batch = map (λ rec. record { lsn = rec.lsn; failed = failed }) batch

-- batch.back()->lsn
unfoldable pub last_lsn_of : ℕ → List PendingRecord → ℕ
last_lsn_of last [] = last
last_lsn_of last (rec ∷ recs) = last_lsn_of rec.lsn recs

-- The file with its states, and what the system does to it: a write and a cut are not durable until
-- fdatasync has succeeded.
pub record Files : Type 0 where
  pub file : List ℕ
  pub disk : List ℕ
  pub versions : List (List ℕ)

unfoldable pub write_file : List ℕ → Files → Files
write_file file files = record files { file = file; versions = file ∷ files.versions }

unfoldable pub sync_file : Bool → Files → Files
sync_file true files = record { file = files.file; disk = files.file; versions = [] }
sync_file false files = files

abbrev pub files_of : Wal → Files
files_of wal = record { file = wal.file; disk = wal.disk; versions = wal.versions }

-- What follows the try block, and next_to_flush, which collect_batch has moved past the batch.
unfoldable pub settle_batch : ℕ → Bool → Files → List PendingRecord → Wal → Wal
unfolding clear_slots settle last_lsn_of
settle_batch capacity failed files batch wal = record wal {
  file = files.file;
  disk = files.disk;
  versions = files.versions;
  ring = clear_slots capacity batch wal.ring;
  next_to_flush = wal.next_to_flush + length batch;
  highest_settled_lsn = last_lsn_of wal.highest_settled_lsn batch;
  poisoned = if failed then true else wal.poisoned;
  settled = wal.settled ++ settle failed batch;
}

unfoldable pub write_and_fsync_batch : ℕ → BatchIo → List PendingRecord → Wal → Wal
unfolding write_chunks truncate_back settle_batch write_file sync_file
write_and_fsync_batch capacity io batch wal =
    let (written, file) = write_chunks (length batch) io 0 batch wal.file in
    let after = write_file file (files_of wal) in
    let synced = if written then sync_file io.fdatasync_ok after else after in
    if written && io.fdatasync_ok
    then settle_batch capacity false synced batch wal
    else settle_batch capacity true (write_file (truncate_back io wal.file file) synced) batch wal

-- One slot of the sweep of fail_all_pending_and_release_leadership.
unfoldable pub fail_record : ℕ → PendingRecord → Wal → Wal
unfolding store_ring
fail_record capacity rec wal = record wal {
  ring = store_ring (wal.next_to_flush % capacity) none wal.ring;
  next_to_flush = wal.next_to_flush + 1;
  settled = wal.settled ++ (record { lsn = rec.lsn; failed = true } ∷ []);
}

-- A slot that is not published is waited for.
unfoldable pub sweep_slot : ℕ → Option PendingRecord → Wal → Outcome CommitError Wal
unfolding fail_record
sweep_slot capacity none wal = err waits
sweep_slot capacity (some rec) wal = ok (fail_record capacity rec wal)

-- The sweep, for the LSNs that were reserved when it began.
unfoldable pub fail_loop : ℕ → (rounds : ℕ) → Wal → Outcome CommitError Wal
unfolding sweep_slot
fail_loop capacity zero wal = ok wal
fail_loop capacity (suc rounds) wal = do
  swept ← sweep_slot capacity (wal.ring (wal.next_to_flush % capacity)) wal
  fail_loop capacity rounds swept

unfoldable pub fail_all_pending : ℕ → Wal → Outcome CommitError Wal
unfolding fail_loop
fail_all_pending capacity wal = do
  swept ← fail_loop capacity (wal.next_lsn - wal.next_to_flush) (record wal { poisoned = true })
  ok (record swept { highest_settled_lsn = swept.next_to_flush - 1 })

-- The records that collect_batch has taken when it meets a slot with another LSN: next_to_flush is
-- past them, and the batch is dropped.
unfoldable pub collected_before : ℕ → (rounds : ℕ) → ℕ → (ℕ → Option PendingRecord) → ℕ → ℕ
collected_before capacity zero target ring next = 0
collected_before capacity (suc rounds) target ring next =
    let rest = collected_before capacity rounds target ring (next + 1) in
    if next == target then 0 else elim (ring (next % capacity)) [
      | none ↦ 0
      | some rec ↦ if rec.lsn == next then rest + 1 else 0
    ]

-- drain_pending rethrows with the log as the sweep has left it, or waits for a slot.
pub data DrainError : Type 0 where
  rethrown : Wal → DrainError
  waiting : DrainError

unfoldable pub after_sweep : Outcome CommitError Wal → Outcome DrainError Wal
after_sweep (ok swept) = err (rethrown swept)
after_sweep (err e) = err waiting

-- The handler of drain_pending.
unfoldable pub drain_failed : ℕ → CommitError → Wal → Outcome DrainError Wal
unfolding fail_all_pending after_sweep
drain_failed capacity waits wal = err waiting
drain_failed capacity _ wal = after_sweep (fail_all_pending capacity wal)

-- The loop of drain_pending, over the answers for each batch by its first LSN.
unfoldable pub drain_loop : ℕ → (rounds : ℕ) → (ℕ → BatchIo) → ℕ → Wal → Outcome DrainError Wal
unfolding collect_batch write_and_fsync_batch drain_failed collected_before
drain_loop capacity zero io target wal = ok wal
drain_loop capacity (suc rounds) io target wal =
    let taken = collected_before capacity capacity target wal.ring wal.next_to_flush in
    let rest : Outcome DrainError Wal = elim (collect_batch capacity target wal) [
      | ok batch ↦
          drain_loop capacity rounds io target
            (write_and_fsync_batch capacity (io wal.next_to_flush) batch wal)
      | err e ↦ drain_failed capacity e (record wal { next_to_flush = wal.next_to_flush + taken })
    ] in
    if wal.next_to_flush == target then ok wal else rest

-- A batch is never empty, so the LSNs below the target are rounds enough.
unfoldable pub drain_pending : ℕ → (ℕ → BatchIo) → Wal → Outcome DrainError Wal
unfolding drain_loop
drain_pending capacity io wal =
    drain_loop capacity (wal.next_lsn - wal.next_to_flush) io wal.next_lsn wal

-- What await_durable reads from the error field of a record.
unfoldable pub error_of : ℕ → List Settled → Option Bool
error_of lsn [] = none
error_of lsn (s ∷ settled) = if s.lsn == lsn then some s.failed else error_of lsn settled
