-- ===== src/Wal/Commit/Steps.antt =====
-- The interleavings of producers and leaders: what each thread does, one access at a time.
--
-- A leader's batch is one step: a slot that it reads is written by nobody else until it empties it.
use vmem_kv.Prelude.{
  ℕ, ◌%◌, ◌^◌, ◌<◌, ◌≡◌, true, false, none, some, List, [], ◌∷◌, ◌++◌, length, ok,
}
use vmem_kv.Wal.Format.{WalRecordType}
use vmem_kv.Wal.Segment.Steps.{LogRecord}
use vmem_kv.Wal.Segment.Recovery.{encode_log}
use vmem_kv.Wal.Commit.{
  PendingRecord, Wal, BatchIo, reserve_record, store_ring, collect_batch, write_and_fsync_batch,
  fail_all_pending,
}

-- The CAS of a producer, which has found its slot empty.
unfoldable pub publish_record : ℕ → PendingRecord → List PendingRecord → Wal → Wal
unfolding store_ring
publish_record capacity rec unpublished wal = record wal {
  ring = store_ring (rec.lsn % capacity) (some rec) wal.ring;
  unpublished = unpublished;
}

pub data Step (capacity : ℕ) (w u : Wal) : Type 0 where
  reserve :
      (type : WalRecordType) (key value : List ℕ) (rec : PendingRecord)
      → length key < 2 ^ 32
      → length value < 2 ^ 32
      → w.next_lsn < 2 ^ 64
      → reserve_record type key value w ≡ ok (rec, u)
      → Step capacity w u
  publish :
      (pre : List PendingRecord) (rec : PendingRecord) (post : List PendingRecord)
      → w.unpublished ≡ pre ++ (rec ∷ post)
      → w.ring (rec.lsn % capacity) ≡ none
      → u ≡ publish_record capacity rec (pre ++ post) w
      → Step capacity w u
  flush :
      (target : ℕ) (io : BatchIo) (batch : List PendingRecord)
      → io.fstat_ok ≡ true
      → io.ftruncate_ok ≡ true
      → collect_batch capacity target w ≡ ok batch
      → u ≡ write_and_fsync_batch capacity io batch w
      → Step capacity w u
  fail : fail_all_pending capacity w ≡ ok u → Step capacity w u

-- A log that was opened with some records in its active segment.
unfoldable pub opened : List LogRecord → ℕ → Wal
opened rs next = record {
  file = encode_log rs;
  disk = encode_log rs;
  versions = [];
  ring = λ slot. none;
  unpublished = [];
  next_lsn = next;
  next_to_flush = next;
  highest_settled_lsn = 0;
  poisoned = false;
  settled = [];
}

pub data Reach (capacity : ℕ) (start : Wal) : Wal → Type 0 where
  here : Reach capacity start start
  next : {w u : Wal} → Reach capacity start w → Step capacity w u → Reach capacity start u
