-- ===== src/Tests/CommitTests.antt =====
-- The group commit of implementation/vmemkv/src/wal/wal.cpp, run.
use vmem_kv.Prelude.{
  ℕ, ◌+◌, List, ◌++◌, length, take, ◌≡◌, refl, true, false, some, [], ◌∷◌, ok, err, arith,
}
use vmem_kv.Bytes.{le_bytes}
use vmem_kv.Wal.Format.{insert, serialize_record, header_bytes}
use vmem_kv.Wal.Segment.Steps.{LogRecord}
use vmem_kv.Wal.Commit.{
  PendingRecord, Wal, BatchIo, slot_mismatch, collect_batch, write_and_fsync_batch, drain_pending,
  buffers, error_of,
}
use vmem_kv.Wal.Commit.Steps.{publish_record, opened}
use vmem_kv.Wal.Commit.Drain.{Drained, drain_pending-Drained}

-- A system that does all it is asked.
abbrev good_io : BatchIo
good_io = record {
  writev = λ chunk size. size;
  fdatasync_ok = true;
  fstat_ok = true;
  ftruncate_ok = true;
}

abbrev first : PendingRecord
first = record { lsn = 1; buffer = serialize_record insert (97 ∷ []) (7 ∷ []) 1 }

abbrev empty_log : Wal
empty_log = opened [] 1

abbrev reserved_log : Wal
reserved_log = record empty_log { next_lsn = 2; unpublished = first ∷ [] }

abbrev published_log : Wal
published_log = publish_record 2 first [] reserved_log

abbrev flushed_log : Wal
flushed_log = write_and_fsync_batch 2 good_io (first ∷ []) published_log

abbrev torn : LogRecord
torn = record { type = insert; key = 98 ∷ []; value = []; lsn = 2 }

-- The crash comes while a second record is being written behind the first, which has been synced:
-- some bytes of it are in the file.
abbrev later : PendingRecord
later = record { lsn = 2; buffer = serialize_record insert (98 ∷ []) [] 2 }

abbrev later_reserved : Wal
later_reserved = record flushed_log { next_lsn = 3; unpublished = later ∷ [] }

abbrev later_published : Wal
later_published = publish_record 2 later [] later_reserved

abbrev cut_at : ℕ
cut_at = length later_published.disk + 5

abbrev crashed : List ℕ
crashed = take cut_at (later_published.file ++ buffers (later ∷ []))

drain_pending-Drained_example :
    (u : Wal) × (drain_pending 2 (λ lsn. good_io) published_log ≡ ok u)
    × Drained published_log (first ∷ []) u
unfolding opened publish_record
drain_pending-Drained_example =
    drain_pending-Drained 2 (λ lsn. good_io) published_log (first ∷ []) (refl, refl, tt) refl
      (omega arith)

acknowledges_first : error_of 1 flushed_log.settled ≡ some false
unfolding opened publish_record write_and_fsync_batch error_of buffers serialize_record header_bytes
    le_bytes
acknowledges_first = refl

-- The producer of LSN 2 has published to the one slot before that of LSN 1.
abbrev second : PendingRecord
second = record { lsn = 2; buffer = [] }

abbrev overtaken_log : Wal
overtaken_log =
    publish_record 1 second (first ∷ [])
      (record empty_log { next_lsn = 3; unpublished = second ∷ first ∷ [] })

mismatches : collect_batch 1 3 overtaken_log ≡ err slot_mismatch
unfolding opened publish_record collect_batch
mismatches = refl
