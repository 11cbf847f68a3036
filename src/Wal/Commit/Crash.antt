-- ===== src/Wal/Commit/Crash.antt =====
-- What a crash leaves of the active segment, and what the next open makes of it.
use mathlib.Core.List.{Memᴰ}
use vmem_kv.Prelude.{ℕ, ◌≤◌, ◌<◌, ◌≡◌, true, List, [], ◌++◌, map, length, take, All, ok}
use vmem_kv.Wal.Format.{insert}
use vmem_kv.Wal.Segment.{scan_and_validate, replay_segment}
use vmem_kv.Wal.Segment.Steps.{LogRecord, IsFitting, encode}
use vmem_kv.Wal.Segment.Recovery.{encode_log, last_lsn, entry_of}
use vmem_kv.Wal.Commit.{PendingRecord, Wal, collect_batch, buffers}
use vmem_kv.Wal.Commit.Durable.{refusal, InRing, Inv, acknowledged}

-- A file that a crash may leave: what was synced; or the beginning, no shorter than that, of a state
-- that the file has had since; or of what it becomes while a batch is being written.
pub data CrashImage (capacity : ℕ) (w : Wal) (image : List ℕ) : Type 0 where
  synced : image ≡ w.disk → CrashImage capacity w image
  unsynced :
      (version : List ℕ) (n : ℕ)
      → Memᴰ version w.versions
      → length w.disk ≤ n
      → image ≡ take n version
      → CrashImage capacity w image
  writing :
      (target : ℕ) (batch : List PendingRecord) (n : ℕ)
      → collect_batch capacity target w ≡ ok batch
      → length w.disk ≤ n
      → image ≡ take n (w.file ++ buffers batch)
      → CrashImage capacity w image

-- A record that a crash may bring back though it was not acknowledged: it has failed, or is in the
-- ring.
pub data IsExtra (w : Wal) (r : LogRecord) : Type 0 where
  refused : Memᴰ (refusal r) w.settled → IsExtra w r
  in_flight : InRing w.ring r → IsExtra w r

-- The beginning of some records: whole ones and a torn one.
record Torn {ℓ} (P : LogRecord → Type ℓ) (bytes : List ℕ) : Type ℓ where
  whole : List LogRecord
  torn : LogRecord
  cut : ℕ
  split : bytes ≡ encode_log whole ++ take cut (encode torn)
  fitting : All IsFitting whole
  torn_fits : IsFitting torn
  short : cut < length (encode torn)
  good : All P whole

abbrev empty_record : LogRecord
empty_record = record { type = insert; key = []; value = []; lsn = 0 }

-- An image as the log and the beginning of some records.
record Image (w : Wal) (log image : List ℕ) : Type 0 where
  records : List LogRecord
  cut : ℕ
  shape : image ≡ log ++ take cut (encode_log records)
  fitting : All IsFitting records
  extra : All (IsExtra w) records

module _ (capacity : ℕ) (base : List LogRecord) (w : Wal) (inv : Inv base w) where
  abbrev log : List ℕ
  log = encode_log (base ++ inv.acked)

-- The acknowledged records, in the order of their batches; the records that come back with them; and
-- what opening the segment makes of the image.
pub record Survives (base : List LogRecord) (w : Wal) (image : List ℕ) : Type 0 where
  pub acked : List LogRecord
  pub named : map (λ a. a.lsn) acked ≡ acknowledged w.settled
  pub more : List LogRecord
  pub extra : All (IsExtra w) more
  pub scanned :
      scan_and_validate image true
      ≡ ok (last_lsn 0 ((base ++ acked) ++ more), encode_log ((base ++ acked) ++ more))
  pub replayed :
      replay_segment (encode_log ((base ++ acked) ++ more))
      ≡ ok (map entry_of ((base ++ acked) ++ more))
