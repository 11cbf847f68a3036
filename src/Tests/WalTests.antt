-- ===== src/Tests/WalTests.antt =====
-- The write-ahead log of implementation/vmemkv/src/wal, run.
use vmem_kv.Prelude.{◌≡◌, refl, true, false, [], ◌∷◌, ◌++◌, take, map, ok, arith}
use vmem_kv.Checksum.{fnv1a64_update, fnv_offset_basis64}
use vmem_kv.Bytes.{le_bytes, le_value}
use vmem_kv.Wal.Format.{
  insert, delete, serialize_record, header_bytes, parse_header, compute_checksum,
}
use vmem_kv.Wal.Segment.{
  scan_and_validate, scan_loop, scan_step, check_record, close_scan, pread_exact, replay_segment,
}
use vmem_kv.Wal.Segment.Steps.{LogRecord, encode, length-encode}
use vmem_kv.Wal.Segment.Recovery.{encode_log, entry_of, recover-torn}
use vmem_kv.Wal.Segment.Reopen.{Opened, reopen}

abbrev first : LogRecord
first = record { type = insert; key = 97 ∷ 98 ∷ []; value = 1 ∷ 2 ∷ 3 ∷ []; lsn = 1 }

abbrev second : LogRecord
second = record { type = delete; key = 97 ∷ []; value = []; lsn = 2 }

-- The published FNV-1a test vector for "a".
fnv_of_a : fnv1a64_update fnv_offset_basis64 (97 ∷ []) ≡ 0xaf63dc4c8601ec8c
unfolding fnv1a64_update
fnv_of_a = refl

scan_two :
    scan_and_validate (encode_log (first ∷ second ∷ [])) false
    ≡ ok (2, encode_log (first ∷ second ∷ []))
unfolding scan_and_validate scan_loop scan_step check_record close_scan pread_exact serialize_record
    parse_header header_bytes le_bytes le_value fnv1a64_update compute_checksum
scan_two = refl

recover-torn_example :
    (scan_and_validate (encode_log (first ∷ []) ++ take 20 (encode second)) true
      ≡ ok (1, encode_log (first ∷ [])))
    × (replay_segment (encode_log (first ∷ [])) ≡ ok (map entry_of (first ∷ [])))
recover-torn_example =
    recover-torn (first ∷ []) second 20 (omega arith) (omega arith)
      (omega (arith, length-encode second))

reopen_example : Opened (1 ∷ 2 ∷ 3 ∷ [])
reopen_example = reopen (1 ∷ 2 ∷ 3 ∷ [])
