-- ===== src/Wal/Segment.antt =====
-- One segment file: Wal::scan_and_validate, and the body of Wal::replay for one segment.
--
-- A file is the list of its bytes. `::fstat` gives its length; pread_exact of
-- implementation/vmemkv/src/core/io.hpp reads from the list and throws on a short read. A read
-- that the system itself refuses is not modelled.
pub mod Steps
pub mod Recovery
pub mod Total
pub mod Reopen
use vmem_kv.Prelude.{
  ℕ, zero, suc, ◌+◌, ◌-◌, Bool, not, ◌&&◌, Option, none, some, List, [], ◌∷◌, length, take, drop,
  ltb, ◌==◌, if◌then◌else◌, Outcome, ok, err, ◌>>=◌,
}
use vmem_kv.Wal.Format.{
  WalRecordHeader, wal_record_header_bytes, wal_record_magic, wal_format_version, parse_header,
  compute_checksum,
}

-- `short_read` is EIO out of pread_exact, `corrupt_tail` the runtime_error about a retired
-- segment. `out_of_fuel` is no behaviour of the program: a loop of the model ran out of rounds.
pub data WalError : Type 0 where
  short_read corrupt_tail out_of_fuel : WalError

-- pread_exact
unfoldable pub pread_exact : List ℕ → ℕ → ℕ → Outcome WalError (List ℕ)
pread_exact file size offset =
    let got = take size (drop offset file) in if length got == size then ok got else err short_read

-- What the callback of replay receives.
pub record LogEntry : Type 0 where
  pub type : ℕ
  pub key : List ℕ
  pub value : List ℕ
  pub lsn : ℕ

abbrev pub payload_len : WalRecordHeader → ℕ
payload_len header = header.key_len + header.value_len

abbrev pub key_span : WalRecordHeader → List ℕ → List ℕ
key_span header payload = take header.key_len payload

abbrev pub value_span : WalRecordHeader → List ℕ → List ℕ
value_span header payload = take header.value_len (drop header.key_len payload)

-- The tests on one header. `none` is a `break`; otherwise the next offset and the record's LSN.
unfoldable pub check_record : List ℕ → ℕ → WalRecordHeader → Outcome WalError (Option (ℕ × ℕ))
check_record file offset header =
    if not (header.magic == wal_record_magic && header.format_version == wal_format_version)
    then ok none
    else if ltb (length file - offset - wal_record_header_bytes) (payload_len header)
    then ok none
    else (do
      payload ← pread_exact file (payload_len header) (offset + wal_record_header_bytes)
      let checksum = compute_checksum header (key_span header payload) (value_span header payload)
      let next = offset + (wal_record_header_bytes + payload_len header)
      ok (if checksum == header.checksum then some (next, header.lsn) else none))

-- One round of the scan, the loop's own test included.
unfoldable pub scan_step : List ℕ → ℕ → Outcome WalError (Option (ℕ × ℕ))
scan_step file offset = if ltb (length file - offset) wal_record_header_bytes then ok none else (do
  raw ← pread_exact file wal_record_header_bytes offset
  check_record file offset (parse_header raw))

-- The loop: offset and last_valid_lsn.
unfoldable pub scan_loop : ℕ → List ℕ → ℕ → ℕ → Outcome WalError (ℕ × ℕ)
scan_loop zero file offset last_valid_lsn = err out_of_fuel
scan_loop (suc fuel) file offset last_valid_lsn = do
  found ← scan_step file offset
  elim found [
    | none ↦ ok (offset, last_valid_lsn)
    | some (next, lsn) ↦ scan_loop fuel file next lsn
  ]

-- The end of the scan: what follows the last valid record is cut off, or refused.
unfoldable pub close_scan : List ℕ → Bool → ℕ → ℕ → Outcome WalError (ℕ × List ℕ)
close_scan file allow_truncate offset last_valid_lsn =
    if ltb offset (length file)
    then (if allow_truncate then ok (last_valid_lsn, take offset file) else err corrupt_tail)
    else ok (last_valid_lsn, file)

-- The last valid LSN, and the file as it is left. A round takes 32 bytes at least.
unfoldable pub scan_and_validate : List ℕ → Bool → Outcome WalError (ℕ × List ℕ)
scan_and_validate file allow_truncate = do
  (offset, last_valid_lsn) ← scan_loop (suc (length file)) file 0 0
  close_scan file allow_truncate offset last_valid_lsn

-- The loop of replay, which does not validate.
unfoldable pub replay_loop : ℕ → List ℕ → ℕ → Outcome WalError (List LogEntry)
replay_loop zero file offset = err out_of_fuel
replay_loop (suc fuel) file offset =
    let rest : Outcome WalError (List LogEntry) = do
      raw ← pread_exact file wal_record_header_bytes offset
      let header = parse_header raw
      payload ← pread_exact file (payload_len header) (offset + wal_record_header_bytes)
      let entry : LogEntry = record {
        type = header.type;
        key = key_span header payload;
        value = value_span header payload;
        lsn = header.lsn;
      }
      entries ← replay_loop fuel file (offset + (wal_record_header_bytes + payload_len header))
      ok (entry ∷ entries)
    in if ltb (length file - offset) wal_record_header_bytes then ok [] else rest

unfoldable pub replay_segment : List ℕ → Outcome WalError (List LogEntry)
replay_segment file = replay_loop (suc (length file)) file 0
