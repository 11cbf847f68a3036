-- ===== src/Wal/Segment/Recovery.antt =====
-- Recovery of a segment that a crash has cut: the scan, then the replay of what it leaves.
use mathlib.Core.Path.{ap₂}
use vmem_kv.Prelude.{
  ℕ, zero, suc, ◌+◌, ◌-◌, ◌≤◌, ◌<◌, ◌≡◌, refl, sym, ap, ◌∙◌, true, none, some, List, [], ◌∷◌, ◌++◌,
  map, length, take, Outcome, ok, ◌>>=◌, arith, All, length-append, append_assoc, append-nil,
  lt→ltb, le→ltb_false, take-append_length,
}
use vmem_kv.Wal.Format.{WalRecordHeader, type_code, parse_header, header_bytes}
use vmem_kv.Wal.Segment.{
  LogEntry, WalError, scan_step, scan_loop, pread_exact, payload_len, key_span, value_span,
  scan_and_validate, close_scan, replay_loop, replay_segment,
}
use vmem_kv.Wal.Segment.Steps.{
  LogRecord, IsFitting, encode, header_of, type-header_of, key_span-append, value_span-append,
  key_len-header_of, value_len-header_of, lsn-header_of, parse-header_of, file-length, pread-header,
  pread-payload, length-encode, scan_step-encode, scan_step-torn,
}

-- What the buffers of the records are, one after the other.
abbrev pub encode_log : List LogRecord → List ℕ
encode_log [] = []
encode_log (r ∷ rs) = encode r ++ encode_log rs

abbrev pub last_lsn : ℕ → List LogRecord → ℕ
last_lsn last [] = last
last_lsn last (r ∷ rs) = last_lsn r.lsn rs

abbrev pub entry_of : LogRecord → LogEntry
entry_of r = record { type = type_code r.type; key = r.key; value = r.value; lsn = r.lsn }

-- Whatever stands before such a tail, the scan ends there.
abbrev pub EndsScan : List ℕ → Type 0
EndsScan tail = (pre : List ℕ) → scan_step (pre ++ tail) (length pre) ≡ ok none

pub length-encode_log : (rs : List LogRecord) → length rs ≤ length (encode_log rs)
length-encode_log [] = omega arith
length-encode_log (r ∷ rs) =
    omega (arith, length-encode_log rs, length-append (encode r) (encode_log rs), length-encode r)

regroup : (pre xs ys tail : List ℕ) → (pre ++ xs) ++ (ys ++ tail) ≡ pre ++ ((xs ++ ys) ++ tail)
regroup pre xs ys tail = simp append_assoc

scan_loop-some :
    (fuel : ℕ) (file : List ℕ) (offset last next lsn : ℕ)
    → scan_step file offset ≡ ok (some (next, lsn))
    → scan_loop (suc fuel) file offset last ≡ scan_loop fuel file next lsn
unfolding scan_loop
scan_loop-some fuel file offset last next lsn e = rw e

close_scan-cut :
    (kept tail : List ℕ) (lsn : ℕ)
    → close_scan (kept ++ tail) true (length kept) lsn ≡ ok (lsn, kept)
unfolding close_scan
close_scan-cut kept [] lsn = rw append-nil (ground arith)
close_scan-cut kept (b ∷ tail) lsn = rw (
  lt→ltb (length kept) (length (kept ++ b ∷ tail)) (omega (arith, length-append kept (b ∷ tail))),
  take-append_length kept (b ∷ tail) (length kept) refl,
)

module _ (tail : List ℕ) (ends : EndsScan tail) where
  pub scan_loop-encode_log :
      (rs : List LogRecord) (pre : List ℕ) (fuel last : ℕ)
      → All IsFitting rs
      → length rs < fuel
      → scan_loop fuel (pre ++ (encode_log rs ++ tail)) (length pre) last
        ≡ ok (length pre + length (encode_log rs), last_lsn last rs)
  unfolding scan_loop
  scan_loop-encode_log rs pre zero last fits enough = absurd (omega arith)
  scan_loop-encode_log [] pre (suc fuel) last fits enough =
      rw (ends pre) (ap (λ n. ok (n, last)) (omega arith))
  scan_loop-encode_log (r ∷ rs) pre (suc fuel) last fits enough =
      let file = pre ++ ((encode r ++ encode_log rs) ++ tail) in
      let rest = encode_log rs ++ tail in
      scan_loop-some fuel file (length pre) last (length pre + length (encode r)) r.lsn (
        ap (λ bytes. scan_step (pre ++ bytes) (length pre))
          (append_assoc (encode r) (encode_log rs) tail)
        ∙ scan_step-encode pre rest r fits.0)
      ∙ ap₂ (λ bytes n. scan_loop fuel bytes n r.lsn)
          (sym (regroup pre (encode r) (encode_log rs) tail)) (sym (length-append pre (encode r)))
      ∙ scan_loop-encode_log rs (pre ++ encode r) fuel r.lsn fits.1 (omega arith)
      ∙ ap (λ n. ok (n, last_lsn r.lsn rs))
          (omega (arith, length-append pre (encode r), length-append (encode r) (encode_log rs)))

  -- The scan keeps the whole records and cuts the rest off.
  pub scan_and_validate-encode_log :
      (rs : List LogRecord)
      → All IsFitting rs
      → scan_and_validate (encode_log rs ++ tail) true ≡ ok (last_lsn 0 rs, encode_log rs)
  unfolding scan_and_validate
  scan_and_validate-encode_log rs fits =
      ap (λ found. found >>= λ at_end. close_scan (encode_log rs ++ tail) true at_end.0 at_end.1)
        (scan_loop-encode_log rs [] (suc (length (encode_log rs ++ tail))) 0 fits
          (omega (arith, length-encode_log rs, length-append (encode_log rs) tail)))
      ∙ ap (λ n. close_scan (encode_log rs ++ tail) true n (last_lsn 0 rs)) (omega arith)
      ∙ close_scan-cut (encode_log rs) tail (last_lsn 0 rs)

abbrev entry_from : WalRecordHeader → List ℕ → LogEntry
entry_from header payload = record {
  type = header.type;
  key = key_span header payload;
  value = value_span header payload;
  lsn = header.lsn;
}

entry_from-header_of :
    (r : LogRecord) → IsFitting r → entry_from (header_of r) (r.key ++ r.value) ≡ entry_of r
entry_from-header_of r fits = λ i. record {
  type = type-header_of r i;
  key = key_span-append (header_of r) r.key r.value (key_len-header_of r fits) i;
  value =
      value_span-append (header_of r) r.key r.value (key_len-header_of r fits)
        (value_len-header_of r fits) i;
  lsn = lsn-header_of r i;
}

abbrev then_entry : LogEntry → Outcome WalError (List LogEntry) → Outcome WalError (List LogEntry)
then_entry entry rest = rest >>= λ entries. ok (entry ∷ entries)

replay_loop_step :
    (fuel : ℕ) (file raw payload : List ℕ) (offset : ℕ) (header : WalRecordHeader)
    → parse_header raw ≡ header
    → offset + 32 ≤ length file
    → pread_exact file 32 offset ≡ ok raw
    → pread_exact file (payload_len header) (offset + 32) ≡ ok payload
    → replay_loop (suc fuel) file offset
      ≡ then_entry
          (entry_from header payload)
          (replay_loop fuel file (offset + (32 + payload_len header)))
unfolding replay_loop
replay_loop_step fuel file raw payload offset header parsed room reads_header reads_payload =
    rw (le→ltb_false (length file - offset) 32 (omega arith), reads_header, parsed, reads_payload)

-- Replay hands the callback every record of the log, in order.
pub replay_loop-encode_log :
    (rs : List LogRecord) (pre : List ℕ) (fuel : ℕ)
    → All IsFitting rs
    → length rs < fuel
    → replay_loop fuel (pre ++ encode_log rs) (length pre) ≡ ok (map entry_of rs)
unfolding replay_loop
replay_loop-encode_log rs pre zero fits enough = absurd (omega arith)
replay_loop-encode_log [] pre (suc fuel) fits enough =
    rw (append-nil pre, lt→ltb (length pre - length pre) 32 (omega arith))
replay_loop-encode_log (r ∷ rs) pre (suc fuel) fits enough =
    let file = pre ++ (encode r ++ encode_log rs) in
    let header = header_of r in
    replay_loop_step fuel file (header_bytes header) (r.key ++ r.value) (length pre) header
      (parse-header_of r fits.0) (omega (arith, file-length pre (encode_log rs) r fits.0))
      (pread-header pre (encode_log rs) r fits.0) (pread-payload pre (encode_log rs) r fits.0)
    ∙ ap₂ then_entry (entry_from-header_of r fits.0) (
        ap₂ (replay_loop fuel) (sym (append_assoc pre (encode r) (encode_log rs))) (
          omega (
            arith,
            length-append pre (encode r),
            length-encode r,
            key_len-header_of r fits.0,
            value_len-header_of r fits.0,
          ))
        ∙ replay_loop-encode_log rs (pre ++ encode r) fuel fits.1 (omega arith))

pub replay_segment-encode_log :
    (rs : List LogRecord) → All IsFitting rs → replay_segment (encode_log rs) ≡ ok (map entry_of rs)
unfolding replay_segment
replay_segment-encode_log rs fits =
    replay_loop-encode_log rs [] (suc (length (encode_log rs))) fits
      (omega (arith, length-encode_log rs))

-- A crash leaves the records rs whole and the first n bytes of the record r. Opening the active
-- segment then succeeds, with the LSN of the last whole record (0 if there is none); and replaying
-- the file that it leaves gives exactly the records rs, in order.
pub recover-torn :
    (rs : List LogRecord) (r : LogRecord) (n : ℕ)
    → All IsFitting rs
    → IsFitting r
    → n < length (encode r)
    → (scan_and_validate (encode_log rs ++ take n (encode r)) true
        ≡ ok (last_lsn 0 rs, encode_log rs))
      × (replay_segment (encode_log rs) ≡ ok (map entry_of rs))
recover-torn rs r n fits fit cut = (
  scan_and_validate-encode_log (take n (encode r)) (λ pre. scan_step-torn pre r fit n cut) rs fits,
  replay_segment-encode_log rs fits,
)
