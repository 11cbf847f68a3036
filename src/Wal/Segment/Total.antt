-- ===== src/Wal/Segment/Total.antt =====
-- Any bytes at all may stand in a segment after a crash: the scan ends, and what it leaves can be
-- scanned and replayed.
use vmem_kv.Prelude.{
  ℕ, ◌+◌, ◌-◌, ◌≤◌, ◌≡◌, sym, ap, ◌∙◌, ◌⊎◌, inl, inr, false, none, some, List, length, take, drop,
  ltb, ◌==◌, ==_refl, ok, arith, length-take, length-drop, take-drop-take, Bool-cases, ltb_false→le,
  tests, not, ◌&&◌, le→ltb_false,
}
use vmem_kv.Wal.Format.{
  WalRecordHeader, compute_checksum, wal_record_magic, wal_format_version, parse_header,
}
use vmem_kv.Wal.Segment.{pread_exact, check_record, scan_step, payload_len, key_span, value_span}
use vmem_kv.Wal.Segment.Steps.{scan_step_short}

-- A read within the file succeeds.
pub pread_exact-within :
    (file : List ℕ) (size offset : ℕ)
    → offset + size ≤ length file
    → pread_exact file size offset ≡ ok (take size (drop offset file))
unfolding pread_exact
pread_exact-within file size offset h =
    let sized : length (take size (drop offset file)) ≡ size =
      omega (arith, length-take size (drop offset file), length-drop offset file) in
    rw (sized, ==_refl size)

abbrev pub header_at : List ℕ → ℕ → WalRecordHeader
header_at file offset = parse_header (take 32 (drop offset file))

abbrev pub end_at : List ℕ → ℕ → ℕ
end_at file offset = offset + (32 + payload_len (header_at file offset))

-- What one round can do: it ends the scan, or it takes a record that lies within the file.
pub data Round (file : List ℕ) (offset : ℕ) : Type 0 where
  stops : scan_step file offset ≡ ok none → Round file offset
  takes :
      offset + 32 ≤ length file
      → end_at file offset ≤ length file
      → check_record file offset (header_at file offset)
        ≡ ok (some (end_at file offset, (header_at file offset).lsn))
      → Round file offset

pub scan_step-header :
    (file : List ℕ) (offset : ℕ)
    → offset + 32 ≤ length file
    → scan_step file offset ≡ check_record file offset (header_at file offset)
unfolding scan_step
scan_step-header file offset room =
    rw
      (le→ltb_false (length file - offset) 32 (omega arith), pread_exact-within file 32 offset room)

check_record-cases :
    (file : List ℕ) (offset : ℕ) (h : WalRecordHeader)
    → offset + 32 ≤ length file
    → (check_record file offset h ≡ ok none)
      ⊎ ((offset + (32 + payload_len h) ≤ length file)
          × (check_record file offset h ≡ ok (some (offset + (32 + payload_len h), h.lsn))))
unfolding check_record
check_record-cases file offset h room =
    elim (Bool-cases
      (not (h.magic == wal_record_magic && h.format_version == wal_format_version))) [
        | inl bad ↦ inl (rw bad)
        | inr good ↦ elim (Bool-cases (ltb (length file - offset - 32) (payload_len h))) [
          | inl torn ↦ inl (rw (good, torn))
          | inr whole ↦
              let fits : offset + (32 + payload_len h) ≤ length file =
                omega (arith, ltb_false→le (length file - offset - 32) (payload_len h) whole) in
              let payload = take (payload_len h) (drop (offset + 32) file) in
              let reads = pread_exact-within file (payload_len h) (offset + 32) (omega arith) in
              elim (Bool-cases
                (compute_checksum h (key_span h payload) (value_span h payload) == h.checksum)) [
                  | inl same ↦ inr (fits, rw (good, whole, reads, same))
                  | inr differs ↦ inl (rw (good, whole, reads, differs))
                ]
        ]
      ]

pub round : (file : List ℕ) (offset : ℕ) → Round file offset
round file offset = elim (Bool-cases (ltb (length file) (offset + 32))) [
  | inl short ↦ stops (scan_step_short file offset (omega tests))
  | inr room ↦
      let within : offset + 32 ≤ length file = omega tests in
      elim (check_record-cases file offset (header_at file offset) within) [
        | inl none' ↦ stops (scan_step-header file offset within ∙ none')
        | inr some' ↦ takes within some'.0 some'.1
      ]
]

-- A round over a record that ends before a cut is the same after the cut.
module _ (file : List ℕ) (m offset : ℕ) (inside : m ≤ length file) where
  pub pread_exact-take :
      (size from : ℕ)
      → from + size ≤ m
      → pread_exact (take m file) size from ≡ pread_exact file size from
  unfolding pread_exact
  pread_exact-take size from h = rw (take-drop-take file m from size h)

  pub length-cut : length (take m file) ≡ m
  length-cut = omega (arith, length-take m file)

  pub header_at-take : offset + 32 ≤ m → header_at (take m file) offset ≡ header_at file offset
  header_at-take h = ap parse_header (take-drop-take file m offset 32 h)

  check_record-take :
      (h : WalRecordHeader)
      → offset + (32 + payload_len h) ≤ m
      → check_record (take m file) offset h ≡ check_record file offset h
  unfolding check_record
  check_record-take h fits =
      let kept : ltb (length (take m file) - offset - 32) (payload_len h) ≡ false =
        le→ltb_false (length (take m file) - offset - 32) (payload_len h)
          (omega (arith, length-cut)) in
      let whole : ltb (length file - offset - 32) (payload_len h) ≡ false =
        le→ltb_false (length file - offset - 32) (payload_len h) (omega arith) in
      rw (kept, whole, pread_exact-take (payload_len h) (offset + 32) (omega arith))

  pub scan_step-take :
      end_at file offset ≤ m → scan_step (take m file) offset ≡ scan_step file offset
  scan_step-take fits =
      scan_step-header (take m file) offset (omega (arith, length-cut))
      ∙ ap (check_record (take m file) offset) (header_at-take (omega arith))
      ∙ check_record-take (header_at file offset) fits
      ∙ sym (scan_step-header file offset (omega arith))
