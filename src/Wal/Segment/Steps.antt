-- ===== src/Wal/Segment/Steps.antt =====
-- One round of the scan: over a whole record, over a record that a crash has cut, and at the end.
use mathlib.Core.Path.{ap₂}
use native.Mathlib.Decide.{dec_lt}
use vmem_kv.Prelude.{
  take-append_more, ℕ, ◌+◌, ◌-◌, ◌^◌, ◌≤◌, ◌<◌, ◌≡◌, refl, sym, ap, ◌∙◌, none, some, List, ◌++◌,
  length, take, ==_refl, ok, arith, length-append, length-take, take-append_length,
  drop-append_length, take_all, append_assoc,
}
use vmem_kv.Wal.Format.{
  wal_record_magic, wal_format_version, type_code, WalRecordType, WalRecordHeader, header_bytes,
  parse_header, bare_header, record_header, serialize_record, compute_checksum, checksum_header,
}
use vmem_kv.Wal.Format.Laws.{
  length-header_bytes, length-serialize_record, parse_header-header_bytes, record_header-IsInRange,
}
use vmem_kv.Wal.Segment.{pread_exact, check_record, scan_step, key_span, value_span}

-- A record as a caller of reserve_insert, reserve_update or reserve_delete describes it.
pub record LogRecord : Type 0 where
  pub type : WalRecordType
  pub key : List ℕ
  pub value : List ℕ
  pub lsn : ℕ

abbrev pub encode : LogRecord → List ℕ
encode r = serialize_record r.type r.key r.value r.lsn

-- The lengths fit the header's 32-bit fields, and the LSN its 64-bit field.
pub record IsFitting (r : LogRecord) : Type 0 where
  pub key_fits : length r.key < 2 ^ 32
  pub value_fits : length r.value < 2 ^ 32
  pub lsn_fits : r.lsn < 2 ^ 64

-- A read that stays in a known part of the file.
pub pread_exact-append :
    (pre xs post : List ℕ) (size offset : ℕ)
    → length pre ≡ offset
    → length xs ≡ size
    → pread_exact (pre ++ (xs ++ post)) size offset ≡ ok xs
unfolding pread_exact
pread_exact-append pre xs post size offset at sized = rw (
  drop-append_length pre (xs ++ post) offset at,
  take-append_length xs post size sized,
  sized,
  ==_refl size,
)

abbrev pub header_of : LogRecord → WalRecordHeader
header_of r = record_header r.type r.key r.value r.lsn

-- The checksum that is stored is the checksum that the scan computes.
checksum-header_of :
    (r : LogRecord) → compute_checksum (header_of r) r.key r.value ≡ (header_of r).checksum
unfolding record_header compute_checksum checksum_header bare_header
checksum-header_of r = refl

pub key_len-header_of : (r : LogRecord) → IsFitting r → (header_of r).key_len ≡ length r.key
unfolding record_header bare_header
key_len-header_of r fits = omega (arith, fits.key_fits)

pub value_len-header_of : (r : LogRecord) → IsFitting r → (header_of r).value_len ≡ length r.value
unfolding record_header bare_header
value_len-header_of r fits = omega (arith, fits.value_fits)

-- The spans of a payload, where the header has its lengths.
pub key_span-append :
    (h : WalRecordHeader) (key value : List ℕ)
    → h.key_len ≡ length key
    → key_span h (key ++ value) ≡ key
key_span-append h key value e = take-append_length key value h.key_len (sym e)

pub value_span-append :
    (h : WalRecordHeader) (key value : List ℕ)
    → h.key_len ≡ length key
    → h.value_len ≡ length value
    → value_span h (key ++ value) ≡ value
value_span-append h key value ek ev =
    ap (take h.value_len) (drop-append_length key value h.key_len (sym ek))
    ∙ take_all h.value_len value (omega arith)

module _ (file key value : List ℕ) (offset : ℕ) (h : WalRecordHeader) where
  check_record_valid :
      h.magic ≡ wal_record_magic
      → h.format_version ≡ wal_format_version
      → h.key_len ≡ length key
      → h.value_len ≡ length value
      → offset + (32 + (length key + length value)) ≤ length file
      → pread_exact file (h.key_len + h.value_len) (offset + 32) ≡ ok (key ++ value)
      → compute_checksum h key value ≡ h.checksum
      → check_record file offset h ≡ ok (some (offset + (32 + (length key + length value)), h.lsn))
  unfolding check_record
  check_record_valid em ev ek el room reads sum =
      ground (arith, key_span-append h key value ek, value_span-append h key value ek el)

  -- A payload that the file cannot hold.
  check_record_torn :
      offset + 32 ≤ length file
      → length file < offset + (32 + (h.key_len + h.value_len))
      → check_record file offset h ≡ ok none
  unfolding check_record
  check_record_torn room short = ground arith

scan_step_read :
    (file raw : List ℕ) (offset : ℕ)
    → offset + 32 ≤ length file
    → pread_exact file 32 offset ≡ ok raw
    → scan_step file offset ≡ check_record file offset (parse_header raw)
unfolding scan_step
scan_step_read file raw offset room reads = ground arith

pub type-header_of : (r : LogRecord) → (header_of r).type ≡ type_code r.type
unfolding record_header bare_header
type-header_of r = refl

-- The loop ends where less than a header is left.
pub scan_step_short :
    (file : List ℕ) (offset : ℕ) → length file < offset + 32 → scan_step file offset ≡ ok none
unfolding scan_step
scan_step_short file offset short = ground arith

-- The bytes of a record: its header, then the payload.
encode-split :
    (r : LogRecord) (post : List ℕ)
    → encode r ++ post ≡ header_bytes (header_of r) ++ ((r.key ++ r.value) ++ post)
unfolding serialize_record
encode-split r post = append_assoc (header_bytes (header_of r)) (r.key ++ r.value) post

pub magic-header_of : (r : LogRecord) → (header_of r).magic ≡ wal_record_magic
unfolding record_header bare_header
magic-header_of r = refl

version-header_of : (r : LogRecord) → (header_of r).format_version ≡ wal_format_version
unfolding record_header bare_header
version-header_of r = refl

pub lsn-header_of : (r : LogRecord) → (header_of r).lsn ≡ r.lsn
unfolding record_header bare_header
lsn-header_of r = refl

pub length-encode : (r : LogRecord) → length (encode r) ≡ 32 + (length r.key + length r.value)
length-encode r = length-serialize_record r.type r.key r.value r.lsn

pub parse-header_of :
    (r : LogRecord) → IsFitting r → parse_header (header_bytes (header_of r)) ≡ header_of r
parse-header_of r fits =
    parse_header-header_bytes (header_of r)
      (record_header-IsInRange r.type r.key r.value r.lsn fits.lsn_fits)

module _ (pre post : List ℕ) (r : LogRecord) (fits : IsFitting r) where
  pub file-length :
      length (pre ++ (encode r ++ post))
      ≡ length pre + (32 + (length r.key + length r.value) + length post)
  file-length =
      omega (
        arith,
        length-append pre (encode r ++ post),
        length-append (encode r) post,
        length-encode r,
      )

  pub pread-header :
      pread_exact (pre ++ (encode r ++ post)) 32 (length pre) ≡ ok (header_bytes (header_of r))
  pread-header =
      ap (λ file. pread_exact (pre ++ file) 32 (length pre)) (encode-split r post)
      ∙ pread_exact-append pre (header_bytes (header_of r)) ((r.key ++ r.value) ++ post) 32
          (length pre) refl (length-header_bytes (header_of r))

  pub pread-payload :
      pread_exact
        (pre ++ (encode r ++ post))
        ((header_of r).key_len + (header_of r).value_len)
        (length pre + 32)
      ≡ ok (r.key ++ r.value)
  pread-payload =
      let header = header_bytes (header_of r) in
      ap
        (λ file.
          pread_exact file ((header_of r).key_len + (header_of r).value_len) (length pre + 32))
        (ap (λ rest. pre ++ rest) (encode-split r post)
          ∙ sym (append_assoc pre header ((r.key ++ r.value) ++ post)))
      ∙ pread_exact-append (pre ++ header) (r.key ++ r.value) post
          ((header_of r).key_len + (header_of r).value_len) (length pre + 32)
          (omega (arith, length-append pre header, length-header_bytes (header_of r)))
          (omega (
            arith,
            length-append r.key r.value,
            key_len-header_of r fits,
            value_len-header_of r fits,
          ))

  -- The scan takes a whole record, whatever stands before and behind it.
  pub scan_step-encode :
      scan_step (pre ++ (encode r ++ post)) (length pre)
      ≡ ok (some (length pre + length (encode r), r.lsn))
  scan_step-encode =
      let file = pre ++ (encode r ++ post) in
      scan_step_read file (header_bytes (header_of r)) (length pre) (omega (arith, file-length))
        pread-header
      ∙ ap (check_record file (length pre)) (parse-header_of r fits)
      ∙ check_record_valid file r.key r.value (length pre) (header_of r) (magic-header_of r)
          (version-header_of r) (key_len-header_of r fits) (value_len-header_of r fits)
          (omega (arith, file-length)) pread-payload (checksum-header_of r)
      ∙ ap₂ (λ len lsn. ok (some (length pre + len, lsn))) (sym (length-encode r)) (lsn-header_of r)

-- A record of which the crash left only the first n bytes ends the scan.
module _ (pre : List ℕ) (r : LogRecord) (fits : IsFitting r) (n : ℕ)
    (cut : n < length (encode r)) where
  torn-length : length (pre ++ take n (encode r)) ≡ length pre + n
  torn-length = omega (arith, length-append pre (take n (encode r)), length-take n (encode r))

  torn-split :
      32 ≤ n
      → pre ++ take n (encode r)
        ≡ pre ++ (header_bytes (header_of r) ++ take (n - 32) (r.key ++ r.value))
  unfolding serialize_record
  torn-split long =
      ap (λ rest. pre ++ rest)
        (take-append_more (header_bytes (header_of r)) (r.key ++ r.value) n (n - 32)
          (omega (arith, length-header_bytes (header_of r))))

  torn-payload : 32 ≤ n → scan_step (pre ++ take n (encode r)) (length pre) ≡ ok none
  torn-payload long =
      let file = pre ++ take n (encode r) in
      scan_step_read file (header_bytes (header_of r)) (length pre) (omega (arith, torn-length)) (
        ap (λ bytes. pread_exact bytes 32 (length pre)) (torn-split long)
        ∙ pread_exact-append pre (header_bytes (header_of r)) (take (n - 32) (r.key ++ r.value)) 32
            (length pre) refl (length-header_bytes (header_of r)))
      ∙ ap (check_record file (length pre)) (parse-header_of r fits)
      ∙ check_record_torn file r.key r.value (length pre) (header_of r) (omega (arith, torn-length))
          (omega (
            arith,
            torn-length,
            length-encode r,
            key_len-header_of r fits,
            value_len-header_of r fits,
          ))

  pub scan_step-torn : scan_step (pre ++ take n (encode r)) (length pre) ≡ ok none
  scan_step-torn = elim (dec_lt n 32) [
    | yes short ↦
        scan_step_short (pre ++ take n (encode r)) (length pre) (omega (arith, torn-length))
    | no long ↦ torn-payload (omega arith)
  ]
