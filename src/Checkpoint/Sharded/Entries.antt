-- ===== src/Checkpoint/Sharded/Entries.antt =====
-- Entries in the mapped file: spans of T1ChkEntry and of T1ChkKeyPrefix, read where they stand.
use vmem_kv.Prelude.{
  ℕ, zero, suc, ◌+◌, ◌*◌, ◌^◌, ◌<◌, ◌≡◌, refl, ap, ◌∙◌, List, [], ◌∷◌, ◌++◌, length, take, drop,
  All, arith, length-append, take-append_length, drop-append_length, drop-append_more, append_assoc,
}
use vmem_kv.Bytes.Struct.{Field, struct_bytes, field_at, length-struct_bytes, field_at-struct_bytes}
use vmem_kv.Checkpoint.Sharded.{T1ChkEntry, entry_bytes, entries_bytes, boundaries_bytes}

unfoldable pub parse_entry : List ℕ → T1ChkEntry
parse_entry bytes = record {
  key_prefix = take 16 bytes;
  hash = field_at 16 8 bytes;
  payload_bits = field_at 24 8 bytes;
}

-- `n` entries from the start of the bytes.
unfoldable pub read_entries : ℕ → List ℕ → List T1ChkEntry
read_entries zero bytes = []
read_entries (suc n) bytes = parse_entry bytes ∷ read_entries n (drop 32 bytes)

unfoldable pub read_boundaries : ℕ → List ℕ → List (List ℕ)
read_boundaries zero bytes = []
read_boundaries (suc n) bytes = take 16 bytes ∷ read_boundaries n (drop 16 bytes)

-- The widths of the struct's fields.
pub record IsEntry (e : T1ChkEntry) : Type 0 where
  pub prefix_length : length e.key_prefix ≡ 16
  pub hash_fits : e.hash < 256 ^ 8
  pub payload_fits : e.payload_bits < 256 ^ 8

abbrev pub IsPrefix : List ℕ → Type 0
IsPrefix b = length b ≡ 16

abbrev tail_fields : T1ChkEntry → List Field
tail_fields e = (8, e.hash) ∷ (8, e.payload_bits) ∷ []

length-entry_bytes : (e : T1ChkEntry) → IsEntry e → length (entry_bytes e) ≡ 32
unfolding entry_bytes
length-entry_bytes e h = omega (
  arith,
  length-append e.key_prefix (struct_bytes (tail_fields e)),
  length-struct_bytes (tail_fields e),
  h.prefix_length,
)

pub length-entries_bytes :
    (es : List T1ChkEntry) → All IsEntry es → length (entries_bytes es) ≡ length es * 32
unfolding entries_bytes
length-entries_bytes [] h = refl
length-entries_bytes (e ∷ es) h = omega (
  arith,
  length-append (entry_bytes e) (entries_bytes es),
  length-entry_bytes e h.0,
  length-entries_bytes es h.1,
)

pub length-boundaries_bytes :
    (bs : List (List ℕ)) → All IsPrefix bs → length (boundaries_bytes bs) ≡ length bs * 16
unfolding boundaries_bytes
length-boundaries_bytes [] h = refl
length-boundaries_bytes (b ∷ bs) h =
    omega (arith, length-append b (boundaries_bytes bs), length-boundaries_bytes bs h.1, h.0)

-- A field behind the key prefix.
field_at-behind_prefix :
    (e : T1ChkEntry) (rest : List ℕ) (at width : ℕ)
    → IsEntry e
    → field_at (16 + at) width (entry_bytes e ++ rest)
      ≡ field_at at width (struct_bytes (tail_fields e) ++ rest)
unfolding entry_bytes
field_at-behind_prefix e rest at width h = rw append_assoc (
    ap (λ bytes. field_at 0 width bytes)
      (drop-append_more e.key_prefix (struct_bytes (tail_fields e) ++ rest) 16 at (16 + at)
        h.prefix_length refl))

prefix_first :
    (e : T1ChkEntry) (rest : List ℕ) → IsEntry e → take 16 (entry_bytes e ++ rest) ≡ e.key_prefix
unfolding entry_bytes
prefix_first e rest h =
    rw append_assoc
      (take-append_length e.key_prefix (struct_bytes (tail_fields e) ++ rest) 16 h.prefix_length)

parse_entry-entry_bytes :
    (e : T1ChkEntry) (rest : List ℕ) → IsEntry e → parse_entry (entry_bytes e ++ rest) ≡ e
unfolding parse_entry
parse_entry-entry_bytes e rest h = λ i. record {
  key_prefix = prefix_first e rest h i;
  hash =
      (field_at-behind_prefix e rest 0 8 h
          ∙ field_at-struct_bytes (tail_fields e) 0 8 e.hash rest refl h.hash_fits)
        i;
  payload_bits =
      (field_at-behind_prefix e rest 8 8 h
          ∙ field_at-struct_bytes (tail_fields e) 1 8 e.payload_bits rest refl h.payload_fits)
        i;
}

pub read_entries-entries_bytes :
    (es : List T1ChkEntry) (rest : List ℕ)
    → All IsEntry es
    → read_entries (length es) (entries_bytes es ++ rest) ≡ es
unfolding read_entries entries_bytes
read_entries-entries_bytes [] rest h = refl
read_entries-entries_bytes (e ∷ es) rest h =
    rw
      (
        append_assoc,
        parse_entry-entry_bytes e (entries_bytes es ++ rest) h.0,
        drop-append_length (entry_bytes e) (entries_bytes es ++ rest) 32 (length-entry_bytes e h.0),
        read_entries-entries_bytes es rest h.1,
      )
      refl

pub read_boundaries-boundaries_bytes :
    (bs : List (List ℕ)) (rest : List ℕ)
    → All IsPrefix bs
    → read_boundaries (length bs) (boundaries_bytes bs ++ rest) ≡ bs
unfolding read_boundaries boundaries_bytes
read_boundaries-boundaries_bytes [] rest h = refl
read_boundaries-boundaries_bytes (b ∷ bs) rest h =
    rw
      (
        append_assoc,
        take-append_length b (boundaries_bytes bs ++ rest) 16 h.0,
        drop-append_length b (boundaries_bytes bs ++ rest) 16 h.0,
        read_boundaries-boundaries_bytes bs rest h.1,
      )
      refl
