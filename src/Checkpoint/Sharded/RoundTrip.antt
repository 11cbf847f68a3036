-- ===== src/Checkpoint/Sharded/RoundTrip.antt =====
-- A finished checkpoint file is opened, and shows what was written.
use vmem_kv.Prelude.{
  ℕ, ◌+◌, ◌-◌, ◌*◌, ◌^◌, ◌<◌, ◌≡◌, refl, sym, ap, ◌∙◌, some, List, ◌++◌, length, drop, All, ok,
  ◌>>=◌, arith, length-append, drop-append_length, drop-drop, le→ltb_false, ==_refl,
}
use vmem_kv.Bytes.Struct.{length-struct_bytes, field_at-struct_bytes_only}
use vmem_kv.Checksum.{fnv_offset_basis64, fnv1a64_update, fnv1a64_update-lt}
use vmem_kv.Checkpoint.Sharded.{
  T1ChkEntry, boundaries_bytes, ShardedT1ChkFileHeader, trailer_bytes, trailer_fields,
  parse_trailer, fold_header, write_checkpoint, sharded_magic, sharded_format_version,
}
use vmem_kv.Checkpoint.Sharded.Entries.{
  IsPrefix, length-boundaries_bytes, read_boundaries-boundaries_bytes,
}
use vmem_kv.Checkpoint.Sharded.Sections.{
  ParsedShardSections, parse_shard_sections, parse_shard_boundaries, validate_sections,
  validate_header, open_checkpoint, shard_entries, boundaries, ShardedT1CheckpointFile,
}
use vmem_kv.Checkpoint.Sharded.Writing.{
  sections_bytes, total_entries, final_trailer, write_checkpoint-bytes,
}
use vmem_kv.Checkpoint.Sharded.Walk.{
  AreEntries, spans_from, parse_shard_sections-sections_bytes, map-span_entries,
  parse_shard_boundaries-boundaries_bytes, length-sections_bytes,
}

-- The size of the file: the counts and the entries of the shards, the boundaries, the header.
unfoldable pub checkpoint_size : List (List T1ChkEntry) → List (List ℕ) → ℕ
checkpoint_size shards bounds =
    length shards * 8 + total_entries shards * 32 + length bounds * 16 + 40

-- What a reader of the file sees: the shards, and the boundaries between them.
pub record Contents : Type 0 where
  pub shards : List (List T1ChkEntry)
  pub bounds : List (List ℕ)

unfoldable pub contents : ShardedT1CheckpointFile → Contents
contents f = record { shards = shard_entries f; bounds = boundaries f }

module _ (shards : List (List T1ChkEntry)) (bounds : List (List ℕ)) (entries : AreEntries shards)
    (prefixes : All IsPrefix bounds) (between : length bounds + 1 ≡ length shards)
    (small : checkpoint_size shards bounds < 2 ^ 64) where
  abbrev header : ShardedT1ChkFileHeader
  header = final_trailer shards bounds

  abbrev file : List ℕ
  file = sections_bytes shards ++ (boundaries_bytes bounds ++ trailer_bytes header)

  abbrev limit : ℕ
  limit = length (sections_bytes shards) + length (boundaries_bytes bounds)

  limit-lt : limit + 40 < 2 ^ 64
  unfolding checkpoint_size
  limit-lt =
      omega (
        arith,
        small,
        length-sections_bytes shards entries,
        length-boundaries_bytes bounds prefixes,
      )

  counts-lt : (length shards < 2 ^ 64) × (total_entries shards < 2 ^ 64)
  unfolding checkpoint_size
  counts-lt = (omega (arith, small), omega (arith, small))

  length-trailer : length (trailer_bytes header) ≡ 40
  unfolding trailer_bytes
  length-trailer = length-struct_bytes (trailer_fields header)

  length-file : length file ≡ limit + 40
  length-file = omega (
    arith,
    length-append (sections_bytes shards) (boundaries_bytes bounds ++ trailer_bytes header),
    length-append (boundaries_bytes bounds) (trailer_bytes header),
    length-trailer,
  )

  behind_sections :
      drop (length (sections_bytes shards)) file ≡ boundaries_bytes bounds ++ trailer_bytes header
  behind_sections =
      drop-append_length (sections_bytes shards) _ (length (sections_bytes shards)) refl

  behind_payload : drop limit file ≡ trailer_bytes header
  behind_payload =
      sym (drop-drop (length (sections_bytes shards)) (length (boundaries_bytes bounds)) file)
      ∙ ap (drop (length (boundaries_bytes bounds))) behind_sections
      ∙ drop-append_length (boundaries_bytes bounds) (trailer_bytes header)
          (length (boundaries_bytes bounds)) refl

  checksum-lt : header.checksum < 256 ^ 8
  unfolding final_trailer fold_header
  checksum-lt = fnv1a64_update-lt _ _ (
      fnv1a64_update-lt _ (boundaries_bytes bounds)
        (fnv1a64_update-lt fnv_offset_basis64 (sections_bytes shards) (omega arith)))

  parse_trailer-trailer_bytes : parse_trailer (trailer_bytes header) ≡ header
  unfolding trailer_bytes parse_trailer final_trailer
  parse_trailer-trailer_bytes = λ i. record {
    magic =
        field_at-struct_bytes_only (trailer_fields header) 0 4 sharded_magic refl (omega arith) i;
    format_version =
        field_at-struct_bytes_only (trailer_fields header) 1 1 sharded_format_version refl
          (omega arith) i;
    reserved = field_at-struct_bytes_only (trailer_fields header) 2 3 0 refl (omega arith) i;
    shard_count =
        field_at-struct_bytes_only (trailer_fields header) 3 8 (length shards) refl
          (omega (arith, counts-lt)) i;
    boundary_count =
        field_at-struct_bytes_only (trailer_fields header) 4 8 (length bounds) refl
          (omega (arith, counts-lt, between)) i;
    total_entry_count =
        field_at-struct_bytes_only (trailer_fields header) 5 8 (total_entries shards) refl
          (omega (arith, counts-lt)) i;
    checksum =
        field_at-struct_bytes_only (trailer_fields header) 6 8 header.checksum refl checksum-lt i;
  }

  abbrev walked : ParsedShardSections
  walked = record {
    entries = spans_from 0 shards;
    end_offset = length (sections_bytes shards);
    seen_entries = total_entries shards;
    checksum = fnv1a64_update fnv_offset_basis64 (sections_bytes shards);
  }

  sections-walked :
      parse_shard_sections (length shards) file limit 0 0 fnv_offset_basis64 ≡ some walked
  sections-walked =
      parse_shard_sections-sections_bytes shards file limit 0 0 fnv_offset_basis64
        (boundaries_bytes bounds ++ trailer_bytes header) refl (omega arith)
        (omega (arith, limit-lt)) (omega (arith, counts-lt)) entries
      ∙ λ i. some (record walked { end_offset = e i; seen_entries = n i })
    where
      e : 0 + length (sections_bytes shards) ≡ length (sections_bytes shards)
      e = omega arith

      n : 0 + total_entries shards ≡ total_entries shards
      n = omega arith

  boundaries-walked :
      parse_shard_boundaries file limit header walked
      ≡ some (fnv1a64_update walked.checksum (boundaries_bytes bounds))
  unfolding final_trailer
  boundaries-walked =
      parse_shard_boundaries-boundaries_bytes file limit header walked bounds (trailer_bytes header)
        behind_sections refl (omega (arith, limit-lt)) prefixes refl (omega (arith, between))
        (omega (arith, between, counts-lt)) refl

  abbrev opened : ShardedT1CheckpointFile
  opened = record {
    mapping = file;
    spans = spans_from 0 shards;
    boundaries_start = length (sections_bytes shards);
    boundary_count = length bounds;
  }

  checksum-header :
      fold_header (fnv1a64_update walked.checksum (boundaries_bytes bounds)) header
      ≡ header.checksum
  unfolding final_trailer fold_header trailer_bytes
  checksum-header = refl

  validate_sections-opened : validate_sections file limit header ≡ some opened
  unfolding validate_sections final_trailer
  validate_sections-opened =
      rw (sections-walked, boundaries-walked, checksum-header, ==_refl header.checksum) refl

  validate_header-opened : validate_header file limit header ≡ some opened
  unfolding validate_header final_trailer
  validate_header-opened = validate_sections-opened

  open_checkpoint-file : open_checkpoint file ≡ ok opened
  unfolding open_checkpoint
  open_checkpoint-file =
      let cut : length file - 40 ≡ limit = omega (arith, length-file) in
      rw
        (
          le→ltb_false (length file) 40 (omega (arith, length-file)),
          cut,
          behind_payload,
          parse_trailer-trailer_bytes,
          validate_header-opened,
        )
        refl

  shard_entries-opened : shard_entries opened ≡ shards
  unfolding shard_entries
  shard_entries-opened =
      map-span_entries shards file limit 0 (boundaries_bytes bounds ++ trailer_bytes header) refl
        (omega arith) (omega (arith, limit-lt)) entries

  boundaries-opened : boundaries opened ≡ bounds
  unfolding boundaries
  boundaries-opened =
      rw behind_sections (read_boundaries-boundaries_bytes bounds (trailer_bytes header) prefixes)

  -- A checkpoint that is written shard by shard and finished opens, and shows the same shards with
  -- the same entries in the same order, and the same boundaries. The conditions: the fields fit
  -- their widths, there is one boundary less than there are shards, and the file is smaller
  -- than 2 ^ 64 bytes.
  pub open_checkpoint-write_checkpoint :
      (open_checkpoint (write_checkpoint shards bounds) >>= λ f. ok (contents f))
      ≡ ok (record { shards = shards; bounds = bounds })
  unfolding contents
  open_checkpoint-write_checkpoint =
      rw (write_checkpoint-bytes shards bounds counts-lt.0 counts-lt.1, open_checkpoint-file)
        (λ i. ok (record { shards = shard_entries-opened i; bounds = boundaries-opened i }))
