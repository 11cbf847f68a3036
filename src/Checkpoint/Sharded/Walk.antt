-- ===== src/Checkpoint/Sharded/Walk.antt =====
-- The walk over sections and boundaries that stand in a file as the writer puts them.
use vmem_kv.Prelude.{
  ℕ, ◌+◌, ◌*◌, ◌^◌, ◌≤◌, ◌<◌, ◌≡◌, refl, sym, ap, ◌∙◌, some, List, [], ◌∷◌, ◌++◌, length, take,
  drop, map, All, arith, length-append, take-append_length, drop-append_length, drop-drop,
  append_assoc, le→ltb_false, ==_refl,
}
use vmem_kv.Bytes.{le_bytes, length-le_bytes, le_value-le_bytes}
use vmem_kv.Bytes.Struct.{field_at}
use vmem_kv.Checksum.{fnv1a64_update, fnv1a64_update-append}
use vmem_kv.Checkpoint.Sharded.{
  u64, T1ChkEntry, entries_bytes, boundaries_bytes, ShardedT1ChkFileHeader,
}
use vmem_kv.Checkpoint.Sharded.Entries.{
  IsEntry, IsPrefix, length-entries_bytes, length-boundaries_bytes, read_entries-entries_bytes,
}
use vmem_kv.Checkpoint.Sharded.Sections.{
  Span, ParsedShardSections, parse_section, read_section, parse_shard_sections,
  parse_shard_boundaries, span_entries,
}
use vmem_kv.Checkpoint.Sharded.Writing.{section_bytes, sections_bytes, total_entries}

abbrev pub AreEntries : List (List T1ChkEntry) → Type 0
AreEntries = All (All IsEntry)

pub length-section_bytes :
    (es : List T1ChkEntry) → All IsEntry es → length (section_bytes es) ≡ 8 + length es * 32
unfolding section_bytes
length-section_bytes es h = omega (
  arith,
  length-append (le_bytes 8 (length es)) (entries_bytes es),
  length-le_bytes 8 (length es),
  length-entries_bytes es h,
)

-- The spans of the sections that start at an offset.
unfoldable pub spans_from : ℕ → List (List T1ChkEntry) → List Span
spans_from offset [] = []
spans_from offset (es ∷ shards) =
    record { start = offset + 8; count = length es }
    ∷ spans_from (offset + length (section_bytes es)) shards

-- A file that has a section at an offset, and the room that the section takes.
module _ (base : List ℕ) (limit offset : ℕ) (es : List T1ChkEntry) (rest : List ℕ)
    (here : drop offset base ≡ section_bytes es ++ rest)
    (room : offset + length (section_bytes es) ≤ limit) (small : limit < 2 ^ 64)
    (entries : All IsEntry es) where
  behind_count : drop (offset + 8) base ≡ entries_bytes es ++ rest
  unfolding section_bytes
  behind_count =
      sym (drop-drop offset 8 base)
      ∙ ap (drop 8) (here ∙ append_assoc (le_bytes 8 (length es)) (entries_bytes es) rest)
      ∙ drop-append_length (le_bytes 8 (length es)) (entries_bytes es ++ rest) 8
          (length-le_bytes 8 (length es))

  count_bytes : take 8 (drop offset base) ≡ le_bytes 8 (length es)
  unfolding section_bytes
  count_bytes =
      ap (take 8) (here ∙ append_assoc (le_bytes 8 (length es)) (entries_bytes es) rest)
      ∙ take-append_length (le_bytes 8 (length es)) (entries_bytes es ++ rest) 8
          (length-le_bytes 8 (length es))

  pub section_behind : drop (offset + length (section_bytes es)) base ≡ rest
  section_behind =
      sym (drop-drop offset (length (section_bytes es)) base)
      ∙ ap (drop (length (section_bytes es))) here
      ∙ drop-append_length (section_bytes es) rest (length (section_bytes es)) refl

  entry_count : field_at offset 8 base ≡ length es
  entry_count =
      rw count_bytes
        (le_value-le_bytes 8 (length es) (omega (arith, length-section_bytes es entries)))

  -- The span shows the section's entries.
  pub span_entries-section :
      span_entries base (record { start = offset + 8; count = length es }) ≡ es
  unfolding span_entries
  span_entries-section = rw behind_count (read_entries-entries_bytes es rest entries)

  pub parse_section-section :
      (checksum : ℕ)
      → parse_section base limit offset checksum
        ≡ some (record {
          span = record { start = offset + 8; count = length es };
          next = offset + length (section_bytes es);
          folded = fnv1a64_update checksum (section_bytes es);
        })
  unfolding parse_section read_section section_bytes
  parse_section-section checksum =
      let sized = length-section_bytes es entries in
      let start : u64 (offset + 8) ≡ offset + 8 = omega (arith, sized) in
      let size : u64 (length es * 32) ≡ length es * 32 = omega (arith, sized) in
      let next : u64 (offset + 8 + length es * 32) ≡ offset + length (section_bytes es) =
        omega (arith, sized) in
      rw
        (
          start,
          le→ltb_false limit (offset + 8) (omega (arith, sized)),
          entry_count,
          size,
          next,
          le→ltb_false limit (offset + length (section_bytes es)) room,
          count_bytes,
          behind_count,
          take-append_length (entries_bytes es) rest (length es * 32)
              (length-entries_bytes es entries),
          fnv1a64_update-append checksum (le_bytes 8 (length es)) (entries_bytes es),
        )
        refl

length-sections_bytes-cons :
    (es : List T1ChkEntry) (shards : List (List T1ChkEntry))
    → length (sections_bytes (es ∷ shards))
      ≡ length (section_bytes es) + length (sections_bytes shards)
unfolding sections_bytes
length-sections_bytes-cons es shards = length-append (section_bytes es) (sections_bytes shards)

-- The walk over all sections: one span for each shard, and the totals.
pub parse_shard_sections-sections_bytes :
    (shards : List (List T1ChkEntry)) (base : List ℕ) (limit offset seen checksum : ℕ)
    (rest : List ℕ)
    → drop offset base ≡ sections_bytes shards ++ rest
    → offset + length (sections_bytes shards) ≤ limit
    → limit < 2 ^ 64
    → seen + total_entries shards < 2 ^ 64
    → AreEntries shards
    → parse_shard_sections (length shards) base limit offset seen checksum
      ≡ some (record {
        entries = spans_from offset shards;
        end_offset = offset + length (sections_bytes shards);
        seen_entries = seen + total_entries shards;
        checksum = fnv1a64_update checksum (sections_bytes shards);
      })
unfolding parse_shard_sections spans_from sections_bytes total_entries fnv1a64_update
parse_shard_sections-sections_bytes [] base limit offset seen checksum rest here room small fits
      ok =
    let e : offset + 0 ≡ offset = omega arith in
    let s : seen + 0 ≡ seen = omega arith in rw (e, s) refl
parse_shard_sections-sections_bytes (es ∷ shards) base limit offset seen checksum rest here room
      small fits entries =
    let after = sections_bytes shards ++ rest in
    let split = here ∙ append_assoc (section_bytes es) (sections_bytes shards) rest in
    let sized = length-sections_bytes-cons es shards in
    let within : offset + length (section_bytes es) ≤ limit = omega (arith, sized) in
    let next = offset + length (section_bytes es) in
    let counted : u64 (seen + length es) ≡ seen + length es = omega arith in
    let end : next + length (sections_bytes shards)
        ≡ offset + length (sections_bytes (es ∷ shards)) =
      omega (arith, sized) in
    let total : seen + length es + total_entries shards
        ≡ seen + (length es + total_entries shards) =
      omega arith in
    rw
      (
        parse_section-section base limit offset es after split within small entries.0 checksum,
        counted,
        parse_shard_sections-sections_bytes shards base limit next (seen + length es)
            (fnv1a64_update checksum (section_bytes es)) rest
            (section_behind base limit offset es after split within small entries.0)
            (omega (arith, sized)) small (omega arith) entries.1,
        end,
        total,
        fnv1a64_update-append checksum (section_bytes es) (sections_bytes shards),
      )
      refl

pub map-span_entries :
    (shards : List (List T1ChkEntry)) (base : List ℕ) (limit offset : ℕ) (rest : List ℕ)
    → drop offset base ≡ sections_bytes shards ++ rest
    → offset + length (sections_bytes shards) ≤ limit
    → limit < 2 ^ 64
    → AreEntries shards
    → map (span_entries base) (spans_from offset shards) ≡ shards
unfolding spans_from sections_bytes
map-span_entries [] base limit offset rest here room small entries = refl
map-span_entries (es ∷ shards) base limit offset rest here room small entries =
    let after = sections_bytes shards ++ rest in
    let split = here ∙ append_assoc (section_bytes es) (sections_bytes shards) rest in
    let sized = length-sections_bytes-cons es shards in
    let within : offset + length (section_bytes es) ≤ limit = omega (arith, sized) in
    rw
      (
        span_entries-section base limit offset es after split within small entries.0,
        map-span_entries shards base limit (offset + length (section_bytes es)) rest
            (section_behind base limit offset es after split within small entries.0)
            (omega (arith, sized)) small entries.1,
      )
      refl

-- The boundaries that fill the file up to the header.
pub parse_shard_boundaries-boundaries_bytes :
    (base : List ℕ) (limit : ℕ) (header : ShardedT1ChkFileHeader) (sections : ParsedShardSections)
    (bs : List (List ℕ)) (rest : List ℕ)
    → drop sections.end_offset base ≡ boundaries_bytes bs ++ rest
    → sections.end_offset + length (boundaries_bytes bs) ≡ limit
    → limit < 2 ^ 64
    → All IsPrefix bs
    → header.boundary_count ≡ length bs
    → header.shard_count ≡ length bs + 1
    → length bs + 1 < 2 ^ 64
    → sections.seen_entries ≡ header.total_entry_count
    → parse_shard_boundaries base limit header sections
      ≡ some (fnv1a64_update sections.checksum (boundaries_bytes bs))
unfolding parse_shard_boundaries
parse_shard_boundaries-boundaries_bytes base limit header sections bs rest here fill small prefixes
      count shards fits seen =
    let sized = length-boundaries_bytes bs prefixes in
    let size : u64 (length bs * 16) ≡ length bs * 16 = omega (arith, sized) in
    let end : u64 (sections.end_offset + length bs * 16) ≡ limit = omega (arith, sized) in
    let next : u64 (length bs + 1) ≡ length bs + 1 = omega arith in
    rw
      (
        count,
        size,
        end,
        ==_refl limit,
        seen,
        ==_refl header.total_entry_count,
        next,
        shards,
        ==_refl (length bs + 1),
        here,
        take-append_length (boundaries_bytes bs) rest (length bs * 16) sized,
      )
      refl

-- Every shard takes 8 bytes, and every entry 32.
pub length-sections_bytes :
    (shards : List (List T1ChkEntry))
    → AreEntries shards
    → length (sections_bytes shards) ≡ length shards * 8 + total_entries shards * 32
unfolding sections_bytes total_entries
length-sections_bytes [] h = refl
length-sections_bytes (es ∷ shards) h = omega (
  arith,
  length-append (section_bytes es) (sections_bytes shards),
  length-section_bytes es h.0,
  length-sections_bytes shards h.1,
)
