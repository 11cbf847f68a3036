-- ===== src/Checkpoint/Sharded/Sections.antt =====
-- The reader of a sharded checkpoint: parse_shard_sections, parse_shard_boundaries, and the
-- constructor of ShardedT1CheckpointFile with its accessors.
--
-- Offsets and sizes are 64-bit numbers, and their sums and products wrap.
use vmem_kv.Prelude.{
  ℕ, zero, suc, ◌+◌, ◌-◌, ◌*◌, not, ◌&&◌, ◌||◌, Option, none, some, List, [], ◌∷◌, length, take,
  drop, map, ltb, ◌==◌, if◌then◌else◌, Outcome, ok, err,
}
use vmem_kv.Prelude.Options.{◌>>=◌}
use vmem_kv.Bytes.Struct.{field_at}
use vmem_kv.Checksum.{fnv_offset_basis64, fnv1a64_update}
use vmem_kv.Checkpoint.Sharded.{
  u64, entry_size, key_prefix_bytes, file_header_bytes, sharded_magic, sharded_format_version,
  T1ChkEntry, ShardedT1ChkFileHeader, parse_trailer, fold_header,
}
use vmem_kv.Checkpoint.Sharded.Entries.{read_entries, read_boundaries}

-- std::span<const T1ChkEntry>: where it starts in the mapping, and its number of entries.
pub record Span : Type 0 where
  pub start : ℕ
  pub count : ℕ

pub record ParsedShardSections : Type 0 where
  pub entries : List Span
  pub end_offset : ℕ
  pub seen_entries : ℕ
  pub checksum : ℕ

-- One round of parse_shard_sections: the span, the next offset and the checksum. Folding no bytes
-- leaves the checksum, as the source's test does.
pub record Section : Type 0 where
  pub span : Span
  pub next : ℕ
  pub folded : ℕ

unfoldable pub read_section : List ℕ → ℕ → ℕ → ℕ → Section
read_section base start entry_count checksum =
    let entry_bytes = u64 (entry_count * entry_size) in
    record {
      span = record { start = start; count = entry_count };
      next = u64 (start + entry_bytes);
      folded = fnv1a64_update checksum (take entry_bytes (drop start base));
    }

unfoldable pub parse_section : List ℕ → ℕ → ℕ → ℕ → Option Section
unfolding read_section
parse_section base payload_limit offset checksum =
    if ltb payload_limit (u64 (offset + 8))
    then none
    else (let entry_count = field_at offset 8 base in
        let counted = fnv1a64_update checksum (take 8 (drop offset base)) in
        let section = read_section base (u64 (offset + 8)) entry_count counted in
        if ltb payload_limit section.next then none else some section)

abbrev add_section : Section → ParsedShardSections → ParsedShardSections
add_section section rest = record rest { entries = section.span ∷ rest.entries }

-- `remaining` is shard_count less shard_index.
unfoldable pub parse_shard_sections :
    (remaining : ℕ) → List ℕ → ℕ → ℕ → ℕ → ℕ → Option ParsedShardSections
parse_shard_sections zero base payload_limit offset seen checksum =
    some (record { entries = []; end_offset = offset; seen_entries = seen; checksum = checksum })
parse_shard_sections (suc remaining) base payload_limit offset seen checksum = do
  section ← parse_section base payload_limit offset checksum
  rest ←
      parse_shard_sections remaining base payload_limit section.next
        (u64 (seen + section.span.count)) section.folded
  some (add_section section rest)

-- The offset of the boundaries is end_offset; what is returned is the checksum after them.
unfoldable pub parse_shard_boundaries :
    List ℕ → ℕ → ShardedT1ChkFileHeader → ParsedShardSections → Option ℕ
parse_shard_boundaries base payload_limit header sections =
    let boundary_bytes = u64 (header.boundary_count * key_prefix_bytes) in
    if not (u64 (sections.end_offset + boundary_bytes) == payload_limit)
      || not (sections.seen_entries == header.total_entry_count)
      || not (u64 (header.boundary_count + 1) == header.shard_count)
    then none
    else some
        (fnv1a64_update sections.checksum (take boundary_bytes (drop sections.end_offset base)))

-- ShardedT1CheckpointFile; the boundaries are a span as well.
pub record ShardedT1CheckpointFile : Type 0 where
  pub mapping : List ℕ
  pub spans : List Span
  pub boundaries_start : ℕ
  pub boundary_count : ℕ

pub data CheckpointError : Type 0 where
  too_small failed_validation : CheckpointError

-- The layout walk and the checksum, behind the test on magic and version.
unfoldable pub validate_sections :
    List ℕ → ℕ → ShardedT1ChkFileHeader → Option ShardedT1CheckpointFile
validate_sections base payload_limit header = do
  sections ← parse_shard_sections header.shard_count base payload_limit 0 0 fnv_offset_basis64
  checksum ← parse_shard_boundaries base payload_limit header sections
  if fold_header checksum header == header.checksum
      then some (record {
        mapping = base;
        spans = sections.entries;
        boundaries_start = sections.end_offset;
        boundary_count = header.boundary_count;
      })
      else none

unfoldable pub validate_header :
    List ℕ → ℕ → ShardedT1ChkFileHeader → Option ShardedT1CheckpointFile
validate_header base payload_limit header =
    if header.magic == sharded_magic && header.format_version == sharded_format_version
    then validate_sections base payload_limit header
    else none

abbrev or_throw : Option ShardedT1CheckpointFile → Outcome CheckpointError ShardedT1CheckpointFile
or_throw none = err failed_validation
or_throw (some file) = ok file

unfoldable pub open_checkpoint : List ℕ → Outcome CheckpointError ShardedT1CheckpointFile
open_checkpoint base =
    let payload_limit = length base - file_header_bytes in
    if ltb (length base) file_header_bytes
    then err too_small
    else or_throw (validate_header base payload_limit (parse_trailer (drop payload_limit base)))

-- The entries that a span shows.
unfoldable pub span_entries : List ℕ → Span → List T1ChkEntry
span_entries mapping span = read_entries span.count (drop span.start mapping)

unfoldable pub shard_entries : ShardedT1CheckpointFile → List (List T1ChkEntry)
unfolding span_entries
shard_entries file = map (span_entries file.mapping) file.spans

unfoldable pub boundaries : ShardedT1CheckpointFile → List (List ℕ)
boundaries file = read_boundaries file.boundary_count (drop file.boundaries_start file.mapping)
