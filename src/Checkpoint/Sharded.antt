-- ===== src/Checkpoint/Sharded.antt =====
-- The sharded T1 checkpoint: its writer and the reader of a file, ShardedT1CheckpointWriter and
-- ShardedT1CheckpointFile.
--
-- A file is the list of its bytes. What open, fstat, mmap, write and fsync refuse is not modelled
-- here; Publish says what a crash leaves at the two paths.
pub mod Entries
pub mod Sections
pub mod Writing
pub mod Walk
pub mod RoundTrip
pub mod Bounds
use vmem_kv.Prelude.{
  ℕ, zero, suc, ◌+◌, ◌-◌, ◌*◌, ◌%◌, ◌^◌, Bool, not, ◌&&◌, ◌||◌, Option, none, some, List, [], ◌∷◌,
  ◌++◌, length, take, drop, get_elem?, ltb, ◌==◌, if◌then◌else◌, Outcome, ok, err,
}
use vmem_kv.Prelude.Options.{◌>>=◌}
use vmem_kv.Bytes.{le_bytes}
use vmem_kv.Bytes.Struct.{Field, struct_bytes, field_at}
use vmem_kv.Checksum.{fnv_offset_basis64, fnv1a64_update}

abbrev pub key_prefix_bytes : ℕ
key_prefix_bytes = 16

abbrev pub entry_size : ℕ
entry_size = 32

abbrev pub file_header_bytes : ℕ
file_header_bytes = 40

abbrev pub sharded_magic : ℕ
sharded_magic = 0x324B4C56

abbrev pub sharded_format_version : ℕ
sharded_format_version = 1

-- The key prefix is its 16 bytes.
pub record T1ChkEntry : Type 0 where
  pub key_prefix : List ℕ
  pub hash : ℕ
  pub payload_bits : ℕ

unfoldable pub entry_bytes : T1ChkEntry → List ℕ
entry_bytes e = e.key_prefix ++ struct_bytes ((8, e.hash) ∷ (8, e.payload_bits) ∷ [])

unfoldable pub entries_bytes : List T1ChkEntry → List ℕ
entries_bytes [] = []
entries_bytes (e ∷ es) = entry_bytes e ++ entries_bytes es

unfoldable pub boundaries_bytes : List (List ℕ) → List ℕ
boundaries_bytes [] = []
boundaries_bytes (b ∷ bs) = b ++ boundaries_bytes bs

-- The header, which stands at the end of the file. The three reserved bytes are one number.
pub record ShardedT1ChkFileHeader : Type 0 where
  pub magic : ℕ
  pub format_version : ℕ
  pub reserved : ℕ
  pub shard_count : ℕ
  pub boundary_count : ℕ
  pub total_entry_count : ℕ
  pub checksum : ℕ

abbrev pub trailer_fields : ShardedT1ChkFileHeader → List Field
trailer_fields h =
    (4, h.magic)
    ∷ (1, h.format_version)
    ∷ (3, h.reserved)
    ∷ (8, h.shard_count)
    ∷ (8, h.boundary_count)
    ∷ (8, h.total_entry_count)
    ∷ (8, h.checksum)
    ∷ []

unfoldable pub trailer_bytes : ShardedT1ChkFileHeader → List ℕ
trailer_bytes h = struct_bytes (trailer_fields h)

unfoldable pub parse_trailer : List ℕ → ShardedT1ChkFileHeader
parse_trailer bytes = record {
  magic = field_at 0 4 bytes;
  format_version = field_at 4 1 bytes;
  reserved = field_at 5 3 bytes;
  shard_count = field_at 8 8 bytes;
  boundary_count = field_at 16 8 bytes;
  total_entry_count = field_at 24 8 bytes;
  checksum = field_at 32 8 bytes;
}

abbrev pub u64 : ℕ → ℕ
u64 n = n % 2 ^ 64

-- FoldingChecksum::add_header, and the reader's fnv1a64_range over header_for_hash.
unfoldable pub fold_header : ℕ → ShardedT1ChkFileHeader → ℕ
fold_header state h = fnv1a64_update state (trailer_bytes (record h { checksum = 0 }))

-- ShardedT1CheckpointWriter, with the bytes written to the temporary file.
pub record Writer : Type 0 where
  pub file : List ℕ
  pub shard_count : ℕ
  pub total_entry_count : ℕ
  pub checksum : ℕ

unfoldable pub new_writer : Writer
new_writer = record {
  file = [];
  shard_count = 0;
  total_entry_count = 0;
  checksum = fnv_offset_basis64;
}

-- write_all_exact, and the checksum folded along. Nothing is done for no bytes.
unfoldable pub write_folded : List ℕ → Writer → Writer
write_folded bytes w = record w {
  file = w.file ++ bytes;
  checksum = fnv1a64_update w.checksum bytes;
}

unfoldable pub add_shard_entries : List T1ChkEntry → Writer → Writer
unfolding write_folded
add_shard_entries entries w =
    let counted = write_folded (le_bytes 8 (length entries)) w in
    let written = write_folded (entries_bytes entries) counted in
    record written {
      shard_count = u64 (w.shard_count + 1);
      total_entry_count = u64 (w.total_entry_count + length entries);
    }

-- The calls of add_shard, one for each shard.
unfoldable pub add_shards : List (List T1ChkEntry) → Writer → Writer
add_shards [] w = w
add_shards (entries ∷ shards) w = add_shards shards (add_shard_entries entries w)

unfoldable pub bare_trailer : Writer → ℕ → ShardedT1ChkFileHeader
bare_trailer w boundary_count = record {
  magic = sharded_magic;
  format_version = sharded_format_version;
  reserved = 0;
  shard_count = w.shard_count;
  boundary_count = boundary_count;
  total_entry_count = w.total_entry_count;
  checksum = 0;
}

-- The header that finish writes last.
unfoldable pub sealed_trailer : Writer → ℕ → ShardedT1ChkFileHeader
unfolding bare_trailer
sealed_trailer w boundary_count =
    let header = bare_trailer w boundary_count in
    record header { checksum = fold_header w.checksum header }

-- The bytes that finish renames over the final path.
unfoldable pub finish : List (List ℕ) → Writer → List ℕ
unfolding write_folded
finish boundaries w =
    let bounded = write_folded (boundaries_bytes boundaries) w in
    bounded.file ++ trailer_bytes (sealed_trailer bounded (length boundaries))

unfoldable pub write_checkpoint : List (List T1ChkEntry) → List (List ℕ) → List ℕ
write_checkpoint shards boundaries = finish boundaries (add_shards shards new_writer)
