-- ===== src/Tests/CheckpointTests.antt =====
-- implementation/vmemkv/src/checkpoint/checkpoint.cpp, run.
use vmem_kv.Prelude.{
  ℕ, ◌+◌, ◌^◌, ◌≤◌, ◌<◌, ◌≡◌, refl, none, some, List, [], ◌∷◌, ◌++◌, length, take, replicate, All,
  ok, err, ◌>>=◌, arith,
}
use vmem_kv.Bytes.{le_bytes, le_value}
use vmem_kv.Checkpoint.Manifest.{read_manifest, write_manifest, read_manifest-write_manifest}
use vmem_kv.Checkpoint.Sharded.{T1ChkEntry, write_checkpoint, parse_trailer}
use vmem_kv.Checksum.{fnv1a64_update}
use vmem_kv.Checkpoint.Sharded.Entries.{IsEntry}
use vmem_kv.Checkpoint.Sharded.Sections.{
  validate_header, ParsedShardSections, parse_shard_sections, parse_section, read_section,
  open_checkpoint, failed_validation, too_small,
}
use vmem_kv.Checkpoint.Sharded.RoundTrip.{
  contents, checkpoint_size, open_checkpoint-write_checkpoint,
}
use vmem_kv.Checkpoint.Sharded.Bounds.{Bounded, parse_shard_sections-Bounded}
use vmem_kv.Checkpoint.Sharded.Writing.{total_entries}

read_manifest-write_manifest_example :
    (read_manifest (some (write_manifest 77 4096))
      ≡ some (record { generation = 77; t2_bytes_used = 4096 }))
    × (read_manifest (some (take 31 (write_manifest 77 4096))) ≡ none)
    × (read_manifest none ≡ none)
read_manifest-write_manifest_example =
    read_manifest-write_manifest 77 4096 (omega arith) (omega arith) 31 (omega arith)

abbrev prefix_of : ℕ → List ℕ
prefix_of b = replicate 16 b

abbrev entry_of : ℕ → T1ChkEntry
entry_of b = record { key_prefix = prefix_of b; hash = b; payload_bits = 1000 + b }

-- Two shards, of two entries and of one.
abbrev two_shards : List (List T1ChkEntry)
two_shards = (entry_of 1 ∷ entry_of 2 ∷ []) ∷ (entry_of 9 ∷ []) ∷ []

abbrev one_boundary : List (List ℕ)
one_boundary = prefix_of 9 ∷ []

open_checkpoint-write_checkpoint_example :
    (open_checkpoint (write_checkpoint two_shards one_boundary) >>= λ f. ok (contents f))
    ≡ ok (record { shards = two_shards; bounds = one_boundary })
unfolding checkpoint_size total_entries
open_checkpoint-write_checkpoint_example =
    let e : (b : ℕ) → b < 256 → IsEntry (entry_of b) =
      λ b h. record { prefix_length = refl; hash_fits = omega arith; payload_fits = omega arith } in
    open_checkpoint-write_checkpoint two_shards one_boundary
      ((e 1 (omega arith), (e 2 (omega arith), tt)), ((e 9 (omega arith), tt), tt)) (refl, tt) refl
      (omega arith)

-- A section of one entry, walked.
abbrev one_section : List ℕ
one_section = le_bytes 8 1 ++ replicate 32 5

abbrev one_span : ParsedShardSections
one_span = record {
  entries = record { start = 8; count = 1 } ∷ [];
  end_offset = 40;
  seen_entries = 1;
  checksum = fnv1a64_update (fnv1a64_update 7 (le_bytes 8 1)) (replicate 32 5);
}

parse_shard_sections-Bounded_example :
    All (Bounded 40) one_span.entries × (length one_span.entries ≡ 1) × (one_span.end_offset ≤ 40)
unfolding parse_shard_sections parse_section read_section le_bytes le_value
parse_shard_sections-Bounded_example =
    parse_shard_sections-Bounded 1 one_section 40 0 0 7 one_span (omega arith) (omega arith) refl

-- A count of 2 ^ 59 entries: its size wraps to nothing, and the bounds check lets it pass.
abbrev wrapped : List ℕ
wrapped = le_bytes 8 (2 ^ 59)

wraps :
    parse_section wrapped 8 0 7
    ≡ some (record {
      span = record { start = 8; count = 2 ^ 59 };
      next = 8;
      folded = fnv1a64_update 7 wrapped;
    })
unfolding parse_section read_section le_bytes le_value fnv1a64_update
wraps = refl

-- A file that ends early, and one of which no header is found.
reads_short : open_checkpoint (replicate 39 0) ≡ err too_small
unfolding open_checkpoint
reads_short = refl

reads_blank : open_checkpoint (replicate 48 0) ≡ err failed_validation
unfolding open_checkpoint validate_header parse_trailer le_value
reads_blank = refl
