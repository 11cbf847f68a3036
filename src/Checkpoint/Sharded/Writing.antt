-- ===== src/Checkpoint/Sharded/Writing.antt =====
-- The file that the writer leaves: the sections, the boundaries, the header.
use vmem_kv.Prelude.{
  ℕ, suc, ◌+◌, ◌^◌, ◌<◌, ◌≡◌, sym, ap, ◌∙◌, List, [], ◌∷◌, ◌++◌, length, arith, append_assoc,
  append-nil,
}
use vmem_kv.Bytes.{le_bytes}
use vmem_kv.Checksum.{fnv_offset_basis64, fnv1a64_update, fnv1a64_update-append}
use vmem_kv.Checkpoint.Sharded.{
  u64, T1ChkEntry, entries_bytes, boundaries_bytes, Writer, new_writer, write_folded,
  add_shard_entries, add_shards, ShardedT1ChkFileHeader, bare_trailer, sealed_trailer, fold_header,
  trailer_bytes, finish, write_checkpoint, sharded_magic, sharded_format_version,
}

unfoldable pub section_bytes : List T1ChkEntry → List ℕ
section_bytes es = le_bytes 8 (length es) ++ entries_bytes es

unfoldable pub sections_bytes : List (List T1ChkEntry) → List ℕ
sections_bytes [] = []
sections_bytes (es ∷ shards) = section_bytes es ++ sections_bytes shards

unfoldable pub total_entries : List (List T1ChkEntry) → ℕ
total_entries [] = 0
total_entries (es ∷ shards) = length es + total_entries shards

-- A writer ahead of `w` by the bytes of some shards.
abbrev ahead : Writer → ℕ → ℕ → List ℕ → Writer
ahead w shards entries bytes = record {
  file = w.file ++ bytes;
  shard_count = w.shard_count + shards;
  total_entry_count = w.total_entry_count + entries;
  checksum = fnv1a64_update w.checksum bytes;
}

add_shard_entries-ahead :
    (es : List T1ChkEntry) (w : Writer)
    → w.shard_count + 1 < 2 ^ 64
    → w.total_entry_count + length es < 2 ^ 64
    → add_shard_entries es w ≡ ahead w 1 (length es) (section_bytes es)
unfolding add_shard_entries write_folded section_bytes
add_shard_entries-ahead es w h k = λ i. record {
  file = append_assoc w.file (le_bytes 8 (length es)) (entries_bytes es) i;
  shard_count = shards i;
  total_entry_count = entries i;
  checksum = sym (fnv1a64_update-append w.checksum (le_bytes 8 (length es)) (entries_bytes es)) i;
}
  where
    shards : u64 (w.shard_count + 1) ≡ w.shard_count + 1
    shards = omega arith

    entries : u64 (w.total_entry_count + length es) ≡ w.total_entry_count + length es
    entries = omega arith

ahead-ahead :
    (w : Writer) (s n t m : ℕ) (xs ys : List ℕ)
    → ahead (ahead w s n xs) t m ys ≡ ahead w (s + t) (n + m) (xs ++ ys)
ahead-ahead w s n t m xs ys = λ i. record {
  file = append_assoc w.file xs ys i;
  shard_count = shards i;
  total_entry_count = entries i;
  checksum = sym (fnv1a64_update-append w.checksum xs ys) i;
}
  where
    shards : w.shard_count + s + t ≡ w.shard_count + (s + t)
    shards = omega arith

    entries : w.total_entry_count + n + m ≡ w.total_entry_count + (n + m)
    entries = omega arith

add_shards-ahead :
    (shards : List (List T1ChkEntry)) (w : Writer)
    → w.shard_count + length shards < 2 ^ 64
    → w.total_entry_count + total_entries shards < 2 ^ 64
    → add_shards shards w ≡ ahead w (length shards) (total_entries shards) (sections_bytes shards)
unfolding add_shards total_entries sections_bytes fnv1a64_update
add_shards-ahead [] w h k = λ i. record {
  file = sym (append-nil w.file) i;
  shard_count = s i;
  total_entry_count = n i;
  checksum = w.checksum;
}
  where
    s : w.shard_count ≡ w.shard_count + 0
    s = omega arith

    n : w.total_entry_count ≡ w.total_entry_count + 0
    n = omega arith
add_shards-ahead (es ∷ shards) w h k =
    ap (add_shards shards) (add_shard_entries-ahead es w (omega arith) (omega arith))
    ∙ add_shards-ahead shards (ahead w 1 (length es) (section_bytes es)) (omega arith) (omega arith)
    ∙ ahead-ahead w 1 (length es) (length shards) (total_entries shards) (section_bytes es)
        (sections_bytes shards)
    ∙ ap
        (λ n.
          ahead w n (length es + total_entries shards) (section_bytes es ++ sections_bytes shards))
        (count (length shards))
  where
    count : (n : ℕ) → 1 + n ≡ suc n
    count n = omega arith

-- What the header says of the shards and the boundaries, with its checksum.
unfoldable pub final_trailer : List (List T1ChkEntry) → List (List ℕ) → ShardedT1ChkFileHeader
final_trailer shards boundaries =
    let bare : ShardedT1ChkFileHeader = record {
      magic = sharded_magic;
      format_version = sharded_format_version;
      reserved = 0;
      shard_count = length shards;
      boundary_count = length boundaries;
      total_entry_count = total_entries shards;
      checksum = 0;
    } in
    record bare {
      checksum =
          fold_header
            (fnv1a64_update (fnv1a64_update fnv_offset_basis64 (sections_bytes shards))
              (boundaries_bytes boundaries))
            bare;
    }

pub write_checkpoint-bytes :
    (shards : List (List T1ChkEntry)) (boundaries : List (List ℕ))
    → length shards < 2 ^ 64
    → total_entries shards < 2 ^ 64
    → write_checkpoint shards boundaries
      ≡ sections_bytes shards
        ++ (boundaries_bytes boundaries ++ trailer_bytes (final_trailer shards boundaries))
unfolding write_checkpoint finish write_folded sealed_trailer bare_trailer final_trailer new_writer
write_checkpoint-bytes shards boundaries h k =
    ap (finish boundaries) (
      add_shards-ahead shards new_writer (omega arith) (omega arith) ∙ λ i. record {
        file = sections_bytes shards;
        shard_count = s i;
        total_entry_count = n i;
        checksum = fnv1a64_update fnv_offset_basis64 (sections_bytes shards);
      })
    ∙ append_assoc (sections_bytes shards) (boundaries_bytes boundaries)
        (trailer_bytes (final_trailer shards boundaries))
  where
    s : 0 + length shards ≡ length shards
    s = omega arith

    n : 0 + total_entries shards ≡ total_entries shards
    n = omega arith
