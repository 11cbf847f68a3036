-- ===== src/Lib.antt =====
-- A verification library for VMemKV, the key-value store of implementation/vmemkv. Paths below are
-- from the root of the repository, and unless they say more, under implementation/vmemkv/src.
--
-- The store keeps an index in memory (t1_index), records in a memory-mapped file (t2_flat_file), a
-- write-ahead log (wal) and checkpoints of the index (checkpoint). A write goes through
-- vmemkv/write_path.hpp: the value is inlined in an index payload or appended to the file, the
-- index is updated, and the log record is made durable. Opening the store loads a checkpoint and
-- replays the log after it.
--
-- Files:
--   Prelude: the names that all modules share, with Boolean tests, lists over the native numbers
--     and the outcome of a call that may throw.
--   Bytes, Bytes/Struct: little-endian fields and structs without padding.
--   Bytes/Compare: core/bytes.hpp. Laws and Order are its proofs.
--   Serializer: encode_integral_key of api/serializer.hpp.
--   Checksum: FNV-1a64 of api/utils.hpp.
--   Table: find_slot_index and publish_slot of core/lock_free_hash_table.hpp. Found, Others and
--     Publish are proofs.
--   Wal/Format: the record format of wal/wal.hpp and Wal::reserve_record of wal/wal.cpp.
--   Wal/Segment: Wal::scan_and_validate and the body of Wal::replay for one segment, over the bytes
--     of a file. A torn write is a proper prefix of a record's bytes. Steps, Recovery, Total and
--     Reopen are proofs.
--   Wal/Commit: Wal::reserve_record, collect_batch, write_and_fsync_batch, drain_pending and
--     fail_all_pending_and_release_leadership, with the answers of the system to a batch as an
--     argument, and of the file what is read of it and what has been synced. Steps is the relation of
--     producers and leaders, Crash the files that a crash may leave; Batch, Durable, Trace and Drain are
--     proofs.
--   Wal/Log: the constructor of Wal, replay over all segments, and rotate_segment. Retention is the
--     relation of writers and of the cycles of checkpoint_internal of
--     vmemkv/checkpoint_coordinator.hpp; Opening, Turned and Covered are proofs.
--   T1/Codec: prefix, hash and inline metadata of t1_index/t1_index.hpp.
--   T1/Entry: EntrySnapshot, entry_less and entry_identity_equal.
--   T1/Bloom: optimizations/bloom_filter.hpp.
--   T1/Merge: the merge of T1Index::reorganize. Plain, Sorting, Live and Rebuild are proofs.
--   T1/Index: T1Index with get_with_hash, put and the phases of reorganize: freeze_append swaps the
--     append region, freeze_sorted freezes the sorted region for writers, publish_merged installs
--     the merged region and unfreezes both. Find, Slots, Lookup, Resolved, Put, Map, Reorganize and
--     Tombstone are proofs.
--   T2/Window: bytes written into a mapping and windows read from it.
--   T2/Record: write_record, append_default, update_value_at and make_record_view of t2_flat_file.
--     Written, Append, Stored and Update are proofs.
--   T2/Gate: WriterGate of t2_flat_file.hpp with ThreadReferenceTracker of core/reference_tracker.hpp,
--     in steps of one shared access each. Scan, Threads, Quiet and Missed are proofs.
--   Store/Ownership: T2Ownership of vmemkv/t2_ownership.hpp. Accounting and Replace are proofs.
--   Store/Inline: try_make_inline_payload of vmemkv/write_path.hpp, inline_key_len and
--     copy_inline_value of vmemkv/read_path.hpp. RoundTrip and Recover are proofs.
--   Store/Payload: the payload codec of write_entry_lockfree and base_size_hint.
--   Checkpoint/Manifest: write_manifest and read_manifest of checkpoint/checkpoint.cpp.
--   Checkpoint/Sharded: ShardedT1CheckpointWriter; Sections is ShardedT1CheckpointFile, with
--     parse_shard_sections and parse_shard_boundaries, and Entries the entries in a span. Writing,
--     Walk, RoundTrip and Bounds are proofs.
--   Checkpoint/Publish: write_via_temp_then_rename and write_fsync_close of checkpoint.cpp and
--     write_all_exact of core/io.hpp, with the answers of the system as an argument. Atomic is a proof.
--   Defrag: DefragState and is_evacuated_segment of vmemkv/defrag_controller.hpp; Trigger is
--     scan_wanted and defrag_wanted, Punch the queue and punch_evacuated_segments, Victims
--     select_victims, Offsets collect_victim_offsets, Cycle relocate_phase and defrag_cycle. Laws, Queue,
--     Sorting and Complete are proofs.
--   Tests: runs at concrete inputs.
--
-- Fuel: a round of scan_loop or replay_loop consumes a header, of 32 bytes, so one round more than
-- the file has bytes is enough; a run that is out of fuel is an error of its own, and the theorems
-- give results that are not that error. merge_loop takes an entry in each round, so the entries of
-- both sides are enough fuel. A chunk of a batch takes a record, so the records of a batch are enough
-- rounds for write_chunks, the bytes of a file for write_intervals, and the LSNs that are not settled are enough rounds for a drain. bit_ceil has 63 doublings and bit_width 64 halvings for a 64-bit word.
--
-- Not modelled: concurrency inside an operation of the index, whose operations are single steps here
-- that any schedule may order, so neither the seqlock of a slot nor the displacement of a slot by a
-- concurrent put is there; the use of the hash table in an append region, in whose place
-- find_with_index looks for the slot of the identity, and publications that race in the table; refusals of the system in file reads; a crash that mixes the bytes of several unsynced writes of a
-- segment, since a crash leaves a prefix of one state of the file; the election of a leader and
-- the waiting of its followers; scans; readers between the stores of an update in place; the watermark and the barrier;
-- a crash of the sharded checkpoint's writer; relocate_offset, which a cycle takes as
-- an argument; the checkpoint coordinator but for the order of its commit
-- and rotation, and the store on top.
-- Benchmarks, the other databases under rivals, the platform layer and the type glue of the API are
-- left out.
mod Prelude
pub mod Bytes
pub mod Checksum
pub mod Table
pub mod Checkpoint
pub mod Serializer
pub mod Wal
pub mod T1
pub mod T2
pub mod Store
pub mod Defrag
mod Tests
