-- ===== src/Wal.antt =====
-- The write-ahead log, implementation/vmemkv/src/wal/wal.hpp and wal.cpp: the records on disk,
-- reading them back, and recovery of a segment that a crash has cut.
pub mod Format
pub mod Segment
pub mod Commit
pub mod Log
