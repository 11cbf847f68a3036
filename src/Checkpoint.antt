-- ===== src/Checkpoint.antt =====
-- The checkpoint files, implementation/vmemkv/src/checkpoint/checkpoint.hpp and checkpoint.cpp: the
-- manifest, and the sharded T1 checkpoint.
pub mod Manifest
pub mod Sharded
pub mod Publish
