-- ===== src/T1.antt =====
-- The in-memory index, implementation/vmemkv/src/t1_index.
pub mod Codec
pub mod Entry
pub mod Bloom
pub mod Merge
pub mod Index
