-- ===== src/T2.antt =====
-- The record file, implementation/vmemkv/src/t2_flat_file.
pub mod Window
pub mod Record
pub mod Gate
