-- ===== src/Store.antt =====
-- What stands between the index and the record file, implementation/vmemkv/src/vmemkv.
pub mod Ownership
pub mod Inline
pub mod Payload
