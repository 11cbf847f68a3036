-- ===== src/Tests.antt =====
-- The definitions run, and the theorems applied, at concrete inputs.
mod WalTests
mod CommitTests
mod LogTests
mod BytesTests
mod T1Tests
mod T2Tests
mod StoreTests
mod GateTests
mod PublishTests
mod TableTests
mod CheckpointTests
mod DefragTests
