-- ===== src/Wal/Log/Retention.antt =====
-- Checkpoint cycles and rotations lose no record that the manifest does not cover: the retention
-- argument of rotate_segment, with the order of steps of checkpoint_internal in
-- implementation/vmemkv/src/vmemkv/checkpoint_coordinator.hpp.
use mathlib.Core.List.{Memᴰ}
use vmem_kv.Prelude.{ℕ, ◌+◌, ◌-◌, ◌≤◌, ◌<◌, ◌≡◌, ◌⊎◌, Bool, List, [], ◌∷◌, ◌++◌, All}
use vmem_kv.Wal.Segment.Steps.{LogRecord}
use vmem_kv.Wal.Log.{Segment, Log, rotate_segment}

abbrev pub Records : Type 0
Records = List LogRecord

-- Where a checkpoint cycle stands, with the checkpoint_lsn it has taken.
pub data Phase : Type 0 where
  idle : Phase
  captured : ℕ → Phase
  committed : Phase

-- The manifest's LSN, the cycle, the log with the records of each segment, and every record that
-- was ever written to it.
pub record Checkpointed : Type 0 where
  pub manifest : ℕ
  pub phase : Phase
  pub log : Log Records
  pub written : Records

abbrev pub write_to : LogRecord → Log Records → Log Records
write_to r log = record log {
  active = record log.active { content = log.active.content ++ (r ∷ []) };
}

-- Writers, and the steps of a cycle: it takes next_lsn - 1, commits it in the manifest, and rotates.
-- A cycle may throw before its commit, and rotate_segment may throw too.
pub data Step (s u : Checkpointed) : Type 0 where
  reserve : u ≡ record s { log = record s.log { next_lsn = s.log.next_lsn + 1 } } → Step s u
  write :
      (r : LogRecord)
      → r.lsn < s.log.next_lsn
      → u ≡ record s { log = write_to r s.log; written = r ∷ s.written }
      → Step s u
  capture : s.phase ≡ idle → u ≡ record s { phase = captured (s.log.next_lsn - 1) } → Step s u
  commit :
      (lsn : ℕ)
      → s.phase ≡ captured lsn
      → u ≡ record s { manifest = lsn; phase = committed }
      → Step s u
  abort : (lsn : ℕ) → s.phase ≡ captured lsn → u ≡ record s { phase = idle } → Step s u
  turn :
      (created : Bool)
      → s.phase ≡ committed
      → u ≡ record s { phase = idle; log = (rotate_segment created [] s.log).0 }
      → Step s u

pub data Reach (s : Checkpointed) : Checkpointed → Type 0 where
  here : Reach s s
  next : {t u : Checkpointed} → Reach s t → Step t u → Reach s u

-- A record that is in some segment.
pub data Held (r : LogRecord) (log : Log Records) : Type 0 where
  in_active : Memᴰ r log.active.content → Held r log
  in_retired :
      (segment : Segment Records) → Memᴰ segment log.retired → Memᴰ r segment.content → Held r log

abbrev pub Older : ℕ → Segment Records → Type 0
Older bound segment = All (λ r. r.lsn < bound) segment.content

-- What the phase says of the bound below which the retired segments lie.
abbrev pub Bounded : Phase → ℕ → ℕ → ℕ → Type 0
Bounded idle bound next_lsn manifest = (bound ≤ next_lsn) × (manifest < next_lsn)
Bounded (captured lsn) bound next_lsn manifest =
    (bound ≤ lsn + 1) × (lsn < next_lsn) × (manifest ≤ lsn)
Bounded committed bound next_lsn manifest = (bound ≤ manifest + 1) × (manifest < next_lsn)

pub record Inv (s : Checkpointed) : Type 0 where
  pub bound : ℕ
  pub started : 0 < s.log.next_lsn
  pub retired : All (Older bound) s.log.retired
  pub active : Older s.log.next_lsn s.log.active
  pub staged : Bounded s.phase bound s.log.next_lsn s.manifest
  pub kept : All (λ r. (r.lsn ≤ s.manifest) ⊎ Held r s.log) s.written
