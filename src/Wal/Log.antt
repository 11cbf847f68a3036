-- ===== src/Wal/Log.antt =====
-- The log as a sequence of segments, oldest generation first: the constructor of Wal, replay over
-- all segments, and rotate_segment of implementation/vmemkv/src/wal/wal.cpp.
--
-- discover_segments is the list of the segments in ascending order of their generations, which are
-- the numbers in the files' names. What a segment holds is a parameter of the rotation: bytes, or
-- the records of which they are the encoding.
pub mod Opening
pub mod Retention
pub mod Turned
pub mod Covered
use vmem_kv.Prelude.{
  ℕ, suc, ◌+◌, ◌-◌, Bool, true, false, not, List, [], ◌∷◌, ◌++◌, leb, ltb, ◌==◌, if◌then◌else◌,
  Outcome, ok, err, ◌>>=◌,
}
use vmem_kv.Wal.Segment.{WalError, LogEntry, scan_and_validate, replay_segment}

pub record Segment {ℓ} (A : Type ℓ) : Type ℓ where
  pub generation : ℕ
  pub content : A

-- The segments that are no longer written, and the active one.
pub record Log {ℓ} (A : Type ℓ) : Type ℓ where
  pub retired : List (Segment A)
  pub active : Segment A
  pub next_lsn : ℕ
  pub poisoned : Bool

unfoldable pub segments {ℓ} : {A : Type ℓ} → Log A → List (Segment A)
segments log = log.retired ++ (log.active ∷ [])

-- The loop of the constructor: the last LSN that was found, and the segments as they are left. Only
-- the active segment, which is the last, may be cut.
unfoldable pub scan_segments :
    ℕ → List (Segment (List ℕ)) → Segment (List ℕ) → Outcome WalError (ℕ × List ℕ)
scan_segments last_valid_lsn [] active = do
  (found, kept) ← scan_and_validate active.content true
  ok (if ltb 0 found then found else last_valid_lsn, kept)
scan_segments last_valid_lsn (segment ∷ rest) active = do
  (found, kept) ← scan_and_validate segment.content false
  scan_segments (if ltb 0 found then found else last_valid_lsn) rest active

-- The constructor, where there are segments.
unfoldable pub open_segments :
    List (Segment (List ℕ)) → Segment (List ℕ) → Outcome WalError (Log (List ℕ))
unfolding scan_segments
open_segments retired active = do
  (last_valid_lsn, kept) ← scan_segments 0 retired active
  ok (record {
    retired = retired;
    active = record active { content = kept };
    next_lsn = last_valid_lsn + 1;
    poisoned = false;
  })

-- The constructor, where there is none.
abbrev pub new_log : Log (List ℕ)
new_log = record {
  retired = [];
  active = record { generation = 1; content = [] };
  next_lsn = 1;
  poisoned = false;
}

-- The entries that the callback of replay receives, segment after segment.
unfoldable pub replay_segments : List (Segment (List ℕ)) → Outcome WalError (List LogEntry)
replay_segments [] = ok []
replay_segments (segment ∷ rest) = do
  entries ← replay_segment segment.content
  more ← replay_segments rest
  ok (entries ++ more)

pub data RotateError : Type 0 where
  poisoned_log open_failed : RotateError

-- remove_quiet, which does nothing where the file does not exist.
unfoldable pub remove_generation {ℓ} : {A : Type ℓ} → ℕ → List (Segment A) → List (Segment A)
remove_generation generation [] = []
remove_generation generation (segment ∷ rest) =
    let others = remove_generation generation rest in
    if segment.generation == generation then others else segment ∷ others

-- The new segment becomes active, and the one two generations back is removed.
unfoldable pub rotate {ℓ} : {A : Type ℓ} → A → Log A → Log A
unfolding remove_generation
rotate empty log =
    let new_generation = log.active.generation + 1 in
    let retired = log.retired ++ (log.active ∷ []) in
    record log {
      retired =
          if leb 2 new_generation then remove_generation (new_generation - 2) retired else retired;
      active = record { generation = new_generation; content = empty };
    }

-- `created` says whether the open of the new file succeeds. A failure fails all pending records,
-- which poisons the log.
unfoldable pub rotate_segment {ℓ} :
    {A : Type ℓ} → Bool → A → Log A → Log A × Outcome RotateError (Unit {0})
unfolding rotate
rotate_segment created empty log =
    if log.poisoned
    then (log, err poisoned_log)
    else if created
    then (rotate empty log, ok tt)
    else (record log { poisoned = true }, err open_failed)
