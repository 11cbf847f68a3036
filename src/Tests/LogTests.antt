-- ===== src/Tests/LogTests.antt =====
-- Segments and rotation of implementation/vmemkv/src/wal/wal.cpp, run.
use mathlib.Core.List.{Memᴰ}
use vmem_kv.Prelude.{
  true, ℕ, ◌+◌, ◌^◌, ◌≤◌, ◌<◌, ◌≡◌, ◌⊎◌, refl, false, [], ◌∷◌, ◌++◌, map, take, All, ok, arith,
}
use vmem_kv.Wal.Format.{insert}
use vmem_kv.Wal.Format.Laws.{length-serialize_record}
use vmem_kv.Wal.Segment.Steps.{LogRecord, IsFitting, encode}
use vmem_kv.Wal.Segment.Recovery.{encode_log, entry_of}
use vmem_kv.Wal.Log.{rotate_segment, Segment, Log, open_segments, replay_segments, rotate}
use vmem_kv.Wal.Log.Opening.{encoded, last_found, all_records, open_segments-torn}
use vmem_kv.Wal.Log.Retention.{
  Records, Checkpointed, idle, captured, committed, Step, write, capture, commit, turn, here, next,
  Held, in_active, write_to,
}
use vmem_kv.Wal.Log.Covered.{Reach-covered}

abbrev record_of : ℕ → LogRecord
record_of n = record { type = insert; key = 97 ∷ []; value = []; lsn = n }

record_of-IsFitting : (n : ℕ) → n < 2 ^ 64 → IsFitting (record_of n)
record_of-IsFitting n h = record { key_fits = omega arith; value_fits = omega arith; lsn_fits = h }

abbrev old_segment : Segment Records
old_segment = record { generation = 3; content = record_of 1 ∷ record_of 2 ∷ [] }

abbrev new_segment : Segment Records
new_segment = record { generation = 4; content = record_of 3 ∷ [] }

open_segments-torn_example :
    (open_segments (map encoded (old_segment ∷ [])) (record {
      generation = 4;
      content = encode_log (record_of 3 ∷ []) ++ take 7 (encode (record_of 4));
    })
      ≡ ok (record {
        retired = map encoded (old_segment ∷ []);
        active = encoded new_segment;
        next_lsn = last_found 0 (old_segment ∷ new_segment ∷ []) + 1;
        poisoned = false;
      }))
    × (replay_segments (map encoded (old_segment ∷ new_segment ∷ []))
        ≡ ok (map entry_of (all_records (old_segment ∷ new_segment ∷ []))))
open_segments-torn_example =
    open_segments-torn (old_segment ∷ []) new_segment (record_of 4) 7
      ((record_of-IsFitting 1 (omega arith), (record_of-IsFitting 2 (omega arith), tt)), tt)
      (record_of-IsFitting 3 (omega arith), tt) (record_of-IsFitting 4 (omega arith))
      (omega (arith, length-serialize_record insert (97 ∷ []) [] 4))

next_follows : last_found 0 (old_segment ∷ new_segment ∷ []) ≡ 3
unfolding last_found
next_follows = refl

abbrev two_segments : Log Records
two_segments = record {
  retired = old_segment ∷ [];
  active = new_segment;
  next_lsn = 5;
  poisoned = false;
}

abbrev at_rest : Checkpointed
at_rest = record { manifest = 1; phase = idle; log = two_segments; written = record_of 3 ∷ [] }

abbrev cycle_begun : Checkpointed
cycle_begun = record at_rest { phase = captured 4 }

abbrev late_write : Checkpointed
late_write = record cycle_begun {
  log = write_to (record_of 4) two_segments;
  written = record_of 4 ∷ record_of 3 ∷ [];
}

abbrev cycle_committed : Checkpointed
cycle_committed = record late_write { manifest = 4; phase = committed }

abbrev cycle_done : Checkpointed
cycle_done = record cycle_committed { phase = idle; log = rotate [] late_write.log }

begins : Step at_rest cycle_begun
begins = capture refl refl

writes_late : Step cycle_begun late_write
writes_late = write (record_of 4) (omega arith) refl

commits : Step late_write cycle_committed
commits = commit 4 refl refl

turns : Step cycle_committed cycle_done
unfolding rotate_segment
turns = turn true refl refl

Reach-covered_example :
    All (λ r. (r.lsn ≤ 4) ⊎ Held r cycle_done.log) (record_of 4 ∷ record_of 3 ∷ [])
Reach-covered_example =
    Reach-covered at_rest cycle_done
      (record {
        resting = refl;
        started = omega arith;
        retired = ((omega arith, (omega arith, tt)), tt);
        active = (omega arith, tt);
        written = (in_active (Memᴰ.head refl), tt);
      })
      (next (next (next (next here begins) writes_late) commits) turns)

removes_old : (rotate [] two_segments).retired ≡ new_segment ∷ []
unfolding rotate
removes_old = refl
