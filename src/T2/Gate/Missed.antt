-- ===== src/T2/Gate/Missed.antt =====
-- The race of ensure_chunk with stop_and_wait: the chunk is stored before the mark is raised.
use vmem_kv.Prelude.{ℕ, ◌/◌, ◌≡◌, refl, true, false, List, [], ◌∷◌, ◌==◌, ==_iff}
use vmem_kv.T2.Gate.{
  set_at, load_chunk, lock_growth, store_chunk, raise_high_chunk, acquire_slot, release_slot,
  thread_step, next_scan, stopper_step, Turn, thread, checkpoint, take_turn, run_turns, new_gate,
  stopped, holding, chunk_size,
}

-- The first thread stores the chunk of both, the second gets a handle, and the checkpoint stops the
-- writers before the first raises the mark.
unfoldable pub race : ℕ → ℕ → List Turn
race i j =
    thread i
    ∷ thread i
    ∷ thread i
    ∷ thread i
    ∷ thread j
    ∷ thread j
    ∷ thread j
    ∷ thread j
    ∷ checkpoint
    ∷ checkpoint
    ∷ checkpoint
    ∷ []

same_thread : (k : ℕ) → (k == k) ≡ true
same_thread k = (==_iff k k).1 refl

-- For any two different threads with slots in the same chunk there is a schedule from a new gate,
-- `race`, after which stop_and_wait has returned, having counted no chunk, while the second thread
-- holds a handle.
pub run_turns-race :
    (i j : ℕ)
    → (j == i) ≡ false
    → (j / chunk_size == i / chunk_size) ≡ true
    → ((run_turns (race i j) new_gate).stopper ≡ stopped 0)
      × ((run_turns (race i j) new_gate).phase j ≡ holding)
unfolding race run_turns take_turn thread_step load_chunk lock_growth store_chunk raise_high_chunk
    acquire_slot release_slot set_at next_scan stopper_step
run_turns-race i j other together = (
  simp (same_thread i, same_thread j, other, together),
  simp (same_thread i, same_thread j, other, together),
)
