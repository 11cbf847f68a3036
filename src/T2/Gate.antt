-- ===== src/T2/Gate.antt =====
-- WriterGate of implementation/vmemkv/src/t2_flat_file/t2_flat_file.hpp over ThreadReferenceTracker of
-- core/reference_tracker.hpp, one shared access at a time.
--
-- The accesses are sequentially consistent. There is one memory for the life of the store, so a
-- thread's slot is set or clear. A thread is its GlobalThreadId, below 65536.
pub mod Scan
pub mod Threads
pub mod Quiet
pub mod Missed
use vmem_kv.Prelude.{
  ℕ, suc, ◌+◌, ◌*◌, ◌/◌, ◌%◌, Bool, true, false, ◌&&◌, not, max, leb, List, [], ◌∷◌, ◌==◌,
  if◌then◌else◌,
}

-- Where a thread is: in WriterGate::acquire, slot_for_current_thread and ensure_chunk, or between
-- acquire and the release of the handle (holding).
pub data Phase : Type 0 where
  outside entering growing locked raising found registered rejected holding : Phase

-- Where the checkpoint is: in stop_and_wait, with the slot that for_each_slot looks at and the
-- chunks that it counted, or after it.
pub data Stopper : Type 0 where
  running marking : Stopper
  scanning : ℕ → ℕ → Stopper
  stopped : ℕ → Stopper

pub record Gate : Type 0 where
  pub phase : ℕ → Phase
  pub slots : ℕ → Bool
  pub chunks : ℕ → Bool
  pub high_chunk : ℕ
  pub growth_mutex : Bool
  pub stop : Bool
  pub stopper : Stopper

abbrev pub chunk_size : ℕ
chunk_size = 64

unfoldable pub set_at {ℓ} : {A : Type ℓ} → ℕ → A → (ℕ → A) → ℕ → A
set_at i x f j = if j == i then x else f j

-- slot_for_current_thread loads the thread's chunk.
unfoldable pub load_chunk : ℕ → Gate → Gate
unfolding set_at
load_chunk i g =
    if g.chunks (i / chunk_size)
    then record g { phase = set_at i found g.phase }
    else record g { phase = set_at i growing g.phase }

-- ensure_chunk: the lock, the second look with the store of a new chunk, and the mark.
unfoldable pub lock_growth : ℕ → Gate → Gate
unfolding set_at
lock_growth i g =
    if g.growth_mutex then g else record g { phase = set_at i locked g.phase; growth_mutex = true }

unfoldable pub store_chunk : ℕ → Gate → Gate
unfolding set_at
store_chunk i g =
    if g.chunks (i / chunk_size)
    then record g { phase = set_at i found g.phase; growth_mutex = false }
    else record g {
      phase = set_at i raising g.phase;
      chunks = set_at (i / chunk_size) true g.chunks;
    }

unfoldable pub raise_high_chunk : ℕ → Gate → Gate
unfolding set_at
raise_high_chunk i g = record g {
  phase = set_at i found g.phase;
  high_chunk = max g.high_chunk (i / chunk_size + 1);
  growth_mutex = false;
}

-- The slot is set, on the way to the second look at the flag, or cleared.
unfoldable pub acquire_slot : ℕ → Gate → Gate
unfolding set_at
acquire_slot i g = record g { phase = set_at i registered g.phase; slots = set_at i true g.slots }

unfoldable pub release_slot : ℕ → Gate → Gate
unfolding set_at
release_slot i g = record g { phase = set_at i outside g.phase; slots = set_at i false g.slots }

-- The next access of a thread. A thread that waits stays where it is.
unfoldable pub thread_step : ℕ → Phase → Gate → Gate
unfolding set_at load_chunk lock_growth store_chunk raise_high_chunk acquire_slot release_slot
thread_step i outside g = if g.stop then g else record g { phase = set_at i entering g.phase }
thread_step i entering g = load_chunk i g
thread_step i growing g = lock_growth i g
thread_step i locked g = store_chunk i g
thread_step i raising g = raise_high_chunk i g
thread_step i found g = acquire_slot i g
thread_step i registered g =
    if g.stop
    then record g { phase = set_at i rejected g.phase }
    else record g { phase = set_at i holding g.phase }
thread_step i rejected g = release_slot i g
thread_step i holding g = release_slot i g

-- The loop of for_each_slot with the wait of wait_until_retired: a chunk that is not there is
-- skipped, and a slot that is set is looked at again.
unfoldable pub next_scan : ℕ → ℕ → Gate → Stopper
next_scan slot count g =
    if leb (chunk_size * count) slot
    then stopped count
    else if (slot % chunk_size == 0) && not (g.chunks (slot / chunk_size))
    then scanning (slot + chunk_size) count
    else if g.slots slot
    then scanning slot count
    else scanning (slot + 1) count

-- The next access of the checkpoint: stop_and_wait, wait_until_retired and then resume.
unfoldable pub stopper_step : Stopper → Gate → Gate
unfolding next_scan
stopper_step running g = record g { stop = true; stopper = marking }
stopper_step marking g = record g { stopper = scanning 0 g.high_chunk }
stopper_step (scanning slot count) g = record g { stopper = next_scan slot count g }
stopper_step (stopped count) g = record g { stop = false; stopper = running }

pub data Turn : Type 0 where
  thread : ℕ → Turn
  checkpoint : Turn

unfoldable pub take_turn : Turn → Gate → Gate
unfolding thread_step stopper_step
take_turn (thread i) g = thread_step i (g.phase i) g
take_turn checkpoint g = stopper_step g.stopper g

-- Any schedule of the threads and the checkpoint.
unfoldable pub run_turns : List Turn → Gate → Gate
unfolding take_turn
run_turns [] g = g
run_turns (turn ∷ turns) g = run_turns turns (take_turn turn g)

abbrev pub new_gate : Gate
new_gate = record {
  phase = λ i. outside;
  slots = λ i. false;
  chunks = λ i. false;
  high_chunk = 0;
  growth_mutex = false;
  stop = false;
  stopper = running;
}
