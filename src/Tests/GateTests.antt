-- ===== src/Tests/GateTests.antt =====
-- WriterGate of implementation/vmemkv/src/t2_flat_file/t2_flat_file.hpp, run.
use vmem_kv.Prelude.{◌≡◌, refl, false, List, ◌∷◌, ◌++◌, replicate, arith}
use vmem_kv.T2.Gate.{Turn, thread, checkpoint, run_turns, new_gate, stopped, holding}
use vmem_kv.T2.Gate.Scan.{is_holding}
use vmem_kv.T2.Gate.Missed.{race, run_turns-race}
use vmem_kv.T2.Gate.Quiet.{run_turns-quiet}

-- Thread 3 gets a handle and lets it go, registers once more, meets the stop flag and withdraws; the
-- checkpoint looks at the 64 slots of the only chunk.
abbrev one_thread : List Turn
one_thread = replicate 11 (thread 3) ++ (checkpoint ∷ thread 3 ∷ thread 3 ∷ replicate 66 checkpoint)

run_turns-quiet_example : is_holding ((run_turns one_thread new_gate).phase 3) ≡ false
unfolding run_turns
run_turns-quiet_example = run_turns-quiet one_thread 3 1 refl (omega arith)

run_turns-race_example :
    ((run_turns (race 0 1) new_gate).stopper ≡ stopped 0)
    × ((run_turns (race 0 1) new_gate).phase 1 ≡ holding)
run_turns-race_example = run_turns-race 0 1 refl refl
