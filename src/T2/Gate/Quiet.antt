-- ===== src/T2/Gate/Quiet.antt =====
-- What stop_and_wait promises: the threads that hold a handle when it returns.
use vmem_kv.Prelude.{
  ℕ, ◌*◌, ◌<◌, ◌≡◌, ◌∙◌, refl, sym, ap, inl, inr, true, false, leb, List, [], ◌∷◌, ◌==◌, ==_iff,
  Bool-cases, arith,
}
use vmem_kv.T2.Gate.{
  Gate, chunk_size, thread_step, Turn, thread, checkpoint, take_turn, run_turns, stopped, new_gate,
}
use vmem_kv.T2.Gate.Scan.{
  is_holding, has_chunk, in_slot, ahead, is_stopping, IsFine, Fine-stopper_step,
}
use vmem_kv.T2.Gate.Threads.{Untouched-Fine, Untouched-thread_step, Fine-thread_step}

Fine-take_turn : (t : ℕ) (turn : Turn) (g : Gate) → IsFine t g → IsFine t (take_turn turn g)
unfolding take_turn
Fine-take_turn t checkpoint g fine = Fine-stopper_step t g g.stopper refl fine
Fine-take_turn t (thread i) g fine = elim (Bool-cases (t == i)) [
  | inl e ↦ rw (← (==_iff t i).0 e) (Fine-thread_step t g (g.phase t) refl fine)
  | inr e ↦
      Untouched-Fine t g (thread_step i (g.phase i) g) (Untouched-thread_step t g i e (g.phase i))
        fine
]

Fine-run_turns : (t : ℕ) (turns : List Turn) (g : Gate) → IsFine t g → IsFine t (run_turns turns g)
unfolding run_turns
Fine-run_turns t [] g fine = fine
Fine-run_turns t (turn ∷ turns) g fine =
    Fine-run_turns t turns (take_turn turn g) (Fine-take_turn t turn g fine)

new_gate-Fine : (t : ℕ) → IsFine t new_gate
unfolding has_chunk in_slot is_holding is_stopping
new_gate-Fine t = record {
  there = λ h. absurd (cc h);
  seen = λ h. absurd (cc h);
  before = λ h. absurd (cc h);
  shut = λ h. absurd (cc h);
}

-- Under every schedule of the threads and the checkpoint from a new gate, when stop_and_wait has
-- returned after a scan that counted some chunks, a thread whose slot lies in those chunks holds no
-- handle, until the gate is opened again.
pub run_turns-quiet :
    (turns : List Turn) (t count : ℕ)
    → (run_turns turns new_gate).stopper ≡ stopped count
    → t < chunk_size * count
    → is_holding ((run_turns turns new_gate).phase t) ≡ false
unfolding ahead
run_turns-quiet turns t count e below =
    let fine = Fine-run_turns t turns new_gate (new_gate-Fine t) in
    elim (Bool-cases (is_holding ((run_turns turns new_gate).phase t))) [
      | inr h ↦ h
      | inl h ↦
          let late : leb (chunk_size * count) t ≡ true = sym (ap (ahead t) e) ∙ fine.before h in
          absurd (ground arith)
    ]
