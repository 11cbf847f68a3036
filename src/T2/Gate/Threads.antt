-- ===== src/T2/Gate/Threads.antt =====
-- The steps of a thread in WriterGate::acquire keep the invariant of every thread.
use vmem_kv.Prelude.{
  ℕ, ◌/◌, ◌≡◌, ◌∙◌, refl, sym, ap, inl, inr, Bool, true, false, ◌==◌, ==_iff, Bool-cases,
  if◌then◌else◌,
}
use vmem_kv.T2.Gate.{
  Phase, Gate, chunk_size, set_at, thread_step, load_chunk, lock_growth, store_chunk,
  raise_high_chunk, acquire_slot, release_slot, outside, entering, growing, locked, raising, found,
  registered, rejected, holding,
}
use vmem_kv.T2.Gate.Scan.{
  is_holding, has_chunk, in_slot, ahead, is_stopping, Fine, IsFine, open_ahead,
}

module _ (t : ℕ) (g : Gate) where
  -- What a step of another thread leaves to this one.
  pub record Untouched (after : Gate) : Type 0 where
    pub phase : after.phase t ≡ g.phase t
    pub slot : after.slots t ≡ g.slots t
    pub chunk : (g.chunks (t / chunk_size) ≡ true) → after.chunks (t / chunk_size) ≡ true
    pub stop : after.stop ≡ g.stop
    pub stopper : after.stopper ≡ g.stopper

  pub Untouched-Fine : (after : Gate) → Untouched after → IsFine t g → IsFine t after
  Untouched-Fine after u fine = record {
    there = λ h. u.chunk (fine.there (sym (ap has_chunk u.phase) ∙ h));
    seen = λ h. u.slot ∙ fine.seen (sym (ap in_slot u.phase) ∙ h);
    before = λ h. ap (ahead t) u.stopper ∙ fine.before (sym (ap is_holding u.phase) ∙ h);
    shut = λ h. u.stop ∙ fine.shut (sym (ap is_stopping u.stopper) ∙ h);
  }

  untouched : Untouched g
  untouched = record { phase = refl; slot = refl; chunk = λ h. h; stop = refl; stopper = refl }

  module _ (i : ℕ) (other : (t == i) ≡ false) where
    set_at_elsewhere {ℓ} : {A : Type ℓ} (x : A) (f : ℕ → A) → set_at i x f t ≡ f t
    unfolding set_at
    set_at_elsewhere x f = rw other refl

    set_at-true : (j k : ℕ) (f : ℕ → Bool) → f k ≡ true → set_at j true f k ≡ true
    unfolding set_at
    set_at-true j k f h = elim (Bool-cases (k == j)) [ inl e ↦ rw e refl | inr e ↦ rw e h ]

    moved : (to : Phase) → Untouched (record g { phase = set_at i to g.phase })
    moved to = record {
      phase = set_at_elsewhere to g.phase;
      slot = refl;
      chunk = λ h. h;
      stop = refl;
      stopper = refl;
    }

    moved_slot :
        (to : Phase) (b : Bool)
        → Untouched (record g { phase = set_at i to g.phase; slots = set_at i b g.slots })
    moved_slot to b = record {
      phase = set_at_elsewhere to g.phase;
      slot = set_at_elsewhere b g.slots;
      chunk = λ h. h;
      stop = refl;
      stopper = refl;
    }

    either : (b : Bool) (x y : Gate) → Untouched x → Untouched y → Untouched (if b then x else y)
    either false x y u v = v
    either true x y u v = u

    pub Untouched-thread_step : (phase : Phase) → Untouched (thread_step i phase g)
    unfolding thread_step load_chunk lock_growth store_chunk raise_high_chunk acquire_slot
        release_slot
    Untouched-thread_step outside = either g.stop _ _ untouched (moved entering)
    Untouched-thread_step entering =
        either (g.chunks (i / chunk_size)) _ _ (moved found) (moved growing)
    Untouched-thread_step growing = either g.growth_mutex _ _ untouched (record {
      phase = set_at_elsewhere locked g.phase;
      slot = refl;
      chunk = λ h. h;
      stop = refl;
      stopper = refl;
    })
    Untouched-thread_step locked =
        either (g.chunks (i / chunk_size)) _ _
          (record {
            phase = set_at_elsewhere found g.phase;
            slot = refl;
            chunk = λ h. h;
            stop = refl;
            stopper = refl;
          })
          (record {
            phase = set_at_elsewhere raising g.phase;
            slot = refl;
            chunk = set_at-true (i / chunk_size) (t / chunk_size) g.chunks;
            stop = refl;
            stopper = refl;
          })
    Untouched-thread_step raising = record {
      phase = set_at_elsewhere found g.phase;
      slot = refl;
      chunk = λ h. h;
      stop = refl;
      stopper = refl;
    }
    Untouched-thread_step found = moved_slot registered true
    Untouched-thread_step registered = either g.stop _ _ (moved rejected) (moved holding)
    Untouched-thread_step rejected = moved_slot outside false
    Untouched-thread_step holding = moved_slot outside false

  -- The thread itself, whose slot and chunk are looked up where it is.
  set_at_here {ℓ} : {A : Type ℓ} (j : ℕ) (x : A) (f : ℕ → A) → set_at j x f j ≡ x
  unfolding set_at
  set_at_here j x f = rw ((==_iff j j).1 refl) refl

  Fine-here :
      (to : Phase) (phases : ℕ → Phase) (slot chunk : Bool)
      → Fine t to slot chunk g.stop g.stopper
      → Fine t (set_at t to phases t) slot chunk g.stop g.stopper
  Fine-here to phases slot chunk fine = rw (set_at_here t to phases) fine

  Fine-either :
      (b : Bool) (x y : Gate)
      → (b ≡ true → IsFine t x)
      → (b ≡ false → IsFine t y)
      → IsFine t (if b then x else y)
  Fine-either false x y u v = v refl
  Fine-either true x y u v = u refl

  -- A thread that has no handle after its step.
  unheld :
      (to : Phase) (slot chunk : Bool)
      → is_holding to ≡ false
      → (has_chunk to ≡ true → chunk ≡ true)
      → (in_slot to ≡ true → slot ≡ true)
      → IsFine t g
      → Fine t to slot chunk g.stop g.stopper
  unheld to slot chunk out there seen fine = record {
    there = there;
    seen = seen;
    before = λ h. absurd (cc (sym out ∙ h));
    shut = fine.shut;
  }

  pub Fine-thread_step :
      (phase : Phase) → g.phase t ≡ phase → IsFine t g → IsFine t (thread_step t phase g)
  unfolding thread_step load_chunk lock_growth store_chunk raise_high_chunk acquire_slot
      release_slot is_holding has_chunk in_slot
  Fine-thread_step outside e fine =
      Fine-either g.stop _ _ (λ h. fine)
        (λ h.
          Fine-here entering g.phase _ _
            (unheld entering _ _ refl (λ c. absurd (cc c)) (λ c. absurd (cc c)) fine))
  Fine-thread_step entering e fine =
      Fine-either (g.chunks (t / chunk_size)) _ _
        (λ h.
          Fine-here found g.phase _ _ (unheld found _ _ refl (λ c. h) (λ c. absurd (cc c)) fine))
        (λ h.
          Fine-here growing g.phase _ _
            (unheld growing _ _ refl (λ c. absurd (cc c)) (λ c. absurd (cc c)) fine))
  Fine-thread_step growing e fine =
      Fine-either g.growth_mutex _ _ (λ h. fine)
        (λ h.
          Fine-here locked g.phase _ _
            (unheld locked _ _ refl (λ c. absurd (cc c)) (λ c. absurd (cc c)) fine))
  Fine-thread_step locked e fine =
      Fine-either (g.chunks (t / chunk_size)) _ _
        (λ h.
          Fine-here found g.phase _ _ (unheld found _ _ refl (λ c. h) (λ c. absurd (cc c)) fine))
        (λ h. Fine-here raising g.phase _ _ (
          unheld raising _ _ refl (λ c. set_at_here (t / chunk_size) true g.chunks)
            (λ c. absurd (cc c)) fine))
  Fine-thread_step raising e fine =
      Fine-here found g.phase _ _
        (unheld found _ _ refl (λ c. fine.there (ap has_chunk e)) (λ c. absurd (cc c)) fine)
  Fine-thread_step found e fine = Fine-here registered g.phase _ _ (
      unheld registered _ _ refl (λ c. fine.there (ap has_chunk e))
        (λ c. set_at_here t true g.slots) fine)
  Fine-thread_step registered e fine =
      Fine-either g.stop _ _
        (λ h. Fine-here rejected g.phase _ _ (
          unheld rejected _ _ refl (λ c. fine.there (ap has_chunk e))
            (λ c. fine.seen (ap in_slot e)) fine))
        (λ h. Fine-here holding g.phase _ _ (record {
          there = λ c. fine.there (ap has_chunk e);
          seen = λ c. fine.seen (ap in_slot e);
          before = λ c. open_ahead t g.stop g.stopper h fine.shut;
          shut = fine.shut;
        }))
  Fine-thread_step rejected e fine =
      Fine-here outside g.phase _ _
        (unheld outside _ _ refl (λ c. absurd (cc c)) (λ c. absurd (cc c)) fine)
  Fine-thread_step holding e fine =
      Fine-here outside g.phase _ _
        (unheld outside _ _ refl (λ c. absurd (cc c)) (λ c. absurd (cc c)) fine)
