-- ===== src/T2/Gate/Scan.antt =====
-- The scan of WriterGate::stop_and_wait passes no slot that is set.
use vmem_kv.Prelude.{
  ℕ, ◌+◌, ◌*◌, ◌/◌, ◌%◌, ◌≤◌, ◌<◌, ◌≡◌, ◌∙◌, refl, sym, ap, inl, inr, Bool, true, false, ◌&&◌, ◌||◌,
  not, leb, ◌==◌, Bool-cases, arith,
}
use vmem_kv.T2.Gate.{
  Phase, Stopper, Gate, chunk_size, next_scan, stopper_step, outside, entering, growing, locked,
  raising, found, registered, rejected, holding, running, marking, scanning, stopped,
}

unfoldable pub is_holding : Phase → Bool
is_holding outside = false
is_holding entering = false
is_holding growing = false
is_holding locked = false
is_holding raising = false
is_holding found = false
is_holding registered = false
is_holding rejected = false
is_holding holding = true

-- The chunk of the thread's slot is there.
unfoldable pub has_chunk : Phase → Bool
has_chunk outside = false
has_chunk entering = false
has_chunk growing = false
has_chunk locked = false
has_chunk raising = true
has_chunk found = true
has_chunk registered = true
has_chunk rejected = true
has_chunk holding = true

unfoldable pub in_slot : Phase → Bool
in_slot outside = false
in_slot entering = false
in_slot growing = false
in_slot locked = false
in_slot raising = false
in_slot found = false
in_slot registered = true
in_slot rejected = true
in_slot holding = true

-- The scan is past no slot of a holder that it counted.
unfoldable pub ahead : ℕ → Stopper → Bool
ahead t running = true
ahead t marking = true
ahead t (scanning slot count) = leb slot t || leb (chunk_size * count) t
ahead t (stopped count) = leb (chunk_size * count) t

unfoldable pub is_stopping : Stopper → Bool
is_stopping running = false
is_stopping marking = true
is_stopping (scanning slot count) = true
is_stopping (stopped count) = true

-- The invariant of one thread.
pub record Fine (t : ℕ) (phase : Phase) (slot chunk stop : Bool) (stopper : Stopper) : Type 0 where
  pub there : has_chunk phase ≡ true → chunk ≡ true
  pub seen : in_slot phase ≡ true → slot ≡ true
  pub before : is_holding phase ≡ true → ahead t stopper ≡ true
  pub shut : is_stopping stopper ≡ true → stop ≡ true

abbrev pub IsFine : ℕ → Gate → Type 0
IsFine t g = Fine t (g.phase t) (g.slots t) (g.chunks (t / chunk_size)) g.stop g.stopper

is_holding-in_slot :
    (phase : Phase) → is_holding phase ≡ true → (in_slot phase ≡ true) × (has_chunk phase ≡ true)
unfolding is_holding in_slot has_chunk
is_holding-in_slot outside h = absurd (cc h)
is_holding-in_slot entering h = absurd (cc h)
is_holding-in_slot growing h = absurd (cc h)
is_holding-in_slot locked h = absurd (cc h)
is_holding-in_slot raising h = absurd (cc h)
is_holding-in_slot found h = absurd (cc h)
is_holding-in_slot registered h = absurd (cc h)
is_holding-in_slot rejected h = absurd (cc h)
is_holding-in_slot holding h = (refl, refl)

same_chunk : (slot t : ℕ) → slot % 64 ≡ 0 → slot ≤ t → t < slot + 64 → slot / 64 ≡ t / 64
same_chunk slot t h l u = omega arith

zero_ahead : (t limit : ℕ) → leb 0 t || leb limit t ≡ true
zero_ahead t limit = ground arith

past_end :
    (limit slot t : ℕ)
    → leb limit slot ≡ true
    → leb slot t || leb limit t ≡ true
    → leb limit t ≡ true
past_end limit slot t e h = ground arith

past_slot :
    (limit slot t : ℕ)
    → (slot ≡ t → false ≡ true)
    → leb slot t || leb limit t ≡ true
    → leb (slot + 1) t || leb limit t ≡ true
past_slot limit slot t other h = ground arith

past_chunk :
    (limit slot t : ℕ)
    → slot % 64 ≡ 0
    → (slot / 64 ≡ t / 64 → false ≡ true)
    → leb slot t || leb limit t ≡ true
    → leb (slot + 64) t || leb limit t ≡ true
past_chunk limit slot t start other h = elim (Bool-cases (leb (slot + 64) t)) [
  | inl e ↦ ground arith
  | inr e ↦ elim (Bool-cases (leb slot t)) [
    | inl below ↦ absurd (cc (other (same_chunk slot t start (ground arith) (ground arith))))
    | inr above ↦ ground arith
  ]
]

null_chunk :
    (slot : ℕ) (chunk : Bool)
    → (slot % chunk_size == 0) && not chunk ≡ true
    → (slot % 64 ≡ 0) × (chunk ≡ false)
null_chunk slot chunk h = ground arith

-- No scan goes on while the gate is open.
pub open_ahead :
    (t : ℕ) (stop : Bool) (stopper : Stopper)
    → stop ≡ false
    → (is_stopping stopper ≡ true → stop ≡ true)
    → ahead t stopper ≡ true
unfolding is_stopping ahead
open_ahead t stop running e shut = refl
open_ahead t stop marking e shut = refl
open_ahead t stop (scanning slot count) e shut = absurd (cc (sym e ∙ shut refl))
open_ahead t stop (stopped count) e shut = absurd (cc (sym e ∙ shut refl))

module _ (t : ℕ) (g : Gate) where
  -- A scan goes past no slot that is set.
  ahead-next_scan :
      (slot count : ℕ)
      → g.slots t ≡ true
      → g.chunks (t / chunk_size) ≡ true
      → ahead t (scanning slot count) ≡ true
      → ahead t (next_scan slot count g) ≡ true
  unfolding ahead next_scan
  ahead-next_scan slot count set there h = elim (Bool-cases (leb (chunk_size * count) slot)) [
    | inl e ↦ rw e (past_end (chunk_size * count) slot t e h)
    | inr e ↦ elim (Bool-cases ((slot % chunk_size == 0) && not (g.chunks (slot / chunk_size)))) [
      | inl null ↦
          let (start, gone) = null_chunk slot (g.chunks (slot / chunk_size)) null in
          rw (e, null)
            (past_chunk (chunk_size * count) slot t start
              (λ same. sym gone ∙ ap g.chunks same ∙ there) h)
      | inr some_chunk ↦ elim (Bool-cases (g.slots slot)) [
        | inl busy ↦ rw (e, some_chunk, busy) h
        | inr free ↦
            rw (e, some_chunk, free)
              (past_slot (chunk_size * count) slot t (λ same. sym free ∙ ap g.slots same ∙ set) h)
      ]
    ]
  ]

  pub Fine-stopper_step :
      (stopper : Stopper) → g.stopper ≡ stopper → IsFine t g → IsFine t (stopper_step stopper g)
  unfolding stopper_step is_stopping ahead
  Fine-stopper_step running e fine = record {
    there = fine.there;
    seen = fine.seen;
    before = λ h. refl;
    shut = λ h. refl;
  }
  Fine-stopper_step marking e fine = record {
    there = fine.there;
    seen = fine.seen;
    before = λ h. zero_ahead t (chunk_size * g.high_chunk);
    shut = λ h. fine.shut (ap is_stopping e);
  }
  Fine-stopper_step (scanning slot count) e fine = record {
    there = fine.there;
    seen = fine.seen;
    before = λ h.
        let (inside, chunk) = is_holding-in_slot (g.phase t) h in
        ahead-next_scan slot count (fine.seen inside) (fine.there chunk)
          (sym (ap (ahead t) e) ∙ fine.before h);
    shut = λ h. fine.shut (ap is_stopping e);
  }
  Fine-stopper_step (stopped count) e fine = record {
    there = fine.there;
    seen = fine.seen;
    before = λ h. refl;
    shut = λ h. absurd (cc h);
  }
