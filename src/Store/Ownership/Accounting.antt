-- ===== src/Store/Ownership/Accounting.antt =====
-- The counters are the sums of the size hints of the live payloads.
use vmem_kv.Prelude.{
  ℕ, zero, suc, ◌+◌, ◌^◌, ◌≤◌, ◌<◌, ◌≡◌, refl, sym, ap, ◌∙◌, true, false, Bool-cases, inl, inr,
  List, [], ◌∷◌, length, set, ltb, ◌==◌, if◌then◌else◌, arith, ==_iff, ltb→lt,
}
use vmem_kv.Store.Ownership.{
  payload_offset, hint_bytes, seg_index, T2Ownership, seg_live_at, fetch_add, fetch_sub, add_live,
  subtract_live,
}

-- The segment of a payload.
abbrev pub segment_of : ℕ → ℕ → ℕ
segment_of segment_bytes p = seg_index segment_bytes (payload_offset p)

-- The hints of the live payloads of one segment, and of all counted segments.
unfoldable pub seg_sum : ℕ → ℕ → List ℕ → ℕ
seg_sum segment_bytes seg [] = 0
seg_sum segment_bytes seg (p ∷ live) =
    let rest = seg_sum segment_bytes seg live in
    if segment_of segment_bytes p == seg then hint_bytes p + rest else rest

unfoldable pub total_sum : ℕ → ℕ → List ℕ → ℕ
total_sum segment_bytes count [] = 0
total_sum segment_bytes count (p ∷ live) =
    let rest = total_sum segment_bytes count live in
    if ltb (segment_of segment_bytes p) count then hint_bytes p + rest else rest

-- The counter of a segment and the total are exact for a list of live payloads.
pub record Accounts (segment_bytes seg : ℕ) (live : List ℕ) (own : T2Ownership) : Type 0 where
  pub segment : seg_live_at own.seg_live seg ≡ seg_sum segment_bytes seg live
  pub total : own.live_total ≡ total_sum segment_bytes (length own.seg_live) live

pub length-set : (counters : List ℕ) (i n : ℕ) → length (set counters i n) ≡ length counters
length-set [] i n = refl
length-set (c ∷ counters) zero n = refl
length-set (c ∷ counters) (suc i) n = ap suc (length-set counters i n)

zero_next : (j : ℕ) → (0 == suc j) ≡ false
zero_next j = ground arith

next_zero : (i : ℕ) → (suc i == 0) ≡ false
next_zero i = ground arith

next_next : (i j : ℕ) → (suc i == suc j) ≡ (i == j)
next_next i j = ground arith

seg_live_at-set :
    (counters : List ℕ) (i n j : ℕ)
    → i < length counters
    → seg_live_at (set counters i n) j ≡ (if i == j then n else seg_live_at counters j)
unfolding seg_live_at
seg_live_at-set [] i n j h = absurd (omega arith)
seg_live_at-set (c ∷ counters) zero n zero h = refl
seg_live_at-set (c ∷ counters) zero n (suc j) h = rw (zero_next j) refl
seg_live_at-set (c ∷ counters) (suc i) n zero h = rw (next_zero i) refl
seg_live_at-set (c ∷ counters) (suc i) n (suc j) h =
    rw (next_next i j) (seg_live_at-set counters i n j (omega arith))

module _ (segment_bytes seg count : ℕ) (inside : seg < count) where
  -- One segment is part of the whole.
  seg_sum_bound :
      (live : List ℕ) → seg_sum segment_bytes seg live ≤ total_sum segment_bytes count live
  unfolding seg_sum total_sum
  seg_sum_bound [] = omega arith
  seg_sum_bound (p ∷ live) = go (segment_of segment_bytes p) (hint_bytes p) (seg_sum_bound live)
    where
      go :
          (at hint : ℕ)
          → seg_sum segment_bytes seg live ≤ total_sum segment_bytes count live
          → (if at == seg
              then hint + seg_sum segment_bytes seg live
              else seg_sum segment_bytes seg live)
            ≤ (if ltb at count
                then hint + total_sum segment_bytes count live
                else total_sum segment_bytes count live)
      go at hint h = ground arith

fetch_add_exact : (c n : ℕ) → n + c < 2 ^ 64 → fetch_add c n ≡ n + c
unfolding fetch_add
fetch_add_exact c n h = omega arith

fetch_sub_exact : (c n : ℕ) → n + c < 2 ^ 64 → fetch_sub (n + c) n ≡ c
unfolding fetch_sub
fetch_sub_exact c n h = omega arith

module _ (segment_bytes seg p : ℕ) (live : List ℕ) (own : T2Ownership)
    (inside : seg < length own.seg_live)
    (small : total_sum segment_bytes (length own.seg_live) (p ∷ live) < 2 ^ 64) where
  abbrev at : ℕ
  at = segment_of segment_bytes p

  abbrev hint : ℕ
  hint = hint_bytes p

  seg_small : seg_sum segment_bytes seg (p ∷ live) < 2 ^ 64
  seg_small =
      omega (arith, seg_sum_bound segment_bytes seg (length own.seg_live) inside (p ∷ live), small)

  sum-here :
      (at == seg) ≡ true
      → seg_sum segment_bytes seg (p ∷ live) ≡ hint + seg_sum segment_bytes seg live
  unfolding seg_sum
  sum-here e = rw e refl

  sum-elsewhere :
      (at == seg) ≡ false → seg_sum segment_bytes seg (p ∷ live) ≡ seg_sum segment_bytes seg live
  unfolding seg_sum
  sum-elsewhere e = rw e refl

  total-counted :
      ltb at (length own.seg_live) ≡ true
      → total_sum segment_bytes (length own.seg_live) (p ∷ live)
        ≡ hint + total_sum segment_bytes (length own.seg_live) live
  unfolding total_sum
  total-counted e = rw e refl

  total-uncounted :
      ltb at (length own.seg_live) ≡ false
      → total_sum segment_bytes (length own.seg_live) (p ∷ live)
        ≡ total_sum segment_bytes (length own.seg_live) live
  unfolding total_sum
  total-uncounted e = rw e refl

  uncounted-elsewhere : ltb at (length own.seg_live) ≡ false → (at == seg) ≡ false
  uncounted-elsewhere e = ground (arith, inside)

  pub add_live-Accounts :
      Accounts segment_bytes seg live own
      → Accounts segment_bytes seg (p ∷ live) (add_live at hint own)
  unfolding add_live
  add_live-Accounts a = elim (Bool-cases (ltb at (length own.seg_live))) [
    | inr out ↦ rw out record {
      segment = a.segment ∙ sym (sum-elsewhere (uncounted-elsewhere out));
      total = a.total ∙ sym (total-uncounted out);
    }
    | inl counted ↦
        let here = ltb→lt at (length own.seg_live) counted in
        let next = fetch_add (seg_live_at own.seg_live at) hint in
        let sized : length (set own.seg_live at next) ≡ length own.seg_live =
          length-set own.seg_live at next in
        let total_eq : fetch_add own.live_total hint
            ≡ total_sum segment_bytes (length own.seg_live) (p ∷ live) =
          ap (λ t. fetch_add t hint) a.total
          ∙ fetch_add_exact (total_sum segment_bytes (length own.seg_live) live) hint
              (omega (arith, total-counted counted, small))
          ∙ sym (total-counted counted) in
        rw counted record {
          segment = seg_live_at-set own.seg_live at next seg here ∙ elim (Bool-cases (at == seg)) [
            | inl e ↦
                ap (λ b. if b then next else seg_live_at own.seg_live seg) e
                ∙ ap (λ c. fetch_add c hint)
                    (ap (seg_live_at own.seg_live) ((==_iff at seg).0 e) ∙ a.segment)
                ∙ fetch_add_exact (seg_sum segment_bytes seg live) hint
                    (omega (arith, sum-here e, seg_small))
                ∙ sym (sum-here e)
            | inr e ↦
                ap (λ b. if b then next else seg_live_at own.seg_live seg) e
                ∙ a.segment
                ∙ sym (sum-elsewhere e)
          ];
          total = total_eq ∙ ap (λ n. total_sum segment_bytes n (p ∷ live)) (sym sized);
        }
  ]

  pub subtract_live-Accounts :
      Accounts segment_bytes seg (p ∷ live) own
      → Accounts segment_bytes seg live (subtract_live at hint own)
  unfolding subtract_live
  subtract_live-Accounts a = elim (Bool-cases (ltb at (length own.seg_live))) [
    | inr out ↦ rw out record {
      segment = a.segment ∙ sum-elsewhere (uncounted-elsewhere out);
      total = a.total ∙ total-uncounted out;
    }
    | inl counted ↦
        let here = ltb→lt at (length own.seg_live) counted in
        let next = fetch_sub (seg_live_at own.seg_live at) hint in
        let sized : length (set own.seg_live at next) ≡ length own.seg_live =
          length-set own.seg_live at next in
        let total_eq : fetch_sub own.live_total hint
            ≡ total_sum segment_bytes (length own.seg_live) live =
          ap (λ t. fetch_sub t hint) (a.total ∙ total-counted counted)
          ∙ fetch_sub_exact (total_sum segment_bytes (length own.seg_live) live) hint
              (omega (arith, total-counted counted, small)) in
        rw counted record {
          segment = seg_live_at-set own.seg_live at next seg here ∙ elim (Bool-cases (at == seg)) [
            | inl e ↦
                ap (λ b. if b then next else seg_live_at own.seg_live seg) e
                ∙ ap (λ c. fetch_sub c hint)
                    (ap (seg_live_at own.seg_live) ((==_iff at seg).0 e) ∙ a.segment ∙ sum-here e)
                ∙ fetch_sub_exact (seg_sum segment_bytes seg live) hint
                    (omega (arith, sum-here e, seg_small))
            | inr e ↦
                ap (λ b. if b then next else seg_live_at own.seg_live seg) e
                ∙ a.segment
                ∙ sum-elsewhere e
          ];
          total = total_eq ∙ ap (λ n. total_sum segment_bytes n live) (sym sized);
        }
  ]
