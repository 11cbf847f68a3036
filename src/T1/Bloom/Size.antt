-- ===== src/T1/Bloom/Size.antt =====
-- The size that BloomFilter::reset gives a filter.
use vmem_kv.Prelude.{
  length-replicate, ℕ, zero, suc, ◌*◌, ◌/◌, ◌<◌, ◌≤◌, max, ◌≡◌, refl, ap, ◌∙◌, ◌⊎◌, Bool, true,
  false, List, [], ◌∷◌, none, some, length, set, get_elem?, ◌==◌, leb, arith, Bool-cases, inl, inr,
}
use vmem_kv.T1.Bloom.{BloomFilter, bit_ceil_from, reset}

-- An index of a bit is in range, or there is no bit.
unfoldable pub IsSized : BloomFilter → Type 0
IsSized bloom = (length bloom.words ≡ 0) ⊎ (length bloom.words ≡ suc bloom.mask_bits)

abbrev pub bit_at : List Bool → ℕ → Bool
bit_at bits i = elim (get_elem? bits i) [ some b ↦ b | none ↦ false ]

pub length-set : (bits : List Bool) (i : ℕ) → length (set bits i true) ≡ length bits
length-set [] i = refl
length-set (b ∷ bits) zero = refl
length-set (b ∷ bits) (suc i) = ap suc (length-set bits i)

pub bit_at-set : (bits : List Bool) (i : ℕ) → i < length bits → bit_at (set bits i true) i ≡ true
bit_at-set [] i h = absurd (omega arith)
bit_at-set (b ∷ bits) zero h = refl
bit_at-set (b ∷ bits) (suc i) h = bit_at-set bits i (omega arith)

pub bit_at-set_kept :
    (bits : List Bool) (i j : ℕ) → bit_at bits j ≡ true → bit_at (set bits i true) j ≡ true
bit_at-set_kept [] i j h = h
bit_at-set_kept (b ∷ bits) zero zero h = refl
bit_at-set_kept (b ∷ bits) zero (suc j) h = h
bit_at-set_kept (b ∷ bits) (suc i) zero h = h
bit_at-set_kept (b ∷ bits) (suc i) (suc j) h = bit_at-set_kept bits i j h

bit_ceil_from-multiple :
    (fuel m n : ℕ) → 1 ≤ m → (k : ℕ) × (1 ≤ k) × (bit_ceil_from fuel (64 * m) n ≡ 64 * k)
unfolding bit_ceil_from
bit_ceil_from-multiple zero m n h = (m, h, refl)
bit_ceil_from-multiple (suc fuel) m n h =
    let e : 2 * (64 * m) ≡ 64 * (2 * m) = omega arith in
    elim (Bool-cases (leb n (64 * m))) [
      | inl le ↦ (m, h, rw le refl)
      | inr gt ↦
          let (k, p, q) = bit_ceil_from-multiple fuel (2 * m) n (omega arith) in
          (k, p, rw (gt, e) q)
    ]

bit_ceil_from-step :
    (fuel p n : ℕ) → p < n → bit_ceil_from (suc fuel) p n ≡ bit_ceil_from fuel (2 * p) n
unfolding bit_ceil_from
bit_ceil_from-step fuel p n h = let e : leb n p ≡ false = ground arith in rw e refl

pub bits-multiple : (n : ℕ) → 64 ≤ n → (k : ℕ) × (1 ≤ k) × (bit_ceil_from 63 1 n ≡ 64 * k)
bits-multiple n h =
    let (k, p, q) = bit_ceil_from-multiple 57 1 n (omega arith) in
    (
      k,
      p,
      bit_ceil_from-step 62 1 n (omega arith)
          ∙ bit_ceil_from-step 61 2 n (omega arith)
          ∙ bit_ceil_from-step 60 4 n (omega arith)
          ∙ bit_ceil_from-step 59 8 n (omega arith)
          ∙ bit_ceil_from-step 58 16 n (omega arith)
          ∙ bit_ceil_from-step 57 32 n (omega arith)
          ∙ q,
    )

pub IsSized-reset : (entry_count : ℕ) → IsSized (reset entry_count)
unfolding IsSized reset
IsSized-reset entry_count = elim (Bool-cases (entry_count == 0)) [
  | inl e ↦ rw e (inl refl)
  | inr e ↦
      let (k, p, q) = bits-multiple (max 64 (entry_count * 8)) (omega arith) in
      rw (e, q) (inr (length-replicate (64 * k / 64 * 64) false ∙ omega arith))
]
