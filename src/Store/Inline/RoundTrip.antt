-- ===== src/Store/Inline/RoundTrip.antt =====
-- An inlined key and value are recovered from the index entry alone.
use native.Mathlib.Nat.{pow-suc}
use vmem_kv.Prelude.{
  ℕ, zero, suc, ◌+◌, ◌*◌, ◌/◌, ◌^◌, ◌≤◌, ◌<◌, ◌≡◌, refl, ap, ◌∙◌, ◌⊎◌, false, inl, inr, List, [],
  ◌∷◌, length, ◌==◌, arith, All,
}
use vmem_kv.Bytes.{IsByte, le_value}
use vmem_kv.Store.Inline.{back, bit_width}

pub bit_width_zero : (fuel : ℕ) → bit_width fuel 0 ≡ 0
unfolding bit_width
bit_width_zero zero = refl
bit_width_zero (suc fuel) = refl

bit_width_half : (fuel v : ℕ) → 1 ≤ v → bit_width (suc fuel) v ≡ suc (bit_width fuel (v / 2))
unfolding bit_width
bit_width_half fuel v h = let e : (v == 0) ≡ false = ground arith in rw e refl

bit_width_bound : (j fuel v : ℕ) → v < 2 ^ j → bit_width fuel v ≤ j
unfolding bit_width
bit_width_bound j zero v h = omega arith
bit_width_bound zero (suc fuel) v h =
    let e : v ≡ 0 = omega arith in rw (e, bit_width_zero (suc fuel)) (omega arith)
bit_width_bound (suc j) (suc fuel) v h =
    let ih = bit_width_bound j fuel (v / 2) (omega (arith, pow-suc 2 j)) in ground arith

bit_width_next :
    (fuel v n : ℕ) → 1 ≤ v → bit_width fuel (v / 2) ≡ n → bit_width (suc fuel) v ≡ suc n
bit_width_next fuel v n h e = bit_width_half fuel v h ∙ ap suc e

eighth : (v : ℕ) → v / 2 / 2 / 2 / 2 / 2 / 2 / 2 / 2 ≡ v / 256
eighth v = omega arith

abbrev eight : ℕ → ℕ
eight n = suc (suc (suc (suc (suc (suc (suc (suc n)))))))

bit_width_byte :
    (fuel b l : ℕ)
    → b < 256
    → 1 ≤ l
    → bit_width (eight fuel) (b + 256 * l) ≡ eight (bit_width fuel l)
bit_width_byte fuel b l hb hl =
    let v = b + 256 * l in
    let last : v / 2 / 2 / 2 / 2 / 2 / 2 / 2 / 2 ≡ l = eighth v ∙ omega arith in
    let f1 = suc fuel in
    let f2 = suc f1 in
    let f3 = suc f2 in
    let f4 = suc f3 in
    let f5 = suc f4 in
    let f6 = suc f5 in
    let f7 = suc f6 in
    let n = bit_width fuel l in
    bit_width_next f7 v (suc (suc (suc (suc (suc (suc (suc n))))))) (omega arith) (
      bit_width_next f6 (v / 2) (suc (suc (suc (suc (suc (suc n)))))) (omega arith) (
        bit_width_next f5 (v / 2 / 2) (suc (suc (suc (suc (suc n))))) (omega arith) (
          bit_width_next f4 (v / 2 / 2 / 2) (suc (suc (suc (suc n)))) (omega arith) (
            bit_width_next f3 (v / 2 / 2 / 2 / 2) (suc (suc (suc n))) (omega arith) (
              bit_width_next f2 (v / 2 / 2 / 2 / 2 / 2) (suc (suc n)) (omega arith) (
                bit_width_next f1 (v / 2 / 2 / 2 / 2 / 2 / 2) (suc n) (omega arith) (
                  bit_width_next fuel (v / 2 / 2 / 2 / 2 / 2 / 2 / 2) n (omega arith)
                    (ap (bit_width fuel) last))))))))

-- The last byte is not 0.
abbrev pub Trimmed : List ℕ → Type 0
Trimmed xs = (back xs == 0) ≡ false

pub le_value-Trimmed : (x : ℕ) (xs : List ℕ) → Trimmed (x ∷ xs) → 1 ≤ le_value (x ∷ xs)
unfolding le_value
le_value-Trimmed x [] h = ground arith
le_value-Trimmed x (y ∷ ys) h = omega (arith, le_value-Trimmed y ys h)

eight_more : (n f : ℕ) → suc n * 8 + f ≡ eight (n * 8 + f)
eight_more n f = omega arith

-- Bytes whose last one is not 0 have as many bytes as the width of their number needs.
pub bit_width-bytes :
    (bs : List ℕ) (f : ℕ)
    → All IsByte bs
    → (bs ≡ []) ⊎ Trimmed bs
    → (bit_width (length bs * 8 + f) (le_value bs) + 7) / 8 ≡ length bs
unfolding le_value
bit_width-bytes [] f h t = rw (bit_width_zero (0 * 8 + f)) (omega arith)
bit_width-bytes (b ∷ []) f h (inl e) = cc
bit_width-bytes (b ∷ []) f h (inr t) =
    let v : b + 256 * 0 ≡ b = omega arith in
    let one : 1 ≤ b = ground arith in
    let low : bit_width (eight (0 * 8 + f)) b
        ≡ suc (bit_width (suc (suc (suc (suc (suc (suc (suc (0 * 8 + f)))))))) (b / 2)) =
      bit_width_half (suc (suc (suc (suc (suc (suc (suc (0 * 8 + f)))))))) b one in
    let high = bit_width_bound 8 (eight (0 * 8 + f)) b (omega (arith, h.0)) in
    rw (v, eight_more 0 f) (omega (arith, low, high))
bit_width-bytes (b ∷ c ∷ bs) f h (inl e) = cc
bit_width-bytes (b ∷ c ∷ bs) f h (inr t) =
    let ih = bit_width-bytes (c ∷ bs) f h.1 (inr t) in
    let step =
      bit_width_byte (length (c ∷ bs) * 8 + f) b (le_value (c ∷ bs)) h.0
        (le_value-Trimmed c bs t) in
    rw (eight_more (length (c ∷ bs)) f, step) (omega (arith, ih))
