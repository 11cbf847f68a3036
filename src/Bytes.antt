-- ===== src/Bytes.antt =====
-- Bytes in memory and in files: a byte is a number below 256, a buffer is a list of them. The
-- on-disk structs are written by memcpy of little-endian fields, so a field of w bytes is
-- `le_bytes w`, its lowest byte first.
pub mod Struct
pub mod Compare
use native.Mathlib.Nat.{pow-suc}
use vmem_kv.Prelude.{
  ℕ, zero, suc, ◌+◌, ◌*◌, ◌/◌, ◌%◌, ◌^◌, ◌<◌, ◌≡◌, refl, List, [], ◌∷◌, length, All, arith, ap,
}

abbrev pub IsByte : ℕ → Type 0
IsByte b = b < 256

unfoldable pub le_bytes : ℕ → ℕ → List ℕ
le_bytes zero v = []
le_bytes (suc w) v = (v % 256) ∷ le_bytes w (v / 256)

unfoldable pub le_value : List ℕ → ℕ
le_value [] = 0
le_value (b ∷ bs) = b + 256 * le_value bs

pub length-le_bytes : (w v : ℕ) → length (le_bytes w v) ≡ w
unfolding le_bytes
length-le_bytes zero v = refl
length-le_bytes (suc w) v = ap suc (length-le_bytes w (v / 256))

-- A field that is wide enough for a value gives the value back.
pub le_value-le_bytes : (w v : ℕ) → v < 256 ^ w → le_value (le_bytes w v) ≡ v
unfolding le_bytes le_value
le_value-le_bytes zero v h = omega arith
le_value-le_bytes (suc w) v h =
    omega (arith, le_value-le_bytes w (v / 256) (omega (arith, pow-suc 256 w)))

pub le_bytes-IsByte : (w v : ℕ) → All IsByte (le_bytes w v)
unfolding le_bytes
le_bytes-IsByte zero v = tt
le_bytes-IsByte (suc w) v = (omega arith, le_bytes-IsByte w (v / 256))

-- Bytes are the field of which they are the value.
pub le_bytes-le_value : (bs : List ℕ) → All IsByte bs → le_bytes (length bs) (le_value bs) ≡ bs
unfolding le_bytes le_value
le_bytes-le_value [] h = refl
le_bytes-le_value (b ∷ bs) h =
    let low : (b + 256 * le_value bs) % 256 ≡ b = omega (arith, h.0) in
    let high : (b + 256 * le_value bs) / 256 ≡ le_value bs = omega (arith, h.0) in
    rw (low, high, le_bytes-le_value bs h.1)
