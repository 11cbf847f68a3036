-- ===== src/Checksum.antt =====
-- The FNV-1a64 checksum of implementation/vmemkv/src/api/utils.hpp.
use vmem_kv.Prelude.{ℕ, ◌*◌, ◌%◌, ◌^◌, ◌<◌, ◌≡◌, refl, List, [], ◌∷◌, ◌++◌, bit_xor, arith}

abbrev pub fnv_offset_basis64 : ℕ
fnv_offset_basis64 = 14695981039346656037

abbrev pub fnv_prime64 : ℕ
fnv_prime64 = 1099511628211

-- One round for each byte; the product wraps at 64 bits.
unfoldable pub fnv1a64_update : ℕ → List ℕ → ℕ
fnv1a64_update hash [] = hash
fnv1a64_update hash (b ∷ bs) = fnv1a64_update (bit_xor hash b * fnv_prime64 % 2 ^ 64) bs

-- Folding one range after the other is folding their concatenation.
pub fnv1a64_update-append :
    (hash : ℕ) (xs ys : List ℕ)
    → fnv1a64_update hash (xs ++ ys) ≡ fnv1a64_update (fnv1a64_update hash xs) ys
unfolding fnv1a64_update
fnv1a64_update-append hash [] ys = refl
fnv1a64_update-append hash (x ∷ xs) ys =
    fnv1a64_update-append (bit_xor hash x * fnv_prime64 % 2 ^ 64) xs ys

-- The checksum stays in 64 bits.
pub fnv1a64_update-lt : (hash : ℕ) (xs : List ℕ) → hash < 256 ^ 8 → fnv1a64_update hash xs < 256 ^ 8
unfolding fnv1a64_update
fnv1a64_update-lt hash [] h = h
fnv1a64_update-lt hash (x ∷ xs) h =
    fnv1a64_update-lt (bit_xor hash x * fnv_prime64 % 2 ^ 64) xs (omega arith)
