-- ===== src/Serializer.antt =====
-- Integral keys as bytes, implementation/vmemkv/src/api/serializer.hpp, on a little-endian host.
pub mod Order
use mathlib.Core.List.{reverse}
use vmem_kv.Prelude.{ℕ, ◌+◌, ◌-◌, ◌*◌, ◌^◌, Bool, true, false, List, ltb, if◌then◌else◌}
use vmem_kv.Bytes.{le_bytes, le_value}

-- std::byteswap on an unsigned integer of `size` bytes.
unfoldable pub byteswap : ℕ → ℕ → ℕ
byteswap size v = le_value (reverse (le_bytes size v))

-- `encoded ^= sign_bit`: the top bit is turned over.
unfoldable pub flip_sign : ℕ → ℕ → ℕ
flip_sign size encoded =
    let sign_bit = 2 ^ (size * 8 - 1) in
    if ltb encoded sign_bit then encoded + sign_bit else encoded - sign_bit

-- encode_integral_key for a type of `size` bytes. A value is its bit pattern, the static_cast to
-- the unsigned type.
unfoldable pub encode_integral_key : ℕ → Bool → ℕ → List ℕ
unfolding byteswap flip_sign
encode_integral_key size signed value =
    let encoded = if signed then flip_sign size value else value in
    le_bytes size (byteswap size encoded)
