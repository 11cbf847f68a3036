-- ===== src/Store/Inline.antt =====
-- Small values inside the index: try_make_inline_payload of
-- implementation/vmemkv/src/vmemkv/write_path.hpp, and inline_key_len and copy_inline_value of
-- implementation/vmemkv/src/vmemkv/read_path.hpp.
pub mod RoundTrip
pub mod Recover
use vmem_kv.Prelude.{
  ℕ, zero, suc, ◌+◌, ◌*◌, ◌/◌, Bool, true, false, ◌&&◌, ◌||◌, not, Option, none, some, List, [],
  ◌∷◌, length, take, drop, leb, ◌==◌, if◌then◌else◌,
}
use vmem_kv.Bytes.{le_bytes, le_value}
use vmem_kv.T1.Codec.{store_key_bytes, inline_value_byte_count, store_not_found}

-- full_key.back(), which is asked of a key that is not empty.
abbrev pub back : List ℕ → ℕ
back [] = 0
back (x ∷ []) = x
back (x ∷ y ∷ xs) = back (y ∷ xs)

-- The first argument is ConfigT::UseT1InlineValue. The payload and the size.
unfoldable pub try_make_inline_payload : Bool → List ℕ → List ℕ → Option (ℕ × ℕ)
try_make_inline_payload use_t1_inline_value full_key value =
    let payload = le_value value in
    if use_t1_inline_value
      && leb (length full_key) store_key_bytes
      && (length full_key == 0 || not (back full_key == 0))
      && not (length value == 0)
      && leb (length value) inline_value_byte_count
    then (if payload == store_not_found then none else some (payload, length value))
    else none

-- std::bit_width of a number below 2 ^ fuel.
unfoldable pub bit_width : ℕ → ℕ → ℕ
bit_width zero n = 0
bit_width (suc fuel) n = let rest = bit_width fuel (n / 2) in if n == 0 then 0 else suc rest

unfoldable pub inline_key_len : List ℕ → ℕ
inline_key_len index_key =
    let lo_word = le_value (take 8 index_key) in
    let hi_word = le_value (take 8 (drop 8 index_key)) in
    if not (hi_word == 0)
    then 8 + (bit_width 64 hi_word + 7) / 8
    else (bit_width 64 lo_word + 7) / 8

unfoldable pub copy_inline_value : ℕ → ℕ → List ℕ
copy_inline_value payload_bits size = take size (le_bytes 8 payload_bits)
