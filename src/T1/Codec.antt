-- ===== src/T1/Codec.antt =====
-- The coding of keys, hashes and payloads of implementation/vmemkv/src/t1_index/t1_index.hpp. A
-- 64-bit word is a number below 2 ^ 64, and its bit fields are read by / and %.
pub mod Laws
use vmem_kv.Prelude.{
  ℕ, ◌+◌, ◌-◌, ◌*◌, ◌/◌, ◌%◌, ◌^◌, min, Bool, List, ◌++◌, length, take, replicate, ◌==◌,
  if◌then◌else◌,
}
use vmem_kv.Checksum.{fnv1a64_update}

abbrev pub store_key_bytes : ℕ
store_key_bytes = 16

abbrev pub inline_value_byte_count : ℕ
inline_value_byte_count = 8

-- ~0ULL
abbrev pub store_not_found : ℕ
store_not_found = 0xffffffffffffffff

-- A zeroed array of 16 bytes, the first bytes of the key copied into it.
unfoldable pub prefix_from_bytes : List ℕ → List ℕ
prefix_from_bytes key =
    let byte_count = min (length key) store_key_bytes in
    take byte_count key ++ replicate (store_key_bytes - byte_count) 0

-- `& kCleanHashMask`: the upper 4 bits are cleared.
unfoldable pub clean_hash : ℕ → ℕ
clean_hash hash = hash % 2 ^ 60

-- The loop is that of fnv1a64_update.
unfoldable pub hash_full_key : List ℕ → ℕ
unfolding clean_hash
hash_full_key key = clean_hash (fnv1a64_update 14695981039346656037 key)

unfoldable pub is_inline : ℕ → Bool
is_inline hash = hash / 2 ^ 63 % 2 == 1

unfoldable pub decode_size : ℕ → ℕ
decode_size hash =
    let size_code = hash / 2 ^ 60 % 8 in
    if size_code == 0 then inline_value_byte_count else size_code

-- The three parts share no bit, so `|` is +.
unfoldable pub embed_metadata : ℕ → ℕ → ℕ
unfolding clean_hash
embed_metadata hash size = clean_hash hash + 2 ^ 63 + size % 8 * 2 ^ 60
