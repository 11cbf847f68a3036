-- ===== src/T1/Codec/Laws.antt =====
-- Inline metadata is read back, and leaves the clean hash alone.
use vmem_kv.Prelude.{ℕ, ◌≤◌, ◌≡◌, true, false, List, arith}
use vmem_kv.T1.Codec.{clean_hash, hash_full_key, is_inline, decode_size, embed_metadata}

pub clean_hash-embed_metadata :
    (hash size : ℕ) → clean_hash (embed_metadata hash size) ≡ clean_hash hash
unfolding embed_metadata clean_hash
clean_hash-embed_metadata hash size = omega arith

pub clean_hash-clean_hash : (hash : ℕ) → clean_hash (clean_hash hash) ≡ clean_hash hash
unfolding clean_hash
clean_hash-clean_hash hash = omega arith

pub is_inline-embed_metadata : (hash size : ℕ) → is_inline (embed_metadata hash size) ≡ true
unfolding embed_metadata is_inline clean_hash
is_inline-embed_metadata hash size = ground arith

pub is_inline-hash_full_key : (key : List ℕ) → is_inline (hash_full_key key) ≡ false
unfolding hash_full_key is_inline clean_hash
is_inline-hash_full_key key = ground arith

pub decode_size-embed_metadata :
    (hash size : ℕ) → 1 ≤ size → size ≤ 8 → decode_size (embed_metadata hash size) ≡ size
unfolding embed_metadata decode_size clean_hash
decode_size-embed_metadata hash size low high = ground arith
