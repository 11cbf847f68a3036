-- ===== src/T1/Entry.antt =====
-- Entries of the index and their order, implementation/vmemkv/src/t1_index/t1_index.hpp. Keys are
-- compared as std::array does, byte by byte from the front.
pub mod Order
use vmem_kv.Prelude.{ℕ, ◌≡◌, Bool, true, false, ◌&&◌, not, List, ◌==◌, ltb, if◌then◌else◌}
use vmem_kv.Bytes.Compare.{Sign, less, same, greater, is_same, is_less}
use vmem_kv.Bytes.Compare.Laws.{dictionary}
use vmem_kv.T1.Codec.{clean_hash, store_not_found}

pub record EntrySnapshot : Type 0 where
  pub key : List ℕ
  pub payload_bits : ℕ
  pub hash : ℕ

abbrev pub key_equal : List ℕ → List ℕ → Bool
key_equal a b = is_same (dictionary a b)

abbrev pub key_less : List ℕ → List ℕ → Bool
key_less a b = is_less (dictionary a b)

unfoldable pub entry_identity_equal : List ℕ → ℕ → List ℕ → ℕ → Bool
unfolding clean_hash
entry_identity_equal a_key a_hash b_key b_hash =
    key_equal a_key b_key && clean_hash a_hash == clean_hash b_hash

unfoldable pub entry_less : List ℕ → ℕ → List ℕ → ℕ → Bool
unfolding clean_hash
entry_less a_key a_hash b_key b_hash =
    if not (key_equal a_key b_key)
    then key_less a_key b_key
    else ltb (clean_hash a_hash) (clean_hash b_hash)

abbrev pub is_live : ℕ → Bool
is_live value = not (value == store_not_found)

-- A slot holds this prefix and clean hash.
unfoldable pub answers : List ℕ → ℕ → EntrySnapshot → Bool
unfolding clean_hash
answers prefix hash e = key_equal e.key prefix && clean_hash e.hash == hash
