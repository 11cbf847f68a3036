-- ===== src/T1/Bloom.antt =====
-- The filter in front of the sorted region, implementation/vmemkv/src/optimizations/bloom_filter.hpp.
-- The 64-bit words are the list of their bits, word by word and lowest first.
pub mod Size
pub mod Laws
use vmem_kv.Prelude.{
  ℕ, zero, suc, ◌+◌, ◌-◌, ◌*◌, ◌/◌, ◌%◌, ◌^◌, max, Bool, true, false, ◌&&◌, List, [], ◌∷◌, Option,
  none, some, length, replicate, set, get_elem?, ◌==◌, leb, if◌then◌else◌, bit_xor,
}

pub record BloomFilter : Type 0 where
  pub words : List Bool
  pub mask_bits : ℕ

abbrev pub bloom_filter_word_bits : ℕ
bloom_filter_word_bits = 64

-- std::bit_ceil: the first power of two from p that is at least n, within so many doublings.
unfoldable pub bit_ceil_from : ℕ → ℕ → ℕ → ℕ
bit_ceil_from zero p n = p
bit_ceil_from (suc fuel) p n =
    let rest = bit_ceil_from fuel (2 * p) n in if leb n p then p else rest

unfoldable pub reset : ℕ → BloomFilter
unfolding bit_ceil_from
reset entry_count =
    if entry_count == 0
    then record { words = []; mask_bits = 0 }
    else (let bits = bit_ceil_from 63 1 (max bloom_filter_word_bits (entry_count * 8)) in
        record { words = replicate (bits / 64 * 64) false; mask_bits = bits - 1 })

unfoldable pub mix : ℕ → ℕ
mix h0 =
    let h1 = bit_xor h0 (h0 / 2 ^ 33) in
    let h2 = h1 * 0xff51afd7ed558ccd % 2 ^ 64 in
    let h3 = bit_xor h2 (h2 / 2 ^ 33) in
    let h4 = h3 * 0xc4ceb9fe1a85ec53 % 2 ^ 64 in bit_xor h4 (h4 / 2 ^ 33)

-- `& mask_bits_`, where the mask is one less than a power of two.
unfoldable pub bit_index : BloomFilter → ℕ → ℕ
bit_index bloom hash = hash % suc bloom.mask_bits

unfoldable pub set_bit : ℕ → BloomFilter → BloomFilter
set_bit index bloom = record { words = set bloom.words index true; mask_bits = bloom.mask_bits }

unfoldable pub test_bit : BloomFilter → ℕ → Bool
test_bit bloom index = elim (get_elem? bloom.words index) [ some b ↦ b | none ↦ false ]

unfoldable pub add : ℕ → BloomFilter → BloomFilter
add hash bloom =
    if length bloom.words == 0
    then bloom
    else set_bit (bit_index bloom (mix (mix hash)))
        (set_bit (bit_index bloom (mix hash)) (set_bit (bit_index bloom hash) bloom))

unfoldable pub maybe_contains : BloomFilter → ℕ → Bool
maybe_contains bloom hash =
    if length bloom.words == 0
    then true
    else test_bit bloom (bit_index bloom hash)
      && test_bit bloom (bit_index bloom (mix hash))
      && test_bit bloom (bit_index bloom (mix (mix hash)))
