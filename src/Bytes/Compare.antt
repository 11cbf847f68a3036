-- ===== src/Bytes/Compare.antt =====
-- The order of byte strings, implementation/vmemkv/src/core/bytes.hpp.
pub mod Laws
pub mod Order
use Prim.Native.Nat.{compare}
use vmem_kv.Prelude.{
  ℕ, zero, suc, min, Bool, true, false, ◌&&◌, not, List, [], ◌∷◌, length, ltb, ◌==◌, if◌then◌else◌,
}

-- The sign of an `int` comparison result.
pub data Sign : Type 0 where
  less same greater : Sign

-- The sign of a difference of two numbers.
unfoldable pub sign_of : ℕ → ℕ → Sign
sign_of a b = if ltb a b then less else if ltb b a then greater else same

abbrev pub or_then : Sign → Sign → Sign
or_then less s = less
or_then greater s = greater
or_then same s = s

-- The first n bytes decide, the first difference first.
unfoldable pub memcmp : ℕ → List ℕ → List ℕ → Sign
unfolding sign_of
memcmp (suc n) (x ∷ xs) (y ∷ ys) = or_then (sign_of x y) (memcmp n xs ys)
memcmp _ _ _ = same

unfoldable pub bytes_compare_3way : List ℕ → List ℕ → Sign
unfolding memcmp sign_of
bytes_compare_3way a b =
    let min_len = min (length a) (length b) in
    let cmp : Sign = if min_len == 0 then same else memcmp min_len a b in
    or_then cmp (sign_of (length a) (length b))

abbrev pub is_same : Sign → Bool
is_same same = true
is_same _ = false

abbrev pub is_less : Sign → Bool
is_less less = true
is_less _ = false

abbrev is_greater : Sign → Bool
is_greater greater = true
is_greater _ = false

unfoldable pub bytes_equal : List ℕ → List ℕ → Bool
unfolding bytes_compare_3way
bytes_equal a b = length a == length b && is_same (bytes_compare_3way a b)

unfoldable pub bytes_in_range : List ℕ → List ℕ → List ℕ → Bool
unfolding bytes_compare_3way
bytes_in_range key lo hi =
    not (is_less (bytes_compare_3way key lo)) && not (is_greater (bytes_compare_3way key hi))
