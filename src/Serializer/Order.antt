-- ===== src/Serializer/Order.antt =====
-- The bytes of integral keys are ordered as the integers are.
use mathlib.Core.List.{reverse, reverse-append}
use native.Mathlib.Numerals.{towards_suc}
use native.Mathlib.Nat.{pow-suc}
use mathlib.Core.Path.{ap₂, subst}
use vmem_kv.Prelude.{
  ℕ, zero, suc, ◌+◌, ◌-◌, ◌*◌, ◌^◌, ◌<◌, ◌≡◌, refl, sym, ap, ◌∙◌, true, false, List, [], ◌∷◌, ◌++◌,
  length, All, arith, ltb, if◌then◌else◌, length-append,
}
use vmem_kv.Bytes.{
  IsByte, le_bytes, le_value, length-le_bytes, le_value-le_bytes, le_bytes-IsByte,
  le_bytes-le_value,
}
use vmem_kv.Bytes.Compare.{Sign, less, same, greater, sign_of, or_then, bytes_compare_3way}
use vmem_kv.Bytes.Compare.Laws.{dictionary, bytes_compare_3way-dictionary}
use vmem_kv.Serializer.{byteswap, flip_sign, encode_integral_key}

nothing : dictionary [] [] ≡ sign_of 0 0
unfolding dictionary sign_of
nothing = refl

or_then_same_right : (s : Sign) → or_then s same ≡ s
or_then_same_right less = refl
or_then_same_right same = refl
or_then_same_right greater = refl

or_then_regroup : (a b c : Sign) → or_then a (or_then b c) ≡ or_then (or_then a b) c
or_then_regroup less b c = refl
or_then_regroup same b c = refl
or_then_regroup greater b c = refl

dictionary-snoc :
    (xs ys : List ℕ) (x y : ℕ)
    → length xs ≡ length ys
    → dictionary (xs ++ x ∷ []) (ys ++ y ∷ []) ≡ or_then (dictionary xs ys) (sign_of x y)
unfolding dictionary
dictionary-snoc [] [] x y e = or_then_same_right (sign_of x y)
dictionary-snoc [] (b ∷ ys) x y e = absurd (omega arith)
dictionary-snoc (a ∷ xs) [] x y e = absurd (omega arith)
dictionary-snoc (a ∷ xs) (b ∷ ys) x y e =
    rw (dictionary-snoc xs ys x y (omega arith))
      (or_then_regroup (sign_of a b) (dictionary xs ys) (sign_of x y))

sign_of-digits :
    (x y a b : ℕ)
    → x < 256
    → y < 256
    → sign_of (x + 256 * a) (y + 256 * b) ≡ or_then (sign_of a b) (sign_of x y)
unfolding sign_of
sign_of-digits x y a b hx hy = ground arith

reverse-cons : (x : ℕ) (xs : List ℕ) → reverse (x ∷ xs) ≡ reverse xs ++ x ∷ []
reverse-cons x xs = reverse-append (x ∷ []) xs

length-reverse : (xs : List ℕ) → length (reverse xs) ≡ length xs
length-reverse [] = refl
length-reverse (x ∷ xs) =
    ap length (reverse-cons x xs)
    ∙ omega (arith, length-append (reverse xs) (x ∷ []), length-reverse xs)

IsByte-snoc : (xs : List ℕ) (x : ℕ) → All IsByte xs → IsByte x → All IsByte (xs ++ x ∷ [])
IsByte-snoc [] x h b = (b, tt)
IsByte-snoc (y ∷ xs) x h b = (h.0, IsByte-snoc xs x h.1 b)

IsByte-reverse : (xs : List ℕ) → All IsByte xs → All IsByte (reverse xs)
IsByte-reverse [] h = tt
IsByte-reverse (x ∷ xs) h =
    subst (All IsByte) (sym (reverse-cons x xs))
      (IsByte-snoc (reverse xs) x (IsByte-reverse xs h.1) h.0)

-- The last digit of a little-endian number is its first byte.
dictionary-reverse :
    (xs ys : List ℕ)
    → length xs ≡ length ys
    → All IsByte xs
    → All IsByte ys
    → dictionary (reverse xs) (reverse ys) ≡ sign_of (le_value xs) (le_value ys)
unfolding le_value
dictionary-reverse [] [] e p q = nothing
dictionary-reverse [] (y ∷ ys) e p q = absurd (omega arith)
dictionary-reverse (x ∷ xs) [] e p q = absurd (omega arith)
dictionary-reverse (x ∷ xs) (y ∷ ys) e p q =
    ap₂ dictionary (reverse-cons x xs) (reverse-cons y ys)
    ∙ dictionary-snoc (reverse xs) (reverse ys) x y
        (omega (arith, length-reverse xs, length-reverse ys))
    ∙ ap (λ s. or_then s (sign_of x y)) (dictionary-reverse xs ys (omega arith) p.1 q.1)
    ∙ sym (sign_of-digits x y (le_value xs) (le_value ys) p.0 q.0)

swapped : (size v : ℕ) → le_bytes size (byteswap size v) ≡ reverse (le_bytes size v)
unfolding byteswap
swapped size v =
    let bytes = reverse (le_bytes size v) in
    let sized : length bytes ≡ size = length-reverse (le_bytes size v) ∙ length-le_bytes size v in
    ap (λ n. le_bytes n (le_value bytes)) (sym sized)
    ∙ le_bytes-le_value bytes (IsByte-reverse (le_bytes size v) (le_bytes-IsByte size v))

compare-swapped :
    (size a b : ℕ)
    → a < 256 ^ size
    → b < 256 ^ size
    → bytes_compare_3way (le_bytes size (byteswap size a)) (le_bytes size (byteswap size b))
      ≡ sign_of a b
compare-swapped size a b ha hb =
    ap₂ bytes_compare_3way (swapped size a) (swapped size b)
    ∙ bytes_compare_3way-dictionary (reverse (le_bytes size a)) (reverse (le_bytes size b))
    ∙ dictionary-reverse (le_bytes size a) (le_bytes size b)
        (length-le_bytes size a ∙ sym (length-le_bytes size b)) (le_bytes-IsByte size a)
        (le_bytes-IsByte size b)
    ∙ ap₂ sign_of (le_value-le_bytes size a ha) (le_value-le_bytes size b hb)

encode_integral_key-unsigned :
    (size a b : ℕ)
    → a < 256 ^ size
    → b < 256 ^ size
    → bytes_compare_3way (encode_integral_key size false a) (encode_integral_key size false b)
      ≡ sign_of a b
unfolding encode_integral_key
encode_integral_key-unsigned size a b ha hb = compare-swapped size a b ha hb

pow_step : (k : ℕ) → 2 ^ (k + 8) ≡ 256 * 2 ^ k
pow_step k = simp towards_suc (omega (arith, pow-suc 2 k))

pow-256 : (n : ℕ) → 256 ^ n ≡ 2 ^ (n * 8)
pow-256 zero = refl
pow-256 (suc n) =
    let e : suc n * 8 ≡ n * 8 + 8 = omega arith in
    rw e (omega (arith, pow-suc 256 n, pow-256 n, pow_step (n * 8)))

-- Two's complement: a pattern with the top bit set stands for a negative number, and among numbers
-- of one sign the patterns are in order.
unfoldable pub signed_sign : ℕ → ℕ → ℕ → Sign
unfolding sign_of
signed_sign size a b =
    let sign_bit = 2 ^ (size * 8 - 1) in
    if ltb a sign_bit
    then (if ltb b sign_bit then sign_of a b else greater)
    else (if ltb b sign_bit then less else sign_of a b)

top_bit : (k : ℕ) → 256 ^ suc k ≡ 2 * 2 ^ (suc k * 8 - 1)
top_bit k =
    let e : suc k * 8 ≡ suc (suc k * 8 - 1) = omega arith in
    omega (arith, pow-256 (suc k), ap (λ n. 2 ^ n) e, pow-suc 2 (suc k * 8 - 1))

flip_sign_bound : (k a : ℕ) → a < 256 ^ suc k → flip_sign (suc k) a < 256 ^ suc k
unfolding flip_sign
flip_sign_bound k a h = ground (arith, top_bit k)

flip_sign-order :
    (k a b : ℕ)
    → a < 256 ^ suc k
    → b < 256 ^ suc k
    → sign_of (flip_sign (suc k) a) (flip_sign (suc k) b) ≡ signed_sign (suc k) a b
unfolding flip_sign signed_sign
flip_sign-order k a b ha hb = ground (arith, top_bit k)

-- The bytes of two integral keys of one type of at least one byte compare as the integers do,
-- those of an unsigned type as their patterns and those of a signed type in two's complement.
pub encode_integral_key_order :
    (k a b : ℕ)
    → a < 256 ^ suc k
    → b < 256 ^ suc k
    → (bytes_compare_3way
          (encode_integral_key (suc k) false a)
          (encode_integral_key (suc k) false b)
        ≡ sign_of a b)
      × (bytes_compare_3way
            (encode_integral_key (suc k) true a)
            (encode_integral_key (suc k) true b)
          ≡ signed_sign (suc k) a b)
unfolding encode_integral_key
encode_integral_key_order k a b ha hb = (
  compare-swapped (suc k) a b ha hb,
  compare-swapped (suc k) (flip_sign (suc k) a) (flip_sign (suc k) b) (flip_sign_bound k a ha)
        (flip_sign_bound k b hb)
      ∙ flip_sign-order k a b ha hb,
)
