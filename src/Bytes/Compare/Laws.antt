-- ===== src/Bytes/Compare/Laws.antt =====
-- bytes_compare_3way is the dictionary order, which is a total order.
use vmem_kv.Prelude.{
  Bool-cases, inl, inr, ==_iff, ℕ, suc, min, ◌≡◌, refl, sym, ap, ◌∙◌, List, [], ◌∷◌, length, ◌==◌,
  arith,
}
use vmem_kv.Bytes.Compare.{Sign, less, same, greater, sign_of, or_then, memcmp, bytes_compare_3way}

-- The dictionary order, the shorter string first.
unfoldable pub dictionary : List ℕ → List ℕ → Sign
dictionary [] [] = same
dictionary [] (y ∷ ys) = less
dictionary (x ∷ xs) [] = greater
dictionary (x ∷ xs) (y ∷ ys) = or_then (sign_of x y) (dictionary xs ys)

abbrev pub flip : Sign → Sign
flip less = greater
flip same = same
flip greater = less

pub sign_of-flip : (a b : ℕ) → sign_of b a ≡ flip (sign_of a b)
unfolding sign_of
sign_of-flip a b = ground arith

pub sign_of-same : (a b : ℕ) → sign_of a b ≡ same → a ≡ b
unfolding sign_of
sign_of-same a b h = ground arith

pub sign_of_self : (a : ℕ) → sign_of a a ≡ same
unfolding sign_of
sign_of_self a = ground arith

pub sign_of_trans : (a b c : ℕ) → sign_of a b ≡ less → sign_of b c ≡ less → sign_of a c ≡ less
unfolding sign_of
sign_of_trans a b c p q = ground arith

or_then_assoc : (a b c : Sign) → or_then (or_then a b) c ≡ or_then a (or_then b c)
or_then_assoc less b c = refl
or_then_assoc same b c = refl
or_then_assoc greater b c = refl

sign_of-suc : (a b : ℕ) → sign_of (suc a) (suc b) ≡ sign_of a b
unfolding sign_of
sign_of-suc a b = ground arith

shorter : (n : ℕ) → sign_of 0 (suc n) ≡ less
unfolding sign_of
shorter n = ground arith

longer : (n : ℕ) → sign_of (suc n) 0 ≡ greater
unfolding sign_of
longer n = ground arith

pub flip-or_then : (a b : Sign) → or_then (flip a) (flip b) ≡ flip (or_then a b)
flip-or_then less b = refl
flip-or_then same b = refl
flip-or_then greater b = refl

pub or_then-same : (a b : Sign) → or_then a b ≡ same → (a ≡ same) × (b ≡ same)
or_then-same less b h = cc
or_then-same same b h = (refl, h)
or_then-same greater b h = cc

or_then_trans :
    (x y z : ℕ) (p q r : Sign)
    → (p ≡ less → q ≡ less → r ≡ less)
    → or_then (sign_of x y) p ≡ less
    → or_then (sign_of y z) q ≡ less
    → or_then (sign_of x z) r ≡ less
unfolding sign_of
or_then_trans x y z p q r tail h k = ground arith

memcmp-dictionary :
    (a b : List ℕ)
    → or_then (memcmp (min (length a) (length b)) a b) (sign_of (length a) (length b))
      ≡ dictionary a b
unfolding memcmp dictionary
memcmp-dictionary [] [] = refl
memcmp-dictionary [] (y ∷ ys) =
    let e : min 0 (suc (length ys)) ≡ 0 = omega arith in rw e (shorter (length ys))
memcmp-dictionary (x ∷ xs) [] =
    let e : min (suc (length xs)) 0 ≡ 0 = omega arith in rw e (longer (length xs))
memcmp-dictionary (x ∷ xs) (y ∷ ys) =
    let e : min (suc (length xs)) (suc (length ys)) ≡ suc (min (length xs) (length ys)) =
      omega arith in
    rw (e, sign_of-suc (length xs) (length ys), or_then_assoc)
      (ap (or_then (sign_of x y)) (memcmp-dictionary xs ys))

memcmp_zero : (a b : List ℕ) → memcmp 0 a b ≡ same
unfolding memcmp
memcmp_zero [] b = refl
memcmp_zero (x ∷ xs) b = refl

pub bytes_compare_3way-dictionary : (a b : List ℕ) → bytes_compare_3way a b ≡ dictionary a b
unfolding bytes_compare_3way
bytes_compare_3way-dictionary a b = elim (Bool-cases (min (length a) (length b) == 0)) [
  | inl empty ↦
      let e : min (length a) (length b) ≡ 0 = (==_iff (min (length a) (length b)) 0).0 empty in
      rw empty (
        ap (λ s. or_then s (sign_of (length a) (length b)))
          (sym (ap (λ n. memcmp n a b) e ∙ memcmp_zero a b))
        ∙ memcmp-dictionary a b)
  | inr some' ↦ rw some' (memcmp-dictionary a b)
]

pub dictionary-flip : (a b : List ℕ) → dictionary b a ≡ flip (dictionary a b)
unfolding dictionary
dictionary-flip [] [] = refl
dictionary-flip [] (y ∷ ys) = refl
dictionary-flip (x ∷ xs) [] = refl
dictionary-flip (x ∷ xs) (y ∷ ys) =
    rw (sign_of-flip x y, dictionary-flip xs ys) (flip-or_then (sign_of x y) (dictionary xs ys))

pub dictionary_self : (a : List ℕ) → dictionary a a ≡ same
unfolding dictionary
dictionary_self [] = refl
dictionary_self (x ∷ xs) = rw (sign_of_self x) (dictionary_self xs)

pub dictionary-same : (a b : List ℕ) → dictionary a b ≡ same → a ≡ b
unfolding dictionary
dictionary-same [] [] h = refl
dictionary-same [] (y ∷ ys) h = cc
dictionary-same (x ∷ xs) [] h = cc
dictionary-same (x ∷ xs) (y ∷ ys) h =
    let (first, rest) = or_then-same (sign_of x y) (dictionary xs ys) h in
    cc (sign_of-same x y first, dictionary-same xs ys rest)

pub dictionary_trans :
    (a b c : List ℕ) → dictionary a b ≡ less → dictionary b c ≡ less → dictionary a c ≡ less
unfolding dictionary
dictionary_trans [] [] c p q = cc
dictionary_trans [] (y ∷ ys) [] p q = cc
dictionary_trans [] (y ∷ ys) (z ∷ zs) p q = refl
dictionary_trans (x ∷ xs) [] c p q = cc
dictionary_trans (x ∷ xs) (y ∷ ys) [] p q = cc
dictionary_trans (x ∷ xs) (y ∷ ys) (z ∷ zs) p q =
    or_then_trans x y z (dictionary xs ys) (dictionary ys zs) (dictionary xs zs)
      (dictionary_trans xs ys zs) p q
