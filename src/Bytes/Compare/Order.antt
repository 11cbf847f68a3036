-- ===== src/Bytes/Compare/Order.antt =====
-- bytes_compare_3way as an order on byte strings.
use vmem_kv.Prelude.{
  ℕ, ◌<◌, ◌≡◌, refl, sym, ap, ◌∙◌, ◌↔◌, ◌⊎◌, inl, inr, true, List, [], ◌∷◌, ◌++◌, length, ==_refl,
  arith,
}
use vmem_kv.Bytes.Compare.{Sign, sign_of, or_then, less, same, bytes_compare_3way, bytes_equal}
use vmem_kv.Bytes.Compare.Laws.{
  dictionary, flip, sign_of_self, dictionary-flip, dictionary_self, dictionary-same,
  dictionary_trans, bytes_compare_3way-dictionary,
}

-- a stands before b: it is a proper prefix of b, or it has the smaller byte at the first position
-- where they differ.
pub data Precedes (a b : List ℕ) : Type 0 where
  shorter : (y : ℕ) (ys : List ℕ) → b ≡ a ++ (y ∷ ys) → Precedes a b
  smaller :
      (pre : List ℕ) (x y : ℕ) (xs ys : List ℕ)
      → a ≡ pre ++ (x ∷ xs)
      → b ≡ pre ++ (y ∷ ys)
      → x < y
      → Precedes a b

or_then-less :
    (x y : ℕ) (s : Sign) → or_then (sign_of x y) s ≡ less → (x < y) ⊎ ((x ≡ y) × (s ≡ less))
unfolding sign_of
or_then-less x y s h = ground arith

sign_of-less : (x y : ℕ) → x < y → sign_of x y ≡ less
unfolding sign_of
sign_of-less x y h = ground arith

Precedes-cons : (x : ℕ) (a b : List ℕ) → Precedes a b → Precedes (x ∷ a) (x ∷ b)
Precedes-cons x a b (shorter y ys e) = shorter y ys (ap (λ zs. x ∷ zs) e)
Precedes-cons x a b (smaller pre p q ps qs e f h) =
    smaller (x ∷ pre) p q ps qs (ap (λ zs. x ∷ zs) e) (ap (λ zs. x ∷ zs) f) h

dictionary-Precedes : (a b : List ℕ) → dictionary a b ≡ less → Precedes a b
unfolding dictionary
dictionary-Precedes [] [] h = cc
dictionary-Precedes [] (y ∷ ys) h = shorter y ys refl
dictionary-Precedes (x ∷ xs) [] h = cc
dictionary-Precedes (x ∷ xs) (y ∷ ys) h = elim (or_then-less x y (dictionary xs ys) h) [
  | inl low ↦ smaller [] x y xs ys refl refl low
  | inr (e, rest) ↦ rw e (Precedes-cons y xs ys (dictionary-Precedes xs ys rest))
]

dictionary-shorter : (a : List ℕ) (y : ℕ) (ys : List ℕ) → dictionary a (a ++ (y ∷ ys)) ≡ less
unfolding dictionary
dictionary-shorter [] y ys = refl
dictionary-shorter (x ∷ xs) y ys = rw (sign_of_self x) (dictionary-shorter xs y ys)

dictionary-smaller :
    (pre : List ℕ) (x y : ℕ) (xs ys : List ℕ)
    → x < y
    → dictionary (pre ++ (x ∷ xs)) (pre ++ (y ∷ ys)) ≡ less
unfolding dictionary
dictionary-smaller [] x y xs ys h = rw (sign_of-less x y h) refl
dictionary-smaller (p ∷ pre) x y xs ys h = rw (sign_of_self p) (dictionary-smaller pre x y xs ys h)

Precedes-dictionary : (a b : List ℕ) → Precedes a b → dictionary a b ≡ less
Precedes-dictionary a b (shorter y ys e) = rw e (dictionary-shorter a y ys)
Precedes-dictionary a b (smaller pre x y xs ys e f h) =
    rw (e, f) (dictionary-smaller pre x y xs ys h)

-- The first byte string compares as less exactly when it is a proper prefix of the second, or has
-- the smaller byte at the first position where they differ. Two byte strings compare as the same
-- exactly when they are the same, and swapping the operands turns the sign round.
pub bytes_compare_3way_order :
    (a b : List ℕ)
    → ((bytes_compare_3way a b ≡ less) ↔ Precedes a b)
      × ((bytes_compare_3way a b ≡ same) ↔ (a ≡ b))
      × (bytes_compare_3way b a ≡ flip (bytes_compare_3way a b))
bytes_compare_3way_order a b =
    rw (bytes_compare_3way-dictionary a b, bytes_compare_3way-dictionary b a)
      (
        (dictionary-Precedes a b, Precedes-dictionary a b),
        (dictionary-same a b, λ e. ap (dictionary a) (sym e) ∙ dictionary_self a),
        dictionary-flip a b,
      )

-- The comparison is transitive: a string that is less than one that is less than a third is less than
-- the third.
pub bytes_compare_3way_trans :
    (a b c : List ℕ)
    → bytes_compare_3way a b ≡ less
    → bytes_compare_3way b c ≡ less
    → bytes_compare_3way a c ≡ less
bytes_compare_3way_trans a b c h k =
    bytes_compare_3way-dictionary a c
    ∙ dictionary_trans a b c (sym (bytes_compare_3way-dictionary a b) ∙ h)
        (sym (bytes_compare_3way-dictionary b c) ∙ k)

-- bytes_equal decides equality.
pub bytes_equal_iff : (a b : List ℕ) → (bytes_equal a b ≡ true) ↔ (a ≡ b)
unfolding bytes_equal
bytes_equal_iff a b = (
  λ h. dictionary-same a b (ground (arith, bytes_compare_3way-dictionary a b)),
  λ e. rw (e, bytes_compare_3way-dictionary b b, dictionary_self b, ==_refl (length b)),
)
