-- ===== src/Defrag/Victims/Sorting.antt =====
-- Sorted lists of numbers, and the binary search in them.
use mathlib.Core.List.{Memᴰ}
use vmem_kv.Prelude.{
  ℕ, ◌≤◌, ◌≡◌, ◌⊎◌, inl, inr, List, [], ◌∷◌, All, ltb, Bool-cases, arith, ltb→lt, ltb_false→le,
}
use vmem_kv.Defrag.Victims.{insert_number, sort_numbers}

abbrev pub IsSorted : List ℕ → Type 0
IsSorted [] = Unit
IsSorted (n ∷ ns) = All (λ m. n ≤ m) ns × IsSorted ns

module _ {ℓ} (P : ℕ → Type ℓ) where
  All-insert_number : (n : ℕ) (ns : List ℕ) → P n → All P ns → All P (insert_number n ns)
  unfolding insert_number
  All-insert_number n [] p h = (p, tt)
  All-insert_number n (m ∷ ms) p h = elim (Bool-cases (ltb m n)) [
    | inl e ↦ rw e (h.0, All-insert_number n ms p h.1)
    | inr e ↦ rw e (p, h)
  ]

  pub All-sort_numbers : (ns : List ℕ) → All P ns → All P (sort_numbers ns)
  unfolding sort_numbers
  All-sort_numbers [] h = tt
  All-sort_numbers (n ∷ ns) h = All-insert_number n (sort_numbers ns) h.0 (All-sort_numbers ns h.1)

All-le_trans : (n m : ℕ) (ns : List ℕ) → n ≤ m → All (λ k. m ≤ k) ns → All (λ k. n ≤ k) ns
All-le_trans n m [] h a = tt
All-le_trans n m (k ∷ ns) h a = (omega (arith, a.0), All-le_trans n m ns h a.1)

IsSorted-insert_number : (n : ℕ) (ns : List ℕ) → IsSorted ns → IsSorted (insert_number n ns)
unfolding insert_number
IsSorted-insert_number n [] h = (tt, tt)
IsSorted-insert_number n (m ∷ ms) h = elim (Bool-cases (ltb m n)) [
  | inl e ↦ rw e (
    All-insert_number (λ k. m ≤ k) n ms (omega (arith, ltb→lt m n e)) h.0,
    IsSorted-insert_number n ms h.1,
  )
  | inr e ↦ let le = ltb_false→le m n e in rw e ((le, All-le_trans n m ms le h.0), h)
]

pub IsSorted-sort_numbers : (ns : List ℕ) → IsSorted (sort_numbers ns)
unfolding sort_numbers
IsSorted-sort_numbers [] = tt
IsSorted-sort_numbers (n ∷ ns) =
    IsSorted-insert_number n (sort_numbers ns) (IsSorted-sort_numbers ns)

Memᴰ-insert_number : (x n : ℕ) (ns : List ℕ) → (x ≡ n) ⊎ Memᴰ x ns → Memᴰ x (insert_number n ns)
unfolding insert_number
Memᴰ-insert_number x n [] (inl e) = Memᴰ.head e
Memᴰ-insert_number x n [] (inr m) = elim m [ ]
Memᴰ-insert_number x n (m ∷ ms) h = elim (Bool-cases (ltb m n)) [
  | inl e ↦ rw e (elim h [
    | inl q ↦ Memᴰ.tail (Memᴰ-insert_number x n ms (inl q))
    | inr (Memᴰ.head q) ↦ Memᴰ.head q
    | inr (Memᴰ.tail q) ↦ Memᴰ.tail (Memᴰ-insert_number x n ms (inr q))
  ])
  | inr e ↦ rw e (elim h [ inl q ↦ Memᴰ.head q | inr q ↦ Memᴰ.tail q ])
]

pub Memᴰ-sort_numbers : (x : ℕ) (ns : List ℕ) → Memᴰ x ns → Memᴰ x (sort_numbers ns)
unfolding sort_numbers
Memᴰ-sort_numbers x (n ∷ ns) (Memᴰ.head e) = Memᴰ-insert_number x n (sort_numbers ns) (inl e)
Memᴰ-sort_numbers x (n ∷ ns) (Memᴰ.tail m) =
    Memᴰ-insert_number x n (sort_numbers ns) (inr (Memᴰ-sort_numbers x ns m))
Memᴰ-sort_numbers x [] m = elim m [ ]
