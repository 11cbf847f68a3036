-- ===== src/T1/Bloom/Laws.antt =====
-- The filter has no false negative.
use vmem_kv.Prelude.{
  ℕ, ◌<◌, ◌≡◌, refl, sym, ap, ◌∙◌, Bool, true, false, ◌&&◌, length, ◌==◌, arith, Bool-cases, inl,
  inr,
}
use vmem_kv.T1.Bloom.{BloomFilter, mix, bit_index, set_bit, test_bit, add, maybe_contains}
use vmem_kv.T1.Bloom.Size.{IsSized, length-set, bit_at-set, bit_at-set_kept}

IsSized-set_bit : (i : ℕ) (bloom : BloomFilter) → IsSized bloom → IsSized (set_bit i bloom)
unfolding IsSized set_bit
IsSized-set_bit i bloom (inl h) = inl (length-set bloom.words i ∙ h)
IsSized-set_bit i bloom (inr h) = inr (length-set bloom.words i ∙ h)

length-set_bit :
    (i : ℕ) (bloom : BloomFilter) → length ((set_bit i bloom).words) ≡ length bloom.words
unfolding set_bit
length-set_bit i bloom = length-set bloom.words i

test_bit-set_bit :
    (i : ℕ) (bloom : BloomFilter) → i < length bloom.words → test_bit (set_bit i bloom) i ≡ true
unfolding test_bit set_bit
test_bit-set_bit i bloom h = bit_at-set bloom.words i h

test_bit-set_bit_kept :
    (i j : ℕ) (bloom : BloomFilter) → test_bit bloom j ≡ true → test_bit (set_bit i bloom) j ≡ true
unfolding test_bit set_bit
test_bit-set_bit_kept i j bloom h = bit_at-set_kept bloom.words i j h

bit_index_bound :
    (bloom : BloomFilter) (hash : ℕ)
    → IsSized bloom
    → (length bloom.words == 0) ≡ false
    → bit_index bloom hash < length bloom.words
unfolding bit_index IsSized
bit_index_bound bloom hash (inl h) n = ground arith
bit_index_bound bloom hash (inr h) n = omega arith

module _ (hash : ℕ) (bloom : BloomFilter) (n : (length bloom.words == 0) ≡ false) where
  abbrev three : BloomFilter
  three =
      set_bit (bit_index bloom (mix (mix hash)))
        (set_bit (bit_index bloom (mix hash)) (set_bit (bit_index bloom hash) bloom))

  add-three : add hash bloom ≡ three
  unfolding add
  add-three = rw n refl

  three-index : (g : ℕ) → bit_index three g ≡ bit_index bloom g
  unfolding bit_index set_bit
  three-index g = refl

  three-kept : (i : ℕ) → test_bit bloom i ≡ true → test_bit three i ≡ true
  three-kept i h =
      let a = bit_index bloom hash in
      let b = bit_index bloom (mix hash) in
      let c = bit_index bloom (mix (mix hash)) in
      test_bit-set_bit_kept c i (set_bit b (set_bit a bloom))
        (test_bit-set_bit_kept b i (set_bit a bloom) (test_bit-set_bit_kept a i bloom h))

  three-set :
      IsSized bloom
      → (test_bit three (bit_index bloom hash) ≡ true)
        × (test_bit three (bit_index bloom (mix hash)) ≡ true)
        × (test_bit three (bit_index bloom (mix (mix hash))) ≡ true)
  three-set h =
      let a = bit_index bloom hash in
      let b = bit_index bloom (mix hash) in
      let c = bit_index bloom (mix (mix hash)) in
      let one = set_bit a bloom in
      let two = set_bit b one in
      let len1 : length one.words ≡ length bloom.words = length-set_bit a bloom in
      let len2 : length two.words ≡ length bloom.words = length-set_bit b one ∙ len1 in
      (
        test_bit-set_bit_kept c a two (
            test_bit-set_bit_kept b a one
              (test_bit-set_bit a bloom (bit_index_bound bloom hash h n))),
        test_bit-set_bit_kept c b two
            (test_bit-set_bit b one (omega (arith, bit_index_bound bloom (mix hash) h n))),
        test_bit-set_bit c two (omega (arith, bit_index_bound bloom (mix (mix hash)) h n)),
      )

add-empty :
    (hash : ℕ) (bloom : BloomFilter) → (length bloom.words == 0) ≡ true → add hash bloom ≡ bloom
unfolding add
add-empty hash bloom e = rw e refl

empty-contains :
    (hash : ℕ) (bloom : BloomFilter)
    → (length bloom.words == 0) ≡ true
    → maybe_contains bloom hash ≡ true
unfolding maybe_contains
empty-contains hash bloom e = rw e refl

test_all :
    (bloom : BloomFilter) (g : ℕ)
    → test_bit bloom (bit_index bloom g) ≡ true
    → test_bit bloom (bit_index bloom (mix g)) ≡ true
    → test_bit bloom (bit_index bloom (mix (mix g))) ≡ true
    → maybe_contains bloom g ≡ true
unfolding maybe_contains
test_all bloom g p q r = elim (Bool-cases (length bloom.words == 0)) [
  | inl e ↦ rw e refl
  | inr e ↦ rw (e, p, q, r) refl
]

and-true : (a b : Bool) → (a && b) ≡ true → (a ≡ true) × (b ≡ true)
and-true true b h = (refl, h)
and-true false true h = cc
and-true false false h = cc

test_each :
    (bloom : BloomFilter) (g : ℕ)
    → (length bloom.words == 0) ≡ false
    → maybe_contains bloom g ≡ true
    → (test_bit bloom (bit_index bloom g) ≡ true)
      × (test_bit bloom (bit_index bloom (mix g)) ≡ true)
      × (test_bit bloom (bit_index bloom (mix (mix g))) ≡ true)
unfolding maybe_contains
test_each bloom g n h =
    let a = test_bit bloom (bit_index bloom g) in
    let b = test_bit bloom (bit_index bloom (mix g)) in
    let c = test_bit bloom (bit_index bloom (mix (mix g))) in
    let all : (a && b && c) ≡ true = sym (rw n refl) ∙ h in
    let (pq, r) = and-true (a && b) c all in let (p, q) = and-true a b pq in (p, q, r)

pub IsSized-add : (hash : ℕ) (bloom : BloomFilter) → IsSized bloom → IsSized (add hash bloom)
unfolding add
IsSized-add hash bloom h = elim (Bool-cases (length bloom.words == 0)) [
  | inl e ↦ rw e h
  | inr e ↦ rw e (
      IsSized-set_bit (bit_index bloom (mix (mix hash)))
        (set_bit (bit_index bloom (mix hash)) (set_bit (bit_index bloom hash) bloom))
        (IsSized-set_bit (bit_index bloom (mix hash)) (set_bit (bit_index bloom hash) bloom)
          (IsSized-set_bit (bit_index bloom hash) bloom h)))
]

pub contains-add :
    (hash : ℕ) (bloom : BloomFilter) → IsSized bloom → maybe_contains (add hash bloom) hash ≡ true
contains-add hash bloom h = elim (Bool-cases (length bloom.words == 0)) [
  | inl e ↦ ap (λ b. maybe_contains b hash) (add-empty hash bloom e) ∙ empty-contains hash bloom e
  | inr n ↦
      let fresh = three-set hash bloom n h in
      let same_place = three-index hash bloom n in
      let tests = test_bit (three hash bloom n) in
      ap (λ b. maybe_contains b hash) (add-three hash bloom n)
      ∙ test_all (three hash bloom n) hash (ap tests (same_place hash) ∙ fresh.0)
          (ap tests (same_place (mix hash)) ∙ fresh.1)
          (ap tests (same_place (mix (mix hash))) ∙ fresh.2)
]

kept-add :
    (hash : ℕ) (bloom : BloomFilter) (g : ℕ)
    → IsSized bloom
    → maybe_contains bloom g ≡ true
    → maybe_contains (add hash bloom) g ≡ true
kept-add hash bloom g h k = elim (Bool-cases (length bloom.words == 0)) [
  | inl e ↦ ap (λ b. maybe_contains b g) (add-empty hash bloom e) ∙ k
  | inr n ↦
      let same_place = three-index hash bloom n in
      let kept = three-kept hash bloom n in
      let tests = test_bit (three hash bloom n) in
      let old = test_each bloom g n k in
      ap (λ b. maybe_contains b g) (add-three hash bloom n)
      ∙ test_all (three hash bloom n) g (ap tests (same_place g) ∙ kept (bit_index bloom g) old.0)
          (ap tests (same_place (mix g)) ∙ kept (bit_index bloom (mix g)) old.1)
          (ap tests (same_place (mix (mix g))) ∙ kept (bit_index bloom (mix (mix g))) old.2)
]

-- After a hash is added to a filter of a size that reset makes and add keeps, the filter may contain
-- that hash, and it may contain a hash that it might contain before.
pub add-maybe_contains :
    (hash : ℕ) (bloom : BloomFilter) (g : ℕ)
    → IsSized bloom
    → maybe_contains bloom g ≡ true
    → (maybe_contains (add hash bloom) hash ≡ true) × (maybe_contains (add hash bloom) g ≡ true)
add-maybe_contains hash bloom g h k = (contains-add hash bloom h, kept-add hash bloom g h k)
