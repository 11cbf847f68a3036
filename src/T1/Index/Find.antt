-- ===== src/T1/Index/Find.antt =====
-- The two searches of the index find the first entry that answers.
use vmem_kv.Prelude.{
  ℕ, ◌≡◌, refl, sym, ap, ◌∙◌, ◌⊎◌, true, false, ◌&&◌, Bool-cases, inl, inr, none, some, List, [],
  ◌∷◌, All, ◌==◌, arith, if◌then◌else◌,
}
use vmem_kv.Bytes.Compare.{Sign, less, same, greater, is_same, is_less, or_then, sign_of}
use vmem_kv.Bytes.Compare.Laws.{dictionary, dictionary_trans, dictionary-same}
use vmem_kv.T1.Codec.{clean_hash}
use vmem_kv.T1.Entry.{EntrySnapshot, key_equal, key_less, answers}
use vmem_kv.T1.Entry.Order.{order, answers-key}
use vmem_kv.T1.Bloom.{BloomFilter, maybe_contains}
use vmem_kv.T1.Merge.Plain.{Ascending, Below, find_entry, All-map}
use vmem_kv.T1.Index.{SortedRegion, find_with_index, lower_bound, find_hash, find_sorted}

pub find_with_index-find_entry :
    (key : List ℕ) (hash : ℕ) (slots : List EntrySnapshot)
    → find_with_index key hash slots ≡ find_entry key hash slots
unfolding find_with_index find_entry
find_with_index-find_entry key hash [] = refl
find_with_index-find_entry key hash (s ∷ ss) =
    ap (λ r. if answers key hash s then some s else r) (find_with_index-find_entry key hash ss)

-- A key that is not before the bound.
abbrev From : List ℕ → EntrySnapshot → Type 0
From key e = key_less e.key key ≡ false

below-keys : (p q : Sign) → or_then p q ≡ less → (p ≡ less) ⊎ (p ≡ same)
below-keys less q h = inl refl
below-keys same q h = inr refl
below-keys greater q h = cc

is_less-true : (s : Sign) → is_less s ≡ true → s ≡ less
is_less-true less h = refl
is_less-true same h = cc
is_less-true greater h = cc

-- Keys do not descend.
order-keys :
    (a b : EntrySnapshot)
    → Below a b
    → (dictionary a.key b.key ≡ less) ⊎ (dictionary a.key b.key ≡ same)
unfolding order
order-keys a b h =
    below-keys (dictionary a.key b.key) (sign_of (clean_hash a.hash) (clean_hash b.hash)) h

From-Below : (key : List ℕ) (a b : EntrySnapshot) → From key a → Below a b → From key b
From-Below key a b f h = elim (Bool-cases (key_less b.key key)) [
  | inr e ↦ e
  | inl e ↦
      let b_less = is_less-true (dictionary b.key key) e in
      let a_less : dictionary a.key key ≡ less = elim (order-keys a b h) [
        | inl l ↦ dictionary_trans a.key b.key key l b_less
        | inr s ↦ ap (λ k. dictionary k key) (dictionary-same a.key b.key s) ∙ b_less
      ] in
      absurd (cc (f, ap is_less a_less))
]

-- Below a key, nothing of that key is found.
answers-less :
    (key : List ℕ) (hash : ℕ) (e : EntrySnapshot)
    → key_less e.key key ≡ true
    → answers key hash e ≡ false
unfolding answers
answers-less key hash e h =
    ap (λ s. is_same s && clean_hash e.hash == hash) (is_less-true (dictionary e.key key) h)

past :
    (key : List ℕ) (a : EntrySnapshot)
    → From key a
    → key_equal a.key key ≡ false
    → dictionary a.key key ≡ greater
past key a f u = go (dictionary a.key key) f u
  where
    go : (s : Sign) → is_less s ≡ false → is_same s ≡ false → s ≡ greater
    go less f u = cc
    go same f u = cc
    go greater f u = refl

-- Past a key, nothing of that key is found.
find_entry-past :
    (key : List ℕ) (hash : ℕ) (a : EntrySnapshot) (xs : List EntrySnapshot)
    → dictionary a.key key ≡ greater
    → All (Below a) xs
    → find_entry key hash xs ≡ none
unfolding find_entry
find_entry-past key hash a [] g p = refl
find_entry-past key hash a (x ∷ xs) g p = elim (Bool-cases (answers key hash x)) [
  | inr e ↦ rw e (find_entry-past key hash a xs g p.1)
  | inl e ↦
      let (k, _) = answers-key key hash x e in
      let back : dictionary a.key x.key ≡ greater = ap (dictionary a.key) k ∙ g in
      absurd (elim (order-keys a x p.0) [ inl l ↦ cc (l, back) | inr s ↦ cc (s, back) ])
]

find_hash-find_entry :
    (key : List ℕ) (hash : ℕ) (xs : List EntrySnapshot)
    → Ascending xs
    → All (From key) xs
    → find_hash key hash xs ≡ find_entry key hash xs
unfolding find_hash find_entry
find_hash-find_entry key hash [] p f = refl
find_hash-find_entry key hash (x ∷ xs) p f = elim (Bool-cases (key_equal x.key key)) [
  | inl e ↦ rw e (
      ap (λ r. if clean_hash x.hash == hash then some x else r)
        (find_hash-find_entry key hash xs p.1 f.1))
  | inr e ↦ rw e (sym (find_entry-past key hash x xs (past key x f.0 e) p.0))
]

lower_bound-find_entry :
    (key : List ℕ) (hash : ℕ) (xs : List EntrySnapshot)
    → Ascending xs
    → find_hash key hash (lower_bound key xs) ≡ find_entry key hash xs
unfolding lower_bound find_entry find_hash
lower_bound-find_entry key hash [] p = refl
lower_bound-find_entry key hash (x ∷ xs) p = elim (Bool-cases (key_less x.key key)) [
  | inl e ↦
      ap (find_hash key hash) (skipped e)
      ∙ lower_bound-find_entry key hash xs p.1
      ∙ sym (rw (answers-less key hash x e) refl)
  | inr e ↦
      ap (find_hash key hash) (kept e)
      ∙ find_hash-find_entry key hash (x ∷ xs) p (e, All-map xs (λ b h. From-Below key x b e h) p.0)
]
  where
    skipped : key_less x.key key ≡ true → lower_bound key (x ∷ xs) ≡ lower_bound key xs
    skipped e = ground arith

    kept : key_less x.key key ≡ false → lower_bound key (x ∷ xs) ≡ x ∷ xs
    kept e = ground arith

-- The filter has seen every slot.
abbrev pub Covers : BloomFilter → EntrySnapshot → Type 0
Covers bloom e = maybe_contains bloom (clean_hash e.hash) ≡ true

covered :
    (bloom : BloomFilter) (key : List ℕ) (hash : ℕ) (xs : List EntrySnapshot)
    → maybe_contains bloom hash ≡ false
    → All (Covers bloom) xs
    → find_entry key hash xs ≡ none
unfolding find_entry
covered bloom key hash [] n p = refl
covered bloom key hash (x ∷ xs) n p = elim (Bool-cases (answers key hash x)) [
  | inr e ↦ rw e (covered bloom key hash xs n p.1)
  | inl e ↦
      let (_, h) = answers-key key hash x e in absurd (cc (n, p.0, ap (maybe_contains bloom) h))
]

pub find_sorted-find_entry :
    (sorted : SortedRegion) (key : List ℕ) (hash : ℕ)
    → Ascending sorted.slots
    → All (Covers sorted.bloom) sorted.slots
    → find_sorted sorted key hash ≡ find_entry key hash sorted.slots
unfolding find_sorted
find_sorted-find_entry sorted key hash p c = elim (Bool-cases (maybe_contains sorted.bloom hash)) [
  | inl e ↦ rw e (lower_bound-find_entry key hash sorted.slots p)
  | inr e ↦ rw e (sym (covered sorted.bloom key hash sorted.slots e c))
]
