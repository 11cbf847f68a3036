-- ===== src/T1/Merge/Plain.antt =====
-- A merge of two ordered lists of entries, without dead entries: it keeps the order, and a lookup
-- finds the entry of the newer list first.
use vmem_kv.Prelude.{
  ℕ, zero, suc, ◌+◌, ◌≤◌, ◌≡◌, refl, sym, ap, ◌∙◌, ◌⊎◌, true, Bool-cases, inl, inr, Option, none,
  some, List, [], ◌∷◌, length, All, arith, if◌then◌else◌,
}
use vmem_kv.Bytes.Compare.{Sign, less, same, greater}
use vmem_kv.Bytes.Compare.Laws.{flip}
use vmem_kv.T1.Entry.{EntrySnapshot, answers}
use vmem_kv.T1.Entry.Order.{
  order, order-flip, order_trans, order-same_left, answers-same, answers-both,
}

-- Strictly ascending, which has no identity twice.
abbrev pub Below : EntrySnapshot → EntrySnapshot → Type 0
Below a b = order a b ≡ less

abbrev pub Ascending : List EntrySnapshot → Type 0
Ascending [] = Unit
Ascending (x ∷ xs) = All (Below x) xs × Ascending xs

-- The first entry that answers.
unfoldable pub find_entry : List ℕ → ℕ → List EntrySnapshot → Option EntrySnapshot
unfolding answers
find_entry prefix hash [] = none
find_entry prefix hash (x ∷ xs) =
    let rest = find_entry prefix hash xs in if answers prefix hash x then some x else rest

abbrev pub or_else {ℓ} : {A : Type ℓ} → Option A → Option A → Option A
or_else (some a) o = some a
or_else none o = o

unfoldable pub plain : ℕ → List EntrySnapshot → List EntrySnapshot → List EntrySnapshot
unfolding order
plain zero older newer = []
plain (suc fuel) [] [] = []
plain (suc fuel) (s ∷ ss) [] = s ∷ plain fuel ss []
plain (suc fuel) [] (m ∷ ms) = m ∷ plain fuel [] ms
plain (suc fuel) (s ∷ ss) (m ∷ ms) = elim (order s m) [
  | same ↦ m ∷ plain fuel ss ms
  | less ↦ s ∷ plain fuel ss (m ∷ ms)
  | greater ↦ m ∷ plain fuel (s ∷ ss) ms
]

module _ (fuel : ℕ) (s m : EntrySnapshot) (ss ms : List EntrySnapshot) where
  pub plain-same : order s m ≡ same → plain (suc fuel) (s ∷ ss) (m ∷ ms) ≡ m ∷ plain fuel ss ms
  unfolding plain
  plain-same e = ground arith

  pub plain-less :
      order s m ≡ less → plain (suc fuel) (s ∷ ss) (m ∷ ms) ≡ s ∷ plain fuel ss (m ∷ ms)
  unfolding plain
  plain-less e = ground arith

  pub plain-greater :
      order s m ≡ greater → plain (suc fuel) (s ∷ ss) (m ∷ ms) ≡ m ∷ plain fuel (s ∷ ss) ms
  unfolding plain
  plain-greater e = ground arith

pub Sign-cases : (s : Sign) → (s ≡ same) ⊎ (s ≡ less) ⊎ (s ≡ greater)
Sign-cases less = inr (inl refl)
Sign-cases same = inl refl
Sign-cases greater = inr (inr refl)

pub All-map {ℓ κ ι} :
    {A : Type ℓ} {P : A → Type κ} {Q : A → Type ι} (xs : List A)
    → ((a : A) → P a → Q a)
    → All P xs
    → All Q xs
All-map [] f h = tt
All-map (x ∷ xs) f h = (f x h.0, All-map xs f h.1)

pub All-plain {ℓ} :
    (P : EntrySnapshot → Type ℓ) (fuel : ℕ) (ss ms : List EntrySnapshot)
    → All P ss
    → All P ms
    → All P (plain fuel ss ms)
unfolding plain
All-plain P zero ss ms p q = tt
All-plain P (suc fuel) [] [] p q = tt
All-plain P (suc fuel) (s ∷ ss) [] p q = (p.0, All-plain P fuel ss [] p.1 tt)
All-plain P (suc fuel) [] (m ∷ ms) p q = (q.0, All-plain P fuel [] ms tt q.1)
All-plain P (suc fuel) (s ∷ ss) (m ∷ ms) p q = elim (Sign-cases (order s m)) [
  | inl e ↦ rw (plain-same fuel s m ss ms e) (q.0, All-plain P fuel ss ms p.1 q.1)
  | inr (inl e) ↦ rw (plain-less fuel s m ss ms e) (p.0, All-plain P fuel ss (m ∷ ms) p.1 q)
  | inr (inr e) ↦ rw (plain-greater fuel s m ss ms e) (q.0, All-plain P fuel (s ∷ ss) ms p q.1)
]

flipped : (a b : EntrySnapshot) → order a b ≡ greater → order b a ≡ less
flipped a b h = order-flip a b ∙ ap flip h

flipped_same : (a b : EntrySnapshot) → order a b ≡ same → order b a ≡ same
flipped_same a b h = order-flip a b ∙ ap flip h

pub above :
    (a b : EntrySnapshot) (xs : List EntrySnapshot)
    → Below a b
    → All (Below b) xs
    → All (Below a) xs
above a b xs h p = All-map xs (λ c k. order_trans a b c h k) p

above_same :
    (a b : EntrySnapshot) (xs : List EntrySnapshot)
    → order a b ≡ same
    → All (Below b) xs
    → All (Below a) xs
above_same a b xs h p = All-map xs (λ c k. order-same_left a b c h ∙ k) p

pub Ascending-plain :
    (fuel : ℕ) (ss ms : List EntrySnapshot)
    → Ascending ss
    → Ascending ms
    → Ascending (plain fuel ss ms)
unfolding plain
Ascending-plain zero ss ms p q = tt
Ascending-plain (suc fuel) [] [] p q = tt
Ascending-plain (suc fuel) (s ∷ ss) [] p q =
    (All-plain (Below s) fuel ss [] p.0 tt, Ascending-plain fuel ss [] p.1 tt)
Ascending-plain (suc fuel) [] (m ∷ ms) p q =
    (All-plain (Below m) fuel [] ms tt q.0, Ascending-plain fuel [] ms tt q.1)
Ascending-plain (suc fuel) (s ∷ ss) (m ∷ ms) p q = elim (Sign-cases (order s m)) [
  | inl e ↦ rw (plain-same fuel s m ss ms e) (
    All-plain (Below m) fuel ss ms (above_same m s ss (flipped_same s m e) p.0) q.0,
    Ascending-plain fuel ss ms p.1 q.1,
  )
  | inr (inl e) ↦ rw (plain-less fuel s m ss ms e) (
    All-plain (Below s) fuel ss (m ∷ ms) p.0 (e, above s m ms e q.0),
    Ascending-plain fuel ss (m ∷ ms) p.1 q,
  )
  | inr (inr e) ↦ rw (plain-greater fuel s m ss ms e) (
    All-plain (Below m) fuel (s ∷ ss) ms (flipped s m e, above m s ss (flipped s m e) p.0) q.0,
    Ascending-plain fuel (s ∷ ss) ms p q.1,
  )
]

pub find_entry-Below :
    (prefix : List ℕ) (hash : ℕ) (a : EntrySnapshot) (xs : List EntrySnapshot)
    → answers prefix hash a ≡ true
    → All (Below a) xs
    → find_entry prefix hash xs ≡ none
unfolding find_entry
find_entry-Below prefix hash a [] h p = refl
find_entry-Below prefix hash a (x ∷ xs) h p = elim (Bool-cases (answers prefix hash x)) [
  | inl e ↦ cc (answers-both prefix hash a x h e, p.0)
  | inr e ↦ rw e (find_entry-Below prefix hash a xs h p.1)
]

pub or_else-none : (o : Option EntrySnapshot) → or_else o none ≡ o
or_else-none none = refl
or_else-none (some x) = refl

pub find_entry-plain :
    (prefix : List ℕ) (hash fuel : ℕ) (ss ms : List EntrySnapshot)
    → length ss + length ms ≤ fuel
    → Ascending ss
    → Ascending ms
    → find_entry prefix hash (plain fuel ss ms)
      ≡ or_else (find_entry prefix hash ms) (find_entry prefix hash ss)
unfolding plain find_entry
find_entry-plain prefix hash zero [] [] b p q = refl
find_entry-plain prefix hash zero (s ∷ ss) ms b p q = absurd (omega arith)
find_entry-plain prefix hash zero [] (m ∷ ms) b p q = absurd (omega arith)
find_entry-plain prefix hash (suc fuel) [] [] b p q = refl
find_entry-plain prefix hash (suc fuel) (s ∷ ss) [] b p q =
    rw (find_entry-plain prefix hash fuel ss [] (omega arith) p.1 tt) refl
find_entry-plain prefix hash (suc fuel) [] (m ∷ ms) b p q =
    let ih = find_entry-plain prefix hash fuel [] ms (omega arith) tt q.1 in
    elim (Bool-cases (answers prefix hash m)) [ inl e ↦ rw e refl | inr e ↦ rw e ih ]
find_entry-plain prefix hash (suc fuel) (s ∷ ss) (m ∷ ms) b p q = elim (Sign-cases (order s m)) [
  | inl e ↦
      let ih = find_entry-plain prefix hash fuel ss ms (omega arith) p.1 q.1 in
      elim (Bool-cases (answers prefix hash m)) [
        | inl h ↦ rw (plain-same fuel s m ss ms e, h) refl
        | inr h ↦ rw (plain-same fuel s m ss ms e, h, answers-same prefix hash s m e, h) ih
      ]
  | inr (inl e) ↦
      let ih = find_entry-plain prefix hash fuel ss (m ∷ ms) (omega arith) p.1 q in
      elim (Bool-cases (answers prefix hash s)) [
        | inl h ↦
            rw (plain-less fuel s m ss ms e, h)
              (sym (
                ap (λ o. or_else o (some s))
                  (find_entry-Below prefix hash s (m ∷ ms) h (e, above s m ms e q.0))))
        | inr h ↦ rw (plain-less fuel s m ss ms e, h) ih
      ]
  | inr (inr e) ↦
      let ih = find_entry-plain prefix hash fuel (s ∷ ss) ms (omega arith) p q.1 in
      elim (Bool-cases (answers prefix hash m)) [
        | inl h ↦ rw (plain-greater fuel s m ss ms e, h) refl
        | inr h ↦ rw (plain-greater fuel s m ss ms e, h) ih
      ]
]
