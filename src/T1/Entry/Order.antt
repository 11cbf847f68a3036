-- ===== src/T1/Entry/Order.antt =====
-- The order of entries is total, and equal entries answer the same lookups.
use mathlib.Core.Path.{ap₂}
use vmem_kv.Prelude.{
  ℕ, ◌≡◌, refl, sym, ap, ◌∙◌, Bool, true, false, ◌&&◌, not, List, ◌==◌, ==_iff, ==_refl, ltb, arith,
  if◌then◌else◌,
}
use vmem_kv.Bytes.Compare.{Sign, less, same, greater, is_same, is_less, sign_of, or_then}
use vmem_kv.Bytes.Compare.Laws.{
  dictionary, flip, dictionary-flip, dictionary_self, dictionary-same, dictionary_trans,
  sign_of-flip, sign_of-same, sign_of_self, sign_of_trans, flip-or_then, or_then-same,
}
use vmem_kv.T1.Codec.{clean_hash}
use vmem_kv.T1.Entry.{EntrySnapshot, key_equal, entry_identity_equal, entry_less, answers}

-- The three-way comparison that entry_less and entry_identity_equal are the tests of.
unfoldable pub order : EntrySnapshot → EntrySnapshot → Sign
order a b = or_then (dictionary a.key b.key) (sign_of (clean_hash a.hash) (clean_hash b.hash))

pub less-by_sign :
    (s : Sign) (x y : ℕ)
    → (if not (is_same s) then is_less s else ltb x y) ≡ is_less (or_then s (sign_of x y))
unfolding sign_of
less-by_sign less x y = refl
less-by_sign greater x y = refl
less-by_sign same x y = ground arith

same-by_sign : (s : Sign) (x y : ℕ) → (is_same s && x == y) ≡ is_same (or_then s (sign_of x y))
unfolding sign_of
same-by_sign less x y = refl
same-by_sign greater x y = refl
same-by_sign same x y = ground arith

pub entry_less-order :
    (a b : EntrySnapshot) → entry_less a.key a.hash b.key b.hash ≡ is_less (order a b)
unfolding entry_less order
entry_less-order a b = less-by_sign (dictionary a.key b.key) (clean_hash a.hash) (clean_hash b.hash)

pub entry_identity_equal-order :
    (a b : EntrySnapshot) → entry_identity_equal a.key a.hash b.key b.hash ≡ is_same (order a b)
unfolding entry_identity_equal order
entry_identity_equal-order a b =
    same-by_sign (dictionary a.key b.key) (clean_hash a.hash) (clean_hash b.hash)

pub order-flip : (a b : EntrySnapshot) → order b a ≡ flip (order a b)
unfolding order
order-flip a b =
    ap₂ or_then (dictionary-flip a.key b.key) (sign_of-flip (clean_hash a.hash) (clean_hash b.hash))
    ∙ flip-or_then (dictionary a.key b.key) (sign_of (clean_hash a.hash) (clean_hash b.hash))

-- Entries that compare as the same have the same identity.
pub order-same :
    (a b : EntrySnapshot)
    → order a b ≡ same
    → (a.key ≡ b.key) × (clean_hash a.hash ≡ clean_hash b.hash)
unfolding order
order-same a b h =
    let (k, c) =
      or_then-same (dictionary a.key b.key) (sign_of (clean_hash a.hash) (clean_hash b.hash)) h in
    (dictionary-same a.key b.key k, sign_of-same (clean_hash a.hash) (clean_hash b.hash) c)

trans-cases :
    (p q r : Sign) (x y z : ℕ)
    → (p ≡ less → q ≡ less → r ≡ less)
    → (p ≡ same → r ≡ q)
    → (q ≡ same → r ≡ p)
    → or_then p (sign_of x y) ≡ less
    → or_then q (sign_of y z) ≡ less
    → or_then r (sign_of x z) ≡ less
trans-cases less less r x y z f g h a b = rw (f refl refl) refl
trans-cases less same r x y z f g h a b = rw (h refl) refl
trans-cases less greater r x y z f g h a b = cc
trans-cases greater q r x y z f g h a b = cc
trans-cases same less r x y z f g h a b = rw (g refl) refl
trans-cases same same r x y z f g h a b = rw (g refl) (sign_of_trans x y z a b)
trans-cases same greater r x y z f g h a b = cc

pub order_trans : (a b c : EntrySnapshot) → order a b ≡ less → order b c ≡ less → order a c ≡ less
unfolding order
order_trans a b c =
    trans-cases (dictionary a.key b.key) (dictionary b.key c.key) (dictionary a.key c.key)
      (clean_hash a.hash) (clean_hash b.hash) (clean_hash c.hash)
      (dictionary_trans a.key b.key c.key)
      (λ e. ap (λ k. dictionary k c.key) (dictionary-same a.key b.key e))
      (λ e. sym (ap (dictionary a.key) (dictionary-same b.key c.key e)))

pub order-same_left : (a b c : EntrySnapshot) → order a b ≡ same → order a c ≡ order b c
unfolding order
order-same_left a b c h =
    let (k, e) = order-same a b h in
    ap₂ (λ x y. or_then (dictionary x c.key) (sign_of y (clean_hash c.hash))) k e

pub answers-same :
    (prefix : List ℕ) (hash : ℕ) (a b : EntrySnapshot)
    → order a b ≡ same
    → answers prefix hash a ≡ answers prefix hash b
unfolding answers
answers-same prefix hash a b h =
    let (k, e) = order-same a b h in ap₂ (λ x y. key_equal x prefix && y == hash) k e

same-true : (s : Sign) → is_same s ≡ true → s ≡ same
same-true less h = cc
same-true same h = refl
same-true greater h = cc

and-both : (p q : Bool) → (p && q) ≡ true → (p ≡ true) × (q ≡ true)
and-both true true h = (refl, refl)
and-both true false h = cc
and-both false q h = cc

pub answers-key :
    (prefix : List ℕ) (hash : ℕ) (a : EntrySnapshot)
    → answers prefix hash a ≡ true
    → (a.key ≡ prefix) × (clean_hash a.hash ≡ hash)
unfolding answers
answers-key prefix hash a h =
    let (k, c) = and-both (key_equal a.key prefix) (clean_hash a.hash == hash) h in
    (
      dictionary-same a.key prefix (same-true (dictionary a.key prefix) k),
      (==_iff (clean_hash a.hash) hash).0 c,
    )

-- Two entries that answer one lookup have one identity.
pub answers-both :
    (prefix : List ℕ) (hash : ℕ) (a b : EntrySnapshot)
    → answers prefix hash a ≡ true
    → answers prefix hash b ≡ true
    → order a b ≡ same
unfolding order
answers-both prefix hash a b p q =
    let (ka, ca) = answers-key prefix hash a p in
    let (kb, cb) = answers-key prefix hash b q in
    rw (ka, kb, ca, cb, dictionary_self prefix) (sign_of_self hash)

pub order-of_identity :
    (a b : EntrySnapshot) → a.key ≡ b.key → clean_hash a.hash ≡ clean_hash b.hash → order a b ≡ same
unfolding order
order-of_identity a b k c = rw (k, c, dictionary_self b.key) (sign_of_self (clean_hash b.hash))

pub answers_self :
    (prefix : List ℕ) (hash : ℕ) (a : EntrySnapshot)
    → a.key ≡ prefix
    → clean_hash a.hash ≡ hash
    → answers prefix hash a ≡ true
unfolding answers
answers_self prefix hash a k c = rw (k, c, dictionary_self prefix, ==_refl hash) refl
