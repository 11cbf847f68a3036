-- ===== src/Defrag/Punch/Queue.antt =====
-- The queue of segments to punch, and what erasing some of them leaves.
use mathlib.Core.List.{Memᴰ}
use mathlib.Core.Path.{subst}
use vmem_kv.Prelude.{
  ℕ, ◌≡◌, ◌≢◌, ◌⊎◌, inl, inr, refl, sym, ◌∙◌, List, [], ◌∷◌, All, ◌==◌, ==_iff, Bool-cases,
}
use vmem_kv.Defrag.Punch.{erase_value, erase_values}

pub map-All {ℓ κ ι} :
    {A : Type ι} {P : A → Type ℓ} {Q : A → Type κ} (f : (a : A) → P a → Q a) (xs : List A)
    → All P xs
    → All Q xs
map-All f [] h = tt
map-All f (x ∷ xs) h = (f x h.0, map-All f xs h.1)

pub All-Memᴰ {ℓ} : {A : Type ℓ} (xs : List A) → All (λ x. Memᴰ x xs) xs
All-Memᴰ [] = tt
All-Memᴰ (x ∷ xs) = (Memᴰ.head refl, map-All (λ y m. Memᴰ.tail m) xs (All-Memᴰ xs))

-- The queue keeps what was not punched.
module _ (seg : ℕ) where
  erase_value-kept :
      (x : ℕ) (queue : List ℕ) → Memᴰ x queue → (x ≡ seg) ⊎ Memᴰ x (erase_value seg queue)
  unfolding erase_value
  erase_value-kept x [] m = elim m [ ]
  erase_value-kept x (y ∷ queue) (Memᴰ.head e) = elim (Bool-cases (y == seg)) [
    | inl h ↦ inl (e ∙ (==_iff y seg).0 h)
    | inr h ↦ inr (rw h (Memᴰ.head e))
  ]
  erase_value-kept x (y ∷ queue) (Memᴰ.tail m) = elim (erase_value-kept x queue m) [
    | inl e ↦ inl e
    | inr k ↦ elim (Bool-cases (y == seg)) [
      | inl h ↦ inr (rw h k)
      | inr h ↦ inr (rw h (Memᴰ.tail k))
    ]
  ]

  All-erase_value {ℓ} :
      (P : ℕ → Type ℓ) (queue : List ℕ)
      → All P queue
      → All (λ x. (x ≢ seg) × P x) (erase_value seg queue)
  unfolding erase_value
  All-erase_value P [] h = tt
  All-erase_value P (y ∷ queue) h = elim (Bool-cases (y == seg)) [
    | inl e ↦ rw e (All-erase_value P queue h.1)
    | inr e ↦ rw e ((λ q. cc ((==_iff y seg).1 q), h.0), All-erase_value P queue h.1)
  ]

pub erase_values-kept :
    (segs : List ℕ) (x : ℕ) (queue : List ℕ)
    → Memᴰ x queue
    → Memᴰ x segs ⊎ Memᴰ x (erase_values segs queue)
unfolding erase_values
erase_values-kept [] x queue m = inr m
erase_values-kept (seg ∷ segs) x queue m = elim (erase_value-kept seg x queue m) [
  | inl e ↦ inl (Memᴰ.head e)
  | inr k ↦ elim (erase_values-kept segs x (erase_value seg queue) k) [
    | inl p ↦ inl (Memᴰ.tail p)
    | inr q ↦ inr q
  ]
]

pub All-erase_values {ℓ} :
    (P : ℕ → Type ℓ) (segs queue : List ℕ) → All P queue → All P (erase_values segs queue)
unfolding erase_values
All-erase_values P [] queue h = h
All-erase_values P (seg ∷ segs) queue h =
    All-erase_values P segs (erase_value seg queue)
      (map-All (λ x p. p.1) (erase_value seg queue) (All-erase_value seg P queue h))

All-unit : (queue : List ℕ) → All (λ x. Unit {0}) queue
All-unit [] = tt
All-unit (x ∷ queue) = (tt, All-unit queue)

pub erase_values-gone :
    (segs queue : List ℕ) → All (λ seg. All (λ x. x ≢ seg) (erase_values segs queue)) segs
unfolding erase_values
erase_values-gone [] queue = tt
erase_values-gone (seg ∷ segs) queue = (
  All-erase_values (λ x. x ≢ seg) segs (erase_value seg queue)
      (map-All (λ x p. p.0) (erase_value seg queue)
        (All-erase_value seg (λ x. Unit {0}) queue (All-unit queue))),
  erase_values-gone segs (erase_value seg queue),
)

pub All-at {ℓ} : (P : ℕ → Type ℓ) (x : ℕ) (xs : List ℕ) → All P xs → Memᴰ x xs → P x
All-at P x [] h m = elim m [ ]
All-at P x (y ∷ xs) h (Memᴰ.head e) = subst P (sym e) h.0
All-at P x (y ∷ xs) h (Memᴰ.tail m) = All-at P x xs h.1 m

pub All-both {ℓ κ ι} :
    {P : ℕ → Type ℓ} {Q : ℕ → Type κ} {R : ℕ → Type ι} (xs : List ℕ)
    → ((x : ℕ) → P x → Q x → R x)
    → All P xs
    → All Q xs
    → All R xs
All-both [] f h k = tt
All-both (x ∷ xs) f h k = (f x h.0 k.0, All-both xs f h.1 k.1)
