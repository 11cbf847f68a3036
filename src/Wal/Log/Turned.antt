-- ===== src/Wal/Log/Turned.antt =====
-- What a rotation does to the segments, where one is removed and where none is.
use mathlib.Core.List.{Memᴰ}
use vmem_kv.Prelude.{
  ℕ, ◌+◌, ◌-◌, ◌≤◌, ◌<◌, ◌≡◌, ◌⊎◌, inl, inr, refl, ap, ◌∙◌, List, [], ◌∷◌, ◌++◌, All, leb, ◌==◌,
  ==_iff, Bool-cases, arith,
}
use vmem_kv.Wal.Log.{Segment, Log, remove_generation, rotate}
use vmem_kv.Wal.Log.Retention.{Records, Older}

pub All-lookup {ℓ κ} :
    {A : Type ℓ} (P : A → Type κ) (x : A) (xs : List A) → All P xs → Memᴰ x xs → P x
All-lookup P x [] h m = elim m [ ]
All-lookup P x (y ∷ xs) h (Memᴰ.head e) = rw e h.0
All-lookup P x (y ∷ xs) h (Memᴰ.tail m) = All-lookup P x xs h.1 m

pub map-All {ℓ κ ι} :
    {A : Type ι} {P : A → Type ℓ} {Q : A → Type κ} (f : (a : A) → P a → Q a) (xs : List A)
    → All P xs
    → All Q xs
map-All f [] h = tt
map-All f (x ∷ xs) h = (f x h.0, map-All f xs h.1)

pub All-append {ℓ κ} :
    {A : Type ℓ} (P : A → Type κ) (xs ys : List A) → All P xs → All P ys → All P (xs ++ ys)
All-append P [] ys h k = k
All-append P (x ∷ xs) ys h k = (h.0, All-append P xs ys h.1 k)

pub Memᴰ-append_left {ℓ} : {A : Type ℓ} (x : A) (xs ys : List A) → Memᴰ x xs → Memᴰ x (xs ++ ys)
Memᴰ-append_left x [] ys m = elim m [ ]
Memᴰ-append_left x (y ∷ xs) ys (Memᴰ.head e) = Memᴰ.head e
Memᴰ-append_left x (y ∷ xs) ys (Memᴰ.tail m) = Memᴰ.tail (Memᴰ-append_left x xs ys m)

pub Memᴰ-last {ℓ} : {A : Type ℓ} (x : A) (xs : List A) → Memᴰ x (xs ++ (x ∷ []))
Memᴰ-last x [] = Memᴰ.head refl
Memᴰ-last x (y ∷ xs) = Memᴰ.tail (Memᴰ-last x xs)

pub Older-weaken :
    (lower upper : ℕ) (segment : Segment Records)
    → lower ≤ upper
    → Older lower segment
    → Older upper segment
Older-weaken lower upper segment h old =
    map-All (λ r (p : r.lsn < lower). omega arith) segment.content old

module _ (generation : ℕ) where
  Memᴰ-remove_generation :
      (x : Segment Records) (xs : List (Segment Records))
      → Memᴰ x xs
      → (x.generation ≡ generation) ⊎ Memᴰ x (remove_generation generation xs)
  unfolding remove_generation
  Memᴰ-remove_generation x [] m = elim m [ ]
  Memᴰ-remove_generation x (y ∷ xs) m = elim (Bool-cases (y.generation == generation)) [
    | inl e ↦ rw e (elim m [
      | Memᴰ.head q ↦ inl (ap (λ s. s.generation) q ∙ (==_iff y.generation generation).0 e)
      | Memᴰ.tail k ↦ Memᴰ-remove_generation x xs k
    ])
    | inr e ↦ rw e (elim m [
      | Memᴰ.head q ↦ inr (Memᴰ.head q)
      | Memᴰ.tail k ↦ elim (Memᴰ-remove_generation x xs k) [
        | inl q ↦ inl q
        | inr q ↦ inr (Memᴰ.tail q)
      ]
    ])
  ]

  All-remove_generation {ℓ} :
      (P : Segment Records → Type ℓ) (xs : List (Segment Records))
      → All P xs
      → All P (remove_generation generation xs)
  unfolding remove_generation
  All-remove_generation P [] h = tt
  All-remove_generation P (x ∷ xs) h = elim (Bool-cases (x.generation == generation)) [
    | inl e ↦ rw e (All-remove_generation P xs h.1)
    | inr e ↦ rw e (h.0, All-remove_generation P xs h.1)
  ]

module _ (log : Log Records) where
  abbrev turned : List (Segment Records)
  turned = log.retired ++ (log.active ∷ [])

  pub All-rotate {ℓ} : (P : Segment Records → Type ℓ) → All P turned → All P (rotate [] log).retired
  unfolding rotate
  All-rotate P h = elim (Bool-cases (leb 2 (log.active.generation + 1))) [
    | inl e ↦ rw e (All-remove_generation (log.active.generation + 1 - 2) P turned h)
    | inr e ↦ rw e h
  ]

  pub Memᴰ-rotate_active : Memᴰ log.active (rotate [] log).retired
  unfolding rotate
  Memᴰ-rotate_active = elim (Bool-cases (leb 2 (log.active.generation + 1))) [
    | inl e ↦
        rw e
          (elim (Memᴰ-remove_generation (log.active.generation + 1 - 2) log.active turned
            (Memᴰ-last log.active log.retired)) [
              | inl q ↦ absurd (ground (arith, e, q))
              | inr m ↦ m
            ])
    | inr e ↦ rw e (Memᴰ-last log.active log.retired)
  ]

  pub Memᴰ-rotate :
      (segment : Segment Records)
      → Memᴰ segment log.retired
      → (segment.generation + 1 ≡ log.active.generation) ⊎ Memᴰ segment (rotate [] log).retired
  unfolding rotate
  Memᴰ-rotate segment m = elim (Bool-cases (leb 2 (log.active.generation + 1))) [
    | inl e ↦
        rw e
          (elim (Memᴰ-remove_generation (log.active.generation + 1 - 2) segment turned
            (Memᴰ-append_left segment log.retired (log.active ∷ []) m)) [
              | inl q ↦ inl (ground (arith, e, q))
              | inr k ↦ inr k
            ])
    | inr e ↦ rw e (inr (Memᴰ-append_left segment log.retired (log.active ∷ []) m))
  ]
