-- ===== src/Store/Ownership/Replace.antt =====
-- T2Ownership::note_replace keeps the counters exact, and what an exact counter of 0 says.
use vmem_kv.Prelude.{
  ℕ, ◌+◌, ◌^◌, ◌<◌, ◌≡◌, ◌≢◌, refl, sym, ◌∙◌, Bool, true, false, Bool-cases, inl, inr, List, [],
  ◌∷◌, ◌++◌, length, ltb, ◌==◌, if◌then◌else◌, arith, All,
}
use mathlib.Core.Path.{subst}
use vmem_kv.Store.Ownership.{
  hint_bytes, T2Ownership, seg_live_at, fetch_sub, add_live, subtract_live, owns_bytes,
  note_replace,
}
use vmem_kv.Store.Ownership.Accounting.{
  segment_of, seg_sum, total_sum, Accounts, length-set, add_live-Accounts, subtract_live-Accounts,
}

-- The payloads that count for an entry: none for a tombstone or an inline value.
abbrev pub owned : Bool → ℕ → List ℕ
owned true bits = bits ∷ []
owned false bits = []

length-subtract_live :
    (seg hint : ℕ) (own : T2Ownership)
    → length ((subtract_live seg hint own).seg_live) ≡ length own.seg_live
unfolding subtract_live
length-subtract_live seg hint own = elim (Bool-cases (ltb seg (length own.seg_live))) [
  | inl e ↦ rw e (length-set own.seg_live seg (fetch_sub (seg_live_at own.seg_live seg) hint))
  | inr e ↦ rw e refl
]

-- note_replace as its two steps.
abbrev released : ℕ → ℕ → ℕ → T2Ownership → T2Ownership
released segment_bytes old_bits old_hash own =
    if owns_bytes old_bits old_hash
    then subtract_live (segment_of segment_bytes old_bits) (hint_bytes old_bits) own
    else own

length-released :
    (segment_bytes old_bits old_hash : ℕ) (own : T2Ownership)
    → length ((released segment_bytes old_bits old_hash own).seg_live) ≡ length own.seg_live
length-released segment_bytes old_bits old_hash own =
    elim (Bool-cases (owns_bytes old_bits old_hash)) [
      | inl e ↦
          rw e (length-subtract_live (segment_of segment_bytes old_bits) (hint_bytes old_bits) own)
      | inr e ↦ rw e refl
    ]

module _ (segment_bytes seg : ℕ) (rest : List ℕ) where
  released-Accounts :
      (old_bits old_hash : ℕ) (own : T2Ownership)
      → seg < length own.seg_live
      → total_sum segment_bytes
          (length own.seg_live)
          (owned (owns_bytes old_bits old_hash) old_bits ++ rest)
        < 2 ^ 64
      → Accounts segment_bytes seg (owned (owns_bytes old_bits old_hash) old_bits ++ rest) own
      → Accounts segment_bytes seg rest (released segment_bytes old_bits old_hash own)
  released-Accounts old_bits old_hash own inside = go (owns_bytes old_bits old_hash)
    where
      go :
          (b : Bool)
          → total_sum segment_bytes (length own.seg_live) (owned b old_bits ++ rest) < 2 ^ 64
          → Accounts segment_bytes seg (owned b old_bits ++ rest) own
          → Accounts segment_bytes seg rest (
              if b
              then subtract_live (segment_of segment_bytes old_bits) (hint_bytes old_bits) own
              else own)
      go true small a = subtract_live-Accounts segment_bytes seg old_bits rest own inside small a
      go false small a = a

  added-Accounts :
      (new_is_offset : Bool) (new_bits : ℕ) (own : T2Ownership)
      → seg < length own.seg_live
      → total_sum segment_bytes (length own.seg_live) (owned new_is_offset new_bits ++ rest)
        < 2 ^ 64
      → Accounts segment_bytes seg rest own
      → Accounts segment_bytes seg (owned new_is_offset new_bits ++ rest) (
          if new_is_offset
          then add_live (segment_of segment_bytes new_bits) (hint_bytes new_bits) own
          else own)
  added-Accounts true new_bits own inside small a =
      add_live-Accounts segment_bytes seg new_bits rest own inside small a
  added-Accounts false new_bits own inside small a = a

-- note_replace on counters that are exact for the live payloads, the replaced entry's among them: the
-- counters are then exact for the live payloads with the new entry's in its place. An entry counts
-- if it is neither a tombstone nor inline, and the sums before and after fit in 64 bits.
pub note_replace-Accounts :
    (segment_bytes seg : ℕ) (rest : List ℕ) (old_bits old_hash : ℕ) (new_is_offset : Bool)
    (new_bits : ℕ) (own : T2Ownership)
    → seg < length own.seg_live
    → total_sum segment_bytes
        (length own.seg_live)
        (owned (owns_bytes old_bits old_hash) old_bits ++ rest)
      < 2 ^ 64
    → total_sum segment_bytes (length own.seg_live) (owned new_is_offset new_bits ++ rest) < 2 ^ 64
    → Accounts segment_bytes seg (owned (owns_bytes old_bits old_hash) old_bits ++ rest) own
    → Accounts segment_bytes seg
        (owned new_is_offset new_bits ++ rest)
        (note_replace segment_bytes old_bits old_hash new_is_offset new_bits own)
unfolding note_replace
note_replace-Accounts segment_bytes seg rest old_bits old_hash new_is_offset new_bits own inside s1
      s2 a =
    let sized = length-released segment_bytes old_bits old_hash own in
    added-Accounts segment_bytes seg rest new_is_offset new_bits
      (released segment_bytes old_bits old_hash own) (omega (arith, inside, sized))
      (subst (λ n. total_sum segment_bytes n (owned new_is_offset new_bits ++ rest) < 2 ^ 64)
        (sym sized) s2)
      (released-Accounts segment_bytes seg rest old_bits old_hash own inside s1 a)

no_hints :
    (segment_bytes seg : ℕ) (live : List ℕ)
    → All (λ p. 0 < hint_bytes p) live
    → seg_sum segment_bytes seg live ≡ 0
    → All (λ p. segment_of segment_bytes p ≢ seg) live
unfolding seg_sum
no_hints segment_bytes seg [] h e = tt
no_hints segment_bytes seg (p ∷ live) h e = elim (Bool-cases (segment_of segment_bytes p == seg)) [
  | inl here ↦
      let sum : hint_bytes p + seg_sum segment_bytes seg live ≡ 0 = sym (rw here refl) ∙ e in
      absurd (omega (arith, sum, h.0))
  | inr away ↦ (
    λ same. absurd (ground (arith, same, away)),
    no_hints segment_bytes seg live h.1 (sym (rw away refl) ∙ e),
  )
]

-- An exact counter of 0 means that the segment is evacuated: no live payload lies in it, where each
-- live payload has a size hint above 0.
pub Accounts-evacuated :
    (segment_bytes seg : ℕ) (live : List ℕ) (own : T2Ownership)
    → Accounts segment_bytes seg live own
    → All (λ p. 0 < hint_bytes p) live
    → seg_live_at own.seg_live seg ≡ 0
    → All (λ p. segment_of segment_bytes p ≢ seg) live
Accounts-evacuated segment_bytes seg live own a h e =
    no_hints segment_bytes seg live h (sym a.segment ∙ e)
