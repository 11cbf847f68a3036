-- ===== src/Defrag/Offsets/Complete.antt =====
-- No record that reaches into a victim is missed, and each offset comes once.
use mathlib.Core.List.{Memᴰ}
use native.Mathlib.Nat.{mul-le-mul_right, div-lt_iff_lt-mul, le-div_iff_mul-le, add-mul-div_right}
use native.Mathlib.Decide.{dec_lt}
use vmem_kv.Prelude.{
  ℕ, ◌+◌, ◌*◌, ◌/◌, ◌^◌, ◌≤◌, ◌<◌, ◌≡◌, ◌≢◌, ◌⊎◌, inl, inr, refl, sym, ap, ◌∙◌, true, false, List,
  [], ◌∷◌, All, leb, ltb, ◌==◌, ==_iff, Bool-cases, arith, lt→ltb,
}
use vmem_kv.T1.Codec.{store_not_found, is_inline}
use vmem_kv.T2.Record.{T2Memory}
use vmem_kv.Store.Ownership.{T2Ownership, payload_offset, seg_index}
use vmem_kv.Defrag.{u64, segment_count}
use vmem_kv.Defrag.Victims.{sort_numbers}
use vmem_kv.Defrag.Victims.Sorting.{IsSorted, IsSorted-sort_numbers, Memᴰ-sort_numbers}
use vmem_kv.Defrag.Offsets.{
  Scanned, punch_slop_bytes, contains, aligned_at, straddles, is_in_victim, is_wanted,
  wanted_offsets, unique_after, unique, collect_victim_offsets,
}

contains-Memᴰ : (n : ℕ) (ms : List ℕ) → Memᴰ n ms → contains n ms ≡ true
unfolding contains
contains-Memᴰ n [] m = elim m [ ]
contains-Memᴰ n (m ∷ ms) (Memᴰ.head e) = let h = (==_iff n m).1 e in rw h refl
contains-Memᴰ n (m ∷ ms) (Memᴰ.tail k) = let h = contains-Memᴰ n ms k in ground arith

-- Strictly ascending.
abbrev pub IsStrict : List ℕ → Type 0
IsStrict [] = Unit
IsStrict (n ∷ ns) = All (λ m. n < m) ns × IsStrict ns

Memᴰ-unique_after :
    (x last : ℕ) (xs : List ℕ) → Memᴰ x xs → (x ≡ last) ⊎ Memᴰ x (unique_after last xs)
unfolding unique_after
Memᴰ-unique_after x last [] m = elim m [ ]
Memᴰ-unique_after x last (y ∷ ys) m = elim (Bool-cases (last == y)) [
  | inl e ↦ rw e (elim m [
    | Memᴰ.head q ↦ inl (q ∙ sym ((==_iff last y).0 e))
    | Memᴰ.tail k ↦ Memᴰ-unique_after x last ys k
  ])
  | inr e ↦ rw e (elim m [
    | Memᴰ.head q ↦ inr (Memᴰ.head q)
    | Memᴰ.tail k ↦ elim (Memᴰ-unique_after x y ys k) [
      | inl q ↦ inr (Memᴰ.head q)
      | inr r ↦ inr (Memᴰ.tail r)
    ]
  ])
]

Memᴰ-unique : (x : ℕ) (xs : List ℕ) → Memᴰ x xs → Memᴰ x (unique xs)
unfolding unique
Memᴰ-unique x [] m = elim m [ ]
Memᴰ-unique x (y ∷ ys) (Memᴰ.head e) = Memᴰ.head e
Memᴰ-unique x (y ∷ ys) (Memᴰ.tail k) = elim (Memᴰ-unique_after x y ys k) [
  | inl e ↦ Memᴰ.head e
  | inr m ↦ Memᴰ.tail m
]

All-lt_trans : (n m : ℕ) (ns : List ℕ) → n < m → All (λ k. m < k) ns → All (λ k. n < k) ns
All-lt_trans n m [] h a = tt
All-lt_trans n m (k ∷ ns) h a = (omega (arith, a.0), All-lt_trans n m ns h a.1)

IsStrict-unique_after :
    (last : ℕ) (xs : List ℕ)
    → All (λ m. last ≤ m) xs
    → IsSorted xs
    → All (λ m. last < m) (unique_after last xs) × IsStrict (unique_after last xs)
unfolding unique_after
IsStrict-unique_after last [] h s = (tt, tt)
IsStrict-unique_after last (y ∷ ys) h s = elim (Bool-cases (last == y)) [
  | inl e ↦ rw e (IsStrict-unique_after last ys h.1 s.1)
  | inr e ↦
      let next = IsStrict-unique_after y ys s.0 s.1 in
      let above : last < y = ground (arith, h.0, e) in
      rw e ((above, All-lt_trans last y (unique_after y ys) above next.0), next)
]

IsStrict-unique : (xs : List ℕ) → IsSorted xs → IsStrict (unique xs)
unfolding unique
IsStrict-unique [] s = tt
IsStrict-unique (x ∷ xs) s = IsStrict-unique_after x xs s.0 s.1

module _ (segment_bytes : ℕ) (own : T2Ownership) (victim_segs : List ℕ) (used : ℕ)
    (mem : T2Memory) where
  wanted-Memᴰ :
      (entry : Scanned) (scanned : List Scanned)
      → Memᴰ entry scanned
      → is_wanted segment_bytes own victim_segs used mem entry ≡ true
      → Memᴰ
          (payload_offset entry.payload)
          (wanted_offsets segment_bytes own victim_segs used mem scanned)
  unfolding wanted_offsets
  wanted-Memᴰ entry [] m w = elim m [ ]
  wanted-Memᴰ entry (e ∷ scanned) (Memᴰ.head q) w =
      let w' : is_wanted segment_bytes own victim_segs used mem e ≡ true = rw (← q) w in
      rw w' (Memᴰ.head (ap (λ s. payload_offset s.payload) q))
  wanted-Memᴰ entry (e ∷ scanned) (Memᴰ.tail k) w =
      let rest = wanted-Memᴰ entry scanned k w in
      elim (Bool-cases (is_wanted segment_bytes own victim_segs used mem e)) [
        | inl h ↦ rw h (Memᴰ.tail rest)
        | inr h ↦ rw h rest
      ]

  -- A live record that starts in a victim, or reaches into one, is wanted.
  module _ (seg : ℕ) (entry : Scanned) (large : punch_slop_bytes ≤ segment_bytes)
      (addressable : segment_count own * segment_bytes < 2 ^ 63) (counted : seg < segment_count own)
      (victim : Memᴰ seg victim_segs) (present : entry.payload ≢ store_not_found)
      (outside : is_inline entry.hash ≡ false) (in_use : payload_offset entry.payload < used)
      (short : aligned_at (payload_offset entry.payload) mem ≤ punch_slop_bytes)
      (before : payload_offset entry.payload < (seg + 1) * segment_bytes)
      (reaches : seg * segment_bytes
        < payload_offset entry.payload + aligned_at (payload_offset entry.payload) mem) where
    abbrev off : ℕ
    off = payload_offset entry.payload

    abbrev at_seg : ℕ
    at_seg = seg_index segment_bytes off

    starts : (at_seg ≡ seg) ⊎ ((at_seg + 1 ≡ seg) × (off < seg * segment_bytes))
    unfolding seg_index
    starts =
        let some_bytes : 0 < segment_bytes = omega arith in
        let top : off / segment_bytes < seg + 1 = (div-lt_iff_lt-mul some_bytes).1 before in
        let room : off + segment_bytes ≡ off + 1 * segment_bytes = omega arith in
        let shifted : (off + 1 * segment_bytes) / segment_bytes ≡ off / segment_bytes + 1 =
          add-mul-div_right off 1 some_bytes in
        let bottom : seg ≤ (off + 1 * segment_bytes) / segment_bytes =
          (le-div_iff_mul-le some_bytes).1 (omega arith) in
        let low : seg ≤ off / segment_bytes + 1 = rw (← shifted) bottom in
        elim (dec_lt (off / segment_bytes) seg) [
          | yes h ↦ inr (omega (arith, low), (div-lt_iff_lt-mul some_bytes).0 h)
          | no h ↦ inl (omega (arith, top))
        ]

    in_victim :
        (at_seg ≡ seg) ⊎ ((at_seg + 1 ≡ seg) × (off < seg * segment_bytes))
        → is_in_victim segment_bytes own victim_segs mem off at_seg ≡ true
    unfolding is_in_victim straddles
    in_victim (inl e) =
        let h : contains at_seg victim_segs ≡ true = rw e (contains-Memᴰ seg victim_segs victim) in
        rw h refl
    in_victim (inr (e, below)) =
        let h : contains (at_seg + 1) victim_segs ≡ true =
          rw e (contains-Memᴰ seg victim_segs victim) in
        let inside : ltb (at_seg + 1) (segment_count own) ≡ true = lt→ltb _ _ (omega arith) in
        let top : seg * segment_bytes ≤ segment_count own * segment_bytes =
          mul-le-mul_right segment_bytes (omega arith) in
        let exact : u64 ((at_seg + 1) * segment_bytes) ≡ seg * segment_bytes = rw e (omega arith) in
        let over : straddles (seg * segment_bytes) off (aligned_at off mem) ≡ true =
          ground (arith, below, reaches, short) in
        elim (Bool-cases (contains at_seg victim_segs)) [
          | inl c ↦ rw c refl
          | inr c ↦ rw (c, inside, h, exact) over
        ]

    wanted : is_wanted segment_bytes own victim_segs used mem entry ≡ true
    unfolding is_wanted
    wanted =
        let here : (entry.payload == store_not_found) ≡ false = ground (arith, present) in
        let inside : leb used off ≡ false = ground (arith, in_use) in
        rw (here, outside, inside) (in_victim starts)

-- The offsets that a cycle moves ascend without repetition. The offset of a scanned payload is among
-- them when its record has bytes in a victim, whether it starts there or before. The conditions: a
-- segment is no smaller than the slop, the segments have less than 2 ^ 63 bytes in all, the victim
-- is counted, the payload is no inline value and no absence, its offset is in the used part of the
-- file, and its record is no longer than the slop.
pub collect_victim_offsets_complete :
    (segment_bytes : ℕ) (own : T2Ownership) (victim_segs : List ℕ) (used : ℕ) (mem : T2Memory)
    (scanned : List Scanned) (entry : Scanned) (seg : ℕ)
    → punch_slop_bytes ≤ segment_bytes
    → segment_count own * segment_bytes < 2 ^ 63
    → seg < segment_count own
    → Memᴰ seg victim_segs
    → Memᴰ entry scanned
    → entry.payload ≢ store_not_found
    → is_inline entry.hash ≡ false
    → payload_offset entry.payload < used
    → aligned_at (payload_offset entry.payload) mem ≤ punch_slop_bytes
    → payload_offset entry.payload < (seg + 1) * segment_bytes
    → seg * segment_bytes
      < payload_offset entry.payload + aligned_at (payload_offset entry.payload) mem
    → let offsets = collect_victim_offsets segment_bytes own victim_segs used mem scanned in
      Memᴰ (payload_offset entry.payload) offsets × IsStrict offsets
unfolding collect_victim_offsets
collect_victim_offsets_complete segment_bytes own victim_segs used mem scanned entry seg large
      addressable counted victim scan present outside in_use short before reaches =
    let all = wanted_offsets segment_bytes own victim_segs used mem scanned in
    let one =
      wanted segment_bytes own victim_segs used mem seg entry large addressable counted victim
        present outside in_use short before reaches in
    (
      Memᴰ-unique (payload_offset entry.payload) (sort_numbers all) (
          Memᴰ-sort_numbers (payload_offset entry.payload) all
            (wanted-Memᴰ segment_bytes own victim_segs used mem entry scanned scan one)),
      IsStrict-unique (sort_numbers all) (IsSorted-sort_numbers all),
    )
