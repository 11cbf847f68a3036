-- ===== src/Store/Inline/Recover.antt =====
-- The length of an inlined key, and its value, from the index entry.
use mathlib.Core.Path.{subst}
use vmem_kv.Prelude.{
  ℕ, zero, suc, ◌+◌, ◌-◌, ◌*◌, ◌/◌, ◌%◌, ◌≤◌, ◌<◌, ◌≡◌, ◌≢◌, refl, sym, ap, ◌∙◌, ◌⊎◌, Bool, true,
  false, ◌&&◌, ◌||◌, not, Bool-cases, inl, inr, Option, none, some, List, [], ◌∷◌, ◌++◌, length,
  take, drop, replicate, min, leb, ◌==◌, if◌then◌else◌, arith, All, take-append_length,
  drop-append_length, take_all, take-append-drop, length-take, length-drop, take-append_more,
  drop-append_more, append_assoc,
}
use vmem_kv.Bytes.{IsByte, le_bytes, le_value, le_bytes-le_value}
use vmem_kv.T1.Codec.{store_not_found, prefix_from_bytes, is_inline, decode_size, embed_metadata}
use vmem_kv.T1.Codec.Laws.{is_inline-embed_metadata, decode_size-embed_metadata}
use vmem_kv.Store.Inline.{
  back, try_make_inline_payload, bit_width, inline_key_len, copy_inline_value,
}
use vmem_kv.Store.Inline.RoundTrip.{Trimmed, le_value-Trimmed, bit_width-bytes}

zeros : (j k m : ℕ) → le_value (take j (drop k (replicate m 0))) ≡ 0
unfolding le_value
zeros zero k m = refl
zeros (suc j) zero zero = refl
zeros (suc j) zero (suc m) = omega (arith, zeros j zero m)
zeros (suc j) (suc k) zero = refl
zeros (suc j) (suc k) (suc m) = zeros (suc j) k m

le_value-append : (xs ys : List ℕ) → le_value ys ≡ 0 → le_value (xs ++ ys) ≡ le_value xs
unfolding le_value
le_value-append [] ys e = e
le_value-append (x ∷ xs) ys e = ap (λ n. x + 256 * n) (le_value-append xs ys e)

back-drop : (n : ℕ) (xs : List ℕ) → n < length xs → back (drop n xs) ≡ back xs
back-drop zero xs h = refl
back-drop (suc n) [] h = absurd (omega arith)
back-drop (suc n) (x ∷ []) h = absurd (omega arith)
back-drop (suc n) (x ∷ y ∷ xs) h = back-drop n (y ∷ xs) (omega arith)

All-drop {ℓ} : (P : ℕ → Type ℓ) (n : ℕ) (xs : List ℕ) → All P xs → All P (drop n xs)
All-drop P zero xs h = h
All-drop P (suc n) [] h = tt
All-drop P (suc n) (x ∷ xs) h = All-drop P n xs h.1

-- The width of 64 bits is enough for 8 bytes.
width :
    (bs : List ℕ)
    → length bs ≤ 8
    → All IsByte bs
    → (bs ≡ []) ⊎ Trimmed bs
    → (bit_width 64 (le_value bs) + 7) / 8 ≡ length bs
width bs h b t =
    let fuel : 64 ≡ length bs * 8 + (64 - length bs * 8) = omega arith in
    ap (λ f. (bit_width f (le_value bs) + 7) / 8) fuel ∙ bit_width-bytes bs (64 - length bs * 8) b t

Trimmed-nonzero : (bs : List ℕ) → 1 ≤ length bs → Trimmed bs → (le_value bs == 0) ≡ false
Trimmed-nonzero [] h t = absurd (omega arith)
Trimmed-nonzero (x ∷ xs) h t = let one = le_value-Trimmed x xs t in ground (arith, one)

module _ (key : List ℕ) (m : ℕ) (bytes : All IsByte key) (trimmed : (key ≡ []) ⊎ Trimmed key) where
  abbrev prefix : List ℕ
  prefix = key ++ replicate m 0

  short : length key ≤ 8 → inline_key_len prefix ≡ length key
  unfolding inline_key_len
  short h =
      let lo : le_value (take 8 prefix) ≡ le_value key =
        ap le_value (take-append_more key (replicate m 0) 8 (8 - length key) (omega arith))
        ∙ le_value-append key (take (8 - length key) (replicate m 0))
            (zeros (8 - length key) 0 m) in
      let hi : le_value (take 8 (drop 8 prefix)) ≡ 0 =
        ap (λ l. le_value (take 8 l))
          (drop-append_more key (replicate m 0) (length key) (8 - length key) 8 refl (omega arith))
        ∙ zeros 8 (8 - length key) m in
      rw (hi, lo) (width key h bytes trimmed)

  long : 8 < length key → length key ≤ 16 → inline_key_len prefix ≡ length key
  unfolding inline_key_len
  long h k =
      let upper = drop 8 key in
      let size : length upper ≡ length key - 8 = length-drop 8 key in
      let split : drop 8 prefix ≡ upper ++ replicate m 0 =
        ap (λ l. drop 8 (l ++ replicate m 0)) (sym (take-append-drop 8 key))
        ∙ ap (drop 8) (append_assoc (take 8 key) upper (replicate m 0))
        ∙ drop-append_length (take 8 key) (upper ++ replicate m 0) 8
            (omega (arith, length-take 8 key)) in
      let hi : le_value (take 8 (drop 8 prefix)) ≡ le_value upper =
        ap (λ l. le_value (take 8 l)) split
        ∙ ap le_value
            (take-append_more upper (replicate m 0) 8 (8 - length upper) (omega (arith, size)))
        ∙ le_value-append upper (take (8 - length upper) (replicate m 0))
            (zeros (8 - length upper) 0 m) in
      let end : Trimmed upper =
        ap (λ b. b == 0) (back-drop 8 key h)
        ∙ elim trimmed [ inl e ↦ absurd (omega (arith, ap length e)) | inr t ↦ t ] in
      let nonzero = Trimmed-nonzero upper (omega (arith, size)) end in
      rw (hi, nonzero)
        (omega
          (arith, size, width upper (omega (arith, size)) (All-drop IsByte 8 key bytes) (inr end)))

  pub inline_key_len-prefix : length key ≤ 16 → inline_key_len prefix ≡ length key
  inline_key_len-prefix k = elim (Bool-cases (leb (length key) 8)) [
    | inl e ↦ short (ground arith)
    | inr e ↦ long (ground arith) k
  ]

pub prefix_from_bytes-short :
    (key : List ℕ) → length key ≤ 16 → prefix_from_bytes key ≡ key ++ replicate (16 - length key) 0
unfolding prefix_from_bytes
prefix_from_bytes-short key h =
    let e : min (length key) 16 ≡ length key = omega arith in
    rw e (ap (λ l. l ++ replicate (16 - length key) 0) (take_all (length key) key (omega arith)))

take-le_bytes : (n w v : ℕ) → n ≤ w → take n (le_bytes w v) ≡ le_bytes n v
unfolding le_bytes
take-le_bytes zero w v h = refl
take-le_bytes (suc n) zero v h = absurd (omega arith)
take-le_bytes (suc n) (suc w) v h =
    ap (λ r. (v % 256) ∷ r) (take-le_bytes n w (v / 256) (omega arith))

pub copy_inline_value-le_value :
    (value : List ℕ)
    → length value ≤ 8
    → All IsByte value
    → copy_inline_value (le_value value) (length value) ≡ value
unfolding copy_inline_value
copy_inline_value-le_value value h b =
    take-le_bytes (length value) 8 (le_value value) h ∙ le_bytes-le_value value b

-- What an inlined entry gives back.
pub record Recovered (key value : List ℕ) (hash payload size : ℕ) : Type 0 where
  pub flagged : is_inline (embed_metadata hash size) ≡ true
  pub alive : payload ≢ store_not_found
  pub value_back : copy_inline_value payload (decode_size (embed_metadata hash size)) ≡ value
  pub key_back : take (inline_key_len (prefix_from_bytes key)) (prefix_from_bytes key) ≡ key

abbrev eligible : List ℕ → List ℕ → Bool
eligible full_key value =
    leb (length full_key) 16
    && (length full_key == 0 || not (back full_key == 0))
    && not (length value == 0)
    && leb (length value) 8

and_both : (a b : Bool) → (a && b) ≡ true → (a ≡ true) × (b ≡ true)
and_both true true h = (refl, refl)
and_both true false h = cc
and_both false true h = cc
and_both false false h = cc

end-cases :
    (key : List ℕ) → (length key == 0 || not (back key == 0)) ≡ true → (key ≡ []) ⊎ Trimmed key
end-cases [] h = inl refl
end-cases (x ∷ xs) h =
    let more : (length (x ∷ xs) == 0) ≡ false = ground arith in
    inr (go (back (x ∷ xs) == 0) (sym (ap (λ b. b || not (back (x ∷ xs) == 0)) more) ∙ h))
  where
    go : (b : Bool) → (false || not b) ≡ true → b ≡ false
    go true h = cc
    go false h = refl

Recovered-eligible :
    (key value : List ℕ) (hash : ℕ)
    → All IsByte key
    → All IsByte value
    → eligible key value ≡ true
    → le_value value ≢ store_not_found
    → Recovered key value hash (le_value value) (length value)
Recovered-eligible key value hash kb vb e n =
    let a = leb (length key) 16 in
    let b = length key == 0 || not (back key == 0) in
    let c = not (length value == 0) in
    let d = leb (length value) 8 in
    let (abc, small) = and_both (a && b && c) d e in
    let (ab, filled) = and_both (a && b) c abc in
    let (fits, end) = and_both a b ab in
    let k16 : length key ≤ 16 = ground (arith, fits) in
    let v8 : length value ≤ 8 = ground (arith, small) in
    let v1 : 1 ≤ length value = ground (arith, filled) in
    record {
      flagged = is_inline-embed_metadata hash (length value);
      alive = n;
      value_back =
          ap (copy_inline_value (le_value value))
            (decode_size-embed_metadata hash (length value) v1 v8)
          ∙ copy_inline_value-le_value value v8 vb;
      key_back =
          ap (λ p. take (inline_key_len p) p) (prefix_from_bytes-short key k16)
          ∙ ap (λ l. take l (key ++ replicate (16 - length key) 0))
              (inline_key_len-prefix key (16 - length key) kb (end-cases key end) k16)
          ∙ take-append_length key (replicate (16 - length key) 0) (length key) refl;
    }

abbrev the : ℕ × ℕ → Option (ℕ × ℕ) → ℕ × ℕ
the q none = q
the q (some p) = p

chosen :
    (good sentinel : Bool) (p q : ℕ × ℕ)
    → (if good then (if sentinel then none else some p) else none) ≡ some q
    → (good ≡ true) × (sentinel ≡ false) × (p ≡ q)
chosen true true p q e = cc
chosen true false p q e = (refl, refl, ap (the q) e)
chosen false s p q e = cc

-- Where try_make_inline_payload gives a payload and a size for a key and a value of bytes, the stored
-- hash is marked inline, the payload is not the sentinel of absence, the value is recovered from the
-- payload and the stored hash, and the key from its 16-byte prefix.
pub try_make_inline_payload-Recovered :
    (use_t1_inline_value : Bool) (key value : List ℕ) (hash payload size : ℕ)
    → All IsByte key
    → All IsByte value
    → try_make_inline_payload use_t1_inline_value key value ≡ some (payload, size)
    → Recovered key value hash payload size
unfolding try_make_inline_payload
try_make_inline_payload-Recovered false key value hash payload size kb vb e = cc
try_make_inline_payload-Recovered true key value hash payload size kb vb e =
    let (good, other, found) =
      chosen (eligible key value) (le_value value == store_not_found) (le_value value, length value)
        (payload, size) e in
    subst (λ q. Recovered key value hash q.0 q.1) found
      (Recovered-eligible key value hash kb vb good (λ s. absurd (ground (arith, s, other))))
