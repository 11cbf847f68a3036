-- ===== src/Bytes/Struct.antt =====
-- A standard-layout struct without padding as bytes: its fields, each with the width in bytes,
-- one after the other.
use vmem_kv.Prelude.{
  ℕ, zero, suc, ◌+◌, ◌^◌, ◌<◌, ◌≡◌, refl, ap, ◌∙◌, List, [], ◌∷◌, ◌++◌, length, take, drop,
  get_elem?, some, arith, length-append, take-append_length, drop-append_more, append-nil,
  append_assoc, sym,
}
use vmem_kv.Bytes.{le_bytes, le_value, length-le_bytes, le_value-le_bytes}

abbrev pub Field : Type 0
Field = ℕ × ℕ

-- memcpy out of the struct.
abbrev pub struct_bytes : List Field → List ℕ
struct_bytes [] = []
struct_bytes ((w, v) ∷ fields) = le_bytes w v ++ struct_bytes fields

-- One field of the struct, after memcpy into it.
abbrev pub field_at : ℕ → ℕ → List ℕ → ℕ
field_at offset width bytes = le_value (take width (drop offset bytes))

abbrev pub struct_size : List Field → ℕ
struct_size [] = 0
struct_size ((w, v) ∷ fields) = w + struct_size fields

abbrev pub offset_of : List Field → ℕ → ℕ
offset_of [] n = 0
offset_of ((w, v) ∷ fields) zero = 0
offset_of ((w, v) ∷ fields) (suc n) = w + offset_of fields n

pub length-struct_bytes : (fields : List Field) → length (struct_bytes fields) ≡ struct_size fields
length-struct_bytes [] = refl
length-struct_bytes ((w, v) ∷ fields) = omega (
  arith,
  length-append (le_bytes w v) (struct_bytes fields),
  length-le_bytes w v,
  length-struct_bytes fields,
)

field_here : (w v : ℕ) (rest : List ℕ) → v < 256 ^ w → field_at 0 w (le_bytes w v ++ rest) ≡ v
field_here w v rest h =
    rw (take-append_length (le_bytes w v) rest w (length-le_bytes w v)) (le_value-le_bytes w v h)

-- Each field is read back from its offset, whatever follows the struct.
pub field_at-struct_bytes :
    (fields : List Field) (n w v : ℕ) (rest : List ℕ)
    → get_elem? fields n ≡ some (w, v)
    → v < 256 ^ w
    → field_at (offset_of fields n) w (struct_bytes fields ++ rest) ≡ v
field_at-struct_bytes [] n w v rest e h = cc
field_at-struct_bytes ((u, x) ∷ fields) zero w v rest e h =
    let eu : w ≡ u = ground arith in
    let ex : v ≡ x = ground arith in
    let bound : x < 256 ^ u = rw (← eu, ← ex) h in
    rw (append_assoc, eu, ex) (field_here u x (struct_bytes fields ++ rest) bound)
field_at-struct_bytes ((u, x) ∷ fields) (suc n) w v rest e h = rw append_assoc (
    ap (λ bytes. le_value (take w bytes))
      (drop-append_more (le_bytes u x) (struct_bytes fields ++ rest) u (offset_of fields n)
        (u + offset_of fields n) (length-le_bytes u x) refl)
    ∙ field_at-struct_bytes fields n w v rest e h)

-- The same, where the struct is all there is.
pub field_at-struct_bytes_only :
    (fields : List Field) (n w v : ℕ)
    → get_elem? fields n ≡ some (w, v)
    → v < 256 ^ w
    → field_at (offset_of fields n) w (struct_bytes fields) ≡ v
field_at-struct_bytes_only fields n w v e h =
    ap (field_at (offset_of fields n) w) (sym (append-nil (struct_bytes fields)))
    ∙ field_at-struct_bytes fields n w v [] e h
