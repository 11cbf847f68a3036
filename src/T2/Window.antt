-- ===== src/T2/Window.antt =====
-- Bytes written into a mapping, and windows read from it.
use vmem_kv.Prelude.{
  ℕ, ◌+◌, ◌-◌, ◌≤◌, ◌≡◌, refl, sym, ap, ◌∙◌, List, ◌++◌, length, take, drop, arith, length-append,
  length-take, length-drop, take-append_length, drop-append_more, take-drop-take, append_assoc,
  drop-drop, drop-append_length,
}

abbrev pub window : ℕ → ℕ → List ℕ → List ℕ
window offset size bytes = take size (drop offset bytes)

-- memcpy to an offset that leaves room for the data.
abbrev pub write_bytes : ℕ → List ℕ → List ℕ → List ℕ
write_bytes offset bytes memory = take offset memory ++ bytes ++ drop (offset + length bytes) memory

module _ (offset : ℕ) (bytes memory : List ℕ) (fits : offset + length bytes ≤ length memory) where
  written_at : length (take offset memory) ≡ offset
  written_at = omega (arith, length-take offset memory)

  pub length-write_bytes : length (write_bytes offset bytes memory) ≡ length memory
  length-write_bytes = omega (
    arith,
    length-append (take offset memory ++ bytes) (drop (offset + length bytes) memory),
    length-append (take offset memory) bytes,
    written_at,
    length-drop (offset + length bytes) memory,
  )

  pub window-write_bytes : window offset (length bytes) (write_bytes offset bytes memory) ≡ bytes
  window-write_bytes =
      let rest = drop (offset + length bytes) memory in
      ap (window offset (length bytes)) (append_assoc (take offset memory) bytes rest)
      ∙ ap (take (length bytes))
          (drop-append_length (take offset memory) (bytes ++ rest) offset written_at)
      ∙ take-append_length bytes rest (length bytes) refl

  pub window-write_bytes_before :
      (o n : ℕ) → o + n ≤ offset → window o n (write_bytes offset bytes memory) ≡ window o n memory
  window-write_bytes_before o n h =
      let rest = drop (offset + length bytes) memory in
      sym (take-drop-take (write_bytes offset bytes memory) offset o n h)
      ∙ ap (window o n) (
          ap (take offset) (append_assoc (take offset memory) bytes rest)
          ∙ take-append_length (take offset memory) (bytes ++ rest) offset written_at)
      ∙ take-drop-take memory offset o n h

  pub window-write_bytes_after :
      (o n : ℕ)
      → offset + length bytes ≤ o
      → window o n (write_bytes offset bytes memory) ≡ window o n memory
  window-write_bytes_after o n h =
      let end = offset + length bytes in
      let rest = drop end memory in
      let sized : length (take offset memory ++ bytes) ≡ end =
        omega (arith, length-append (take offset memory) bytes, written_at) in
      let split : end + (o - end) ≡ o = omega arith in
      ap (take n) (
        drop-append_more (take offset memory ++ bytes) rest end (o - end) o sized (sym split)
        ∙ drop-drop end (o - end) memory
        ∙ ap (λ k. drop k memory) split)

-- A window within a window.
pub window-window :
    (o n p m : ℕ) (memory : List ℕ)
    → p + m ≤ n
    → window p m (window o n memory) ≡ window (o + p) m memory
window-window o n p m memory h =
    take-drop-take (drop o memory) n p m h ∙ ap (take m) (drop-drop o p memory)
