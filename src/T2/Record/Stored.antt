-- ===== src/T2/Record/Stored.antt =====
-- The bytes that update_value_at of implementation/vmemkv/src/t2_flat_file/t2_flat_file.cpp writes.
use mathlib.Core.Path.{ap₂}
use vmem_kv.Prelude.{ℕ, ◌+◌, ◌^◌, ◌≤◌, ◌<◌, ◌≡◌, sym, ap, ◌∙◌, ◌⊎◌, inl, inr, List, length, arith}
use vmem_kv.Bytes.{le_bytes, le_value, length-le_bytes, le_value-le_bytes}
use vmem_kv.T2.Window.{
  window, write_bytes, length-write_bytes, window-write_bytes, window-write_bytes_before,
  window-write_bytes_after,
}
use vmem_kv.T2.Record.{record_header_bytes, version_at, field_of, make_record_view, at, store_value}

module _ (offset key_len ver : ℕ) (value base : List ℕ)
    (fits : offset + record_header_bytes + key_len + length value ≤ length base) where
  abbrev n : ℕ
  n = length value

  abbrev value_at : ℕ
  value_at = offset + record_header_bytes + key_len

  abbrev one : List ℕ
  one = write_bytes (offset + version_at) (le_bytes 8 (ver + 1)) base

  abbrev two : List ℕ
  two = write_bytes value_at value one

  abbrev three : List ℕ
  three = write_bytes (offset + 4) (le_bytes 4 n) two

  abbrev four : List ℕ
  four = write_bytes (offset + version_at) (le_bytes 8 (ver + 2)) three

  fits-one : offset + version_at + length (le_bytes 8 (ver + 1)) ≤ length base
  fits-one = omega (arith, length-le_bytes 8 (ver + 1), fits)

  length-one : length one ≡ length base
  length-one = length-write_bytes (offset + version_at) (le_bytes 8 (ver + 1)) base fits-one

  fits-two : value_at + n ≤ length one
  fits-two = omega (arith, length-one, fits)

  length-two : length two ≡ length base
  length-two = length-write_bytes value_at value one fits-two ∙ length-one

  fits-three : offset + 4 + length (le_bytes 4 n) ≤ length two
  fits-three = omega (arith, length-le_bytes 4 n, length-two, fits)

  length-three : length three ≡ length base
  length-three = length-write_bytes (offset + 4) (le_bytes 4 n) two fits-three ∙ length-two

  fits-four : offset + version_at + length (le_bytes 8 (ver + 2)) ≤ length three
  fits-four = omega (arith, length-le_bytes 8 (ver + 2), length-three, fits)

  length-four : length four ≡ length base
  length-four =
      length-write_bytes (offset + version_at) (le_bytes 8 (ver + 2)) three fits-four ∙ length-three

  -- A window that lies beside the version field, beside the value and beside the length field.
  abbrev Beside : ℕ → ℕ → ℕ → ℕ → Type 0
  Beside o m at size = (o + m ≤ at) ⊎ (at + size ≤ o)

  skip-version :
      (o m : ℕ)
      → Beside o m (offset + version_at) 8
      → (window o m one ≡ window o m base) × (window o m four ≡ window o m three)
  skip-version o m (inl h) = (
    window-write_bytes_before (offset + version_at) (le_bytes 8 (ver + 1)) base fits-one o m h,
    window-write_bytes_before (offset + version_at) (le_bytes 8 (ver + 2)) three fits-four o m h,
  )
  skip-version o m (inr h) = (
    window-write_bytes_after (offset + version_at) (le_bytes 8 (ver + 1)) base fits-one o m
        (omega (arith, length-le_bytes 8 (ver + 1))),
    window-write_bytes_after (offset + version_at) (le_bytes 8 (ver + 2)) three fits-four o m
        (omega (arith, length-le_bytes 8 (ver + 2))),
  )

  skip-value : (o m : ℕ) → Beside o m value_at n → window o m two ≡ window o m one
  skip-value o m (inl h) = window-write_bytes_before value_at value one fits-two o m h
  skip-value o m (inr h) = window-write_bytes_after value_at value one fits-two o m h

  skip-length : (o m : ℕ) → Beside o m (offset + 4) 4 → window o m three ≡ window o m two
  skip-length o m (inl h) =
      window-write_bytes_before (offset + 4) (le_bytes 4 n) two fits-three o m h
  skip-length o m (inr h) =
      window-write_bytes_after (offset + 4) (le_bytes 4 n) two fits-three o m
        (omega (arith, length-le_bytes 4 n))

  untouched :
      (o m : ℕ)
      → Beside o m (offset + version_at) 8
      → Beside o m value_at n
      → Beside o m (offset + 4) 4
      → window o m four ≡ window o m base
  untouched o m a b c =
      (skip-version o m a).1 ∙ skip-length o m c ∙ skip-value o m b ∙ (skip-version o m a).0

  length-field : n < 256 ^ 4 → field_of four (offset + 4) 4 ≡ n
  length-field small =
      ap le_value (
        (skip-version (offset + 4) 4 (inl (omega arith))).1
        ∙ ap (λ s. window (offset + 4) s three) (sym (length-le_bytes 4 n))
        ∙ window-write_bytes (offset + 4) (le_bytes 4 n) two fits-three)
      ∙ le_value-le_bytes 4 n small

  version-field : ver + 2 < 256 ^ 8 → field_of four (offset + version_at) 8 ≡ ver + 2
  version-field small =
      ap le_value (
        ap (λ s. window (offset + version_at) s four) (sym (length-le_bytes 8 (ver + 2)))
        ∙ window-write_bytes (offset + version_at) (le_bytes 8 (ver + 2)) three fits-four)
      ∙ le_value-le_bytes 8 (ver + 2) small

  value-window : window value_at n four ≡ value
  value-window =
      (skip-version value_at n (inr (omega arith))).1
      ∙ skip-length value_at n (inr (omega arith))
      ∙ window-write_bytes value_at value one fits-two

  pub length-store_value : length (store_value offset key_len ver value base) ≡ length base
  unfolding store_value
  length-store_value = length-four

  pub store_value-outside :
      (o m : ℕ)
      → (o + m ≤ offset) ⊎ (value_at + n ≤ o)
      → window o m (store_value offset key_len ver value base) ≡ window o m base
  unfolding store_value
  store_value-outside o m (inl h) =
      untouched o m (inl (omega arith)) (inl (omega arith)) (inl (omega arith))
  store_value-outside o m (inr h) = untouched o m (inr (omega arith)) (inr h) (inr (omega arith))

  pub make_record_view-store_value :
      field_of base offset 4 ≡ key_len
      → n < 256 ^ 4
      → ver + 2 < 256 ^ 8
      → make_record_view (store_value offset key_len ver value base) offset ≡ record {
        key_len = key_len;
        value_len = n;
        alloc_len = field_of base (offset + 8) 4;
        version = ver + 2;
        key = window (offset + record_header_bytes) key_len base;
        value = value;
      }
  unfolding make_record_view store_value
  make_record_view-store_value keyed small_value small_version =
      let ek : field_of four offset 4 ≡ key_len =
        ap le_value (untouched offset 4 (inl (omega arith)) (inl (omega arith)) (inl (omega arith)))
        ∙ keyed in
      let ev = length-field small_value in
      let ea : field_of four (offset + 8) 4 ≡ field_of base (offset + 8) 4 =
        ap le_value
          (untouched (offset + 8) 4 (inl (omega arith)) (inl (omega arith)) (inr (omega arith))) in
      let er = version-field small_version in
      let key_eq : window (offset + record_header_bytes) (field_of four offset 4) four
          ≡ window (offset + record_header_bytes) key_len base =
        ap (λ s. window (offset + record_header_bytes) s four) ek
        ∙ untouched (offset + record_header_bytes) key_len (inr (omega arith)) (inl (omega arith))
            (inr (omega arith)) in
      let value_eq : window (offset + record_header_bytes + field_of four offset 4)
            (field_of four (offset + 4) 4) four
          ≡ value =
        ap₂ (λ a b. window (offset + record_header_bytes + a) b four) ek ev ∙ value-window in
      λ i. record {
        key_len = ek i;
        value_len = ev i;
        alloc_len = ea i;
        version = er i;
        key = key_eq i;
        value = value_eq i;
      }
