-- ===== src/Tests/BytesTests.antt =====
-- implementation/vmemkv/src/core/bytes.hpp and api/serializer.hpp, run.
use vmem_kv.Prelude.{ℕ, ◌≡◌, refl, ◌↔◌, true, false, List, [], ◌∷◌, arith}
use vmem_kv.Bytes.Compare.{less, same, sign_of, memcmp, bytes_compare_3way, bytes_equal}
use vmem_kv.Bytes.Compare.Laws.{flip}
use vmem_kv.Bytes.Compare.Order.{Precedes, bytes_compare_3way_order, bytes_equal_iff}
use vmem_kv.Serializer.{encode_integral_key}
use vmem_kv.Serializer.Order.{signed_sign, encode_integral_key_order}

a_prefix_is_less : bytes_compare_3way (1 ∷ 2 ∷ []) (1 ∷ 2 ∷ 0 ∷ []) ≡ less
unfolding bytes_compare_3way memcmp sign_of
a_prefix_is_less = refl

abbrev one_two : List ℕ
one_two = 1 ∷ 2 ∷ []

abbrev one_three : List ℕ
one_three = 1 ∷ 3 ∷ []

bytes_compare_3way_order_example :
    ((bytes_compare_3way one_two one_three ≡ less) ↔ Precedes one_two one_three)
    × ((bytes_compare_3way one_two one_three ≡ same) ↔ (one_two ≡ one_three))
    × (bytes_compare_3way one_three one_two ≡ flip (bytes_compare_3way one_two one_three))
bytes_compare_3way_order_example = bytes_compare_3way_order one_two one_three

bytes_equal_iff_example : (bytes_equal one_two one_two ≡ true) ↔ (one_two ≡ one_two)
bytes_equal_iff_example = bytes_equal_iff one_two one_two

-- 255 is the greatest unsigned byte, and -1 as a signed one.
encode_integral_key_order_example :
    (bytes_compare_3way (encode_integral_key 1 false 255) (encode_integral_key 1 false 1)
      ≡ sign_of 255 1)
    × (bytes_compare_3way (encode_integral_key 1 true 255) (encode_integral_key 1 true 1)
        ≡ signed_sign 1 255 1)
encode_integral_key_order_example = encode_integral_key_order 0 255 1 (omega arith) (omega arith)

minus_one_is_less : signed_sign 1 255 1 ≡ less
unfolding signed_sign sign_of
minus_one_is_less = refl
