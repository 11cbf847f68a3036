-- ===== src/Tests/StoreTests.antt =====
-- implementation/vmemkv/src/vmemkv/t2_ownership.hpp and the inline values of write_path.hpp, run.
use vmem_kv.Prelude.{ℕ, ◌+◌, ◌*◌, ◌^◌, ◌<◌, refl, true, [], ◌∷◌, arith}
use vmem_kv.Bytes.{le_value}
use vmem_kv.T1.Codec.{is_inline}
use vmem_kv.Store.Ownership.{
  T2Ownership, payload_offset, hint_bytes, seg_index, seg_live_at, owns_bytes, note_replace,
}
use vmem_kv.Store.Ownership.Accounting.{seg_sum, total_sum, Accounts}
use vmem_kv.Store.Ownership.Replace.{note_replace-Accounts}
use vmem_kv.T2.Record.{record_aligned_len, align_up}
use vmem_kv.Store.Payload.{Encoded, encode_payload, encode_payload-Encoded}
use vmem_kv.Store.Inline.{try_make_inline_payload}
use vmem_kv.Store.Inline.Recover.{Recovered, try_make_inline_payload-Recovered}

-- Two blocks in segment 0, and three blocks in segment 1.
abbrev in_first : ℕ
in_first = 2 * 2 ^ 48

abbrev in_second : ℕ
in_second = 4096 + 3 * 2 ^ 48

abbrev counters : T2Ownership
counters = record { seg_live = 32 ∷ 0 ∷ []; live_total = 32 }

abbrev moved : T2Ownership
moved = record { seg_live = 0 ∷ 48 ∷ []; live_total = 48 }

counters-Accounts : Accounts 4096 0 (in_first ∷ []) counters
unfolding seg_live_at seg_sum total_sum hint_bytes seg_index payload_offset
counters-Accounts = record { segment = refl; total = refl }

moved-Accounts : Accounts 4096 0 (in_second ∷ []) moved
unfolding seg_live_at seg_sum total_sum hint_bytes seg_index payload_offset
moved-Accounts = record { segment = refl; total = refl }

note_replace-Accounts_example :
    Accounts 4096 0 (in_second ∷ []) (note_replace 4096 in_first 7 true in_second counters)
unfolding owns_bytes is_inline total_sum hint_bytes seg_index payload_offset
note_replace-Accounts_example =
    let old_fits : 32 < 2 ^ 64 = omega arith in
    let new_fits : 48 < 2 ^ 64 = omega arith in
    note_replace-Accounts 4096 0 [] in_first 7 true in_second counters (omega arith) old_fits
      new_fits counters-Accounts

-- The key "ab" and the value 1 2 3.
try_make_inline_payload-Recovered_example : Recovered (97 ∷ 98 ∷ []) (1 ∷ 2 ∷ 3 ∷ []) 77 197121 3
unfolding try_make_inline_payload le_value
try_make_inline_payload-Recovered_example =
    try_make_inline_payload-Recovered true (97 ∷ 98 ∷ []) (1 ∷ 2 ∷ 3 ∷ []) 77 197121 3
      (omega arith, (omega arith, tt)) (omega arith, (omega arith, (omega arith, tt))) refl

-- A record of a 10-byte key and a 100-byte value at offset 4096.
encode_payload-Encoded_example : Encoded 4096 (record_aligned_len 10 100) (4096 + 8 * 2 ^ 48)
unfolding encode_payload record_aligned_len align_up
encode_payload-Encoded_example =
    let small : 4096 < 2 ^ 48 = omega arith in
    encode_payload-Encoded 4096 10 100 (4096 + 8 * 2 ^ 48) small refl refl
