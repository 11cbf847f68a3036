-- ===== src/Tests/T2Tests.antt =====
-- The record file of implementation/vmemkv/src/t2_flat_file, run.
use vmem_kv.Prelude.{◌^◌, ◌≤◌, ◌<◌, ◌≡◌, refl, inr, [], ◌∷◌, replicate, arith, ok}
use vmem_kv.Bytes.{le_bytes, le_value}
use vmem_kv.T2.Record.{
  T2Memory, align_up, record_aligned_len, write_record, make_record_view, at, append_default,
  update_value_at,
}
use vmem_kv.T2.Record.Append.{Appended, append_default-Appended}
use vmem_kv.T2.Record.Update.{Updated, update_value_at-Updated}

abbrev fresh : T2Memory
fresh = record { base = replicate 64 0; capacity = 64; bytes_used = 0; base_boundary = 0 }

append_default-Appended_example :
    Appended fresh (97 ∷ []) (1 ∷ 2 ∷ []) 0 0 (append_default fresh (97 ∷ []) (1 ∷ 2 ∷ []))
unfolding record_aligned_len align_up
append_default-Appended_example =
    append_default-Appended fresh (97 ∷ []) (1 ∷ 2 ∷ []) 0 0 refl (omega arith) (omega arith)
      (omega arith) (omega arith)

-- A record of key "a" and value 1 2, in 64 bytes.
abbrev one_record : T2Memory
one_record = record {
  base =
      1
      ∷ 0
      ∷ 0
      ∷ 0
      ∷ 2
      ∷ 0
      ∷ 0
      ∷ 0
      ∷ 2
      ∷ 0
      ∷ 0
      ∷ 0
      ∷ 0
      ∷ 0
      ∷ 0
      ∷ 0
      ∷ 0
      ∷ 0
      ∷ 0
      ∷ 0
      ∷ 0
      ∷ 0
      ∷ 0
      ∷ 0
      ∷ 97
      ∷ 1
      ∷ 2
      ∷ replicate 37 0;
  capacity = 64;
  bytes_used = 32;
  base_boundary = 0;
}

appended_bytes : append_default fresh (97 ∷ []) (1 ∷ 2 ∷ []) ≡ (one_record, ok 0)
unfolding append_default record_aligned_len align_up write_record le_bytes
appended_bytes = refl

update_value_at-Updated_example :
    Updated one_record 0 (9 ∷ []) 32 32 (update_value_at 0 (9 ∷ []) one_record)
unfolding at make_record_view le_value
update_value_at-Updated_example =
    let fits : 27 ≤ 64 = omega arith in
    let versions : 2 < 256 ^ 8 = omega arith in
    let after : 27 ≤ 32 = omega arith in
    update_value_at-Updated one_record 0 (9 ∷ []) 32 32 fits (omega arith) versions (inr after)
