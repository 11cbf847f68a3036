-- ===== src/T2/Record/Append.antt =====
-- A record is read back as it was appended, and no older byte changes.
use vmem_kv.Prelude.{
  ℕ, ◌+◌, ◌%◌, ◌^◌, ◌≤◌, ◌<◌, ◌≡◌, refl, ◌⊎◌, Bool-cases, inl, inr, List, length, ltb, Outcome, ok,
  err, arith, ltb→lt, ltb_false→le,
}
use vmem_kv.T2.Window.{window}
use vmem_kv.T2.Record.{record_aligned_len, T2Memory, at, T2Error, capacity_exceeded, append_default}
use vmem_kv.T2.Record.Written.{
  length-write_record, write_record-before, make_record_view-write_record,
}

-- What append_default leaves behind: the mapping keeps its length, what was in use before is as it
-- was, and the call either returns the old end, which is where the record is then read from, or
-- throws and has written nothing; the claimed bytes count as used in both cases.
pub record Appended (mem : T2Memory) (key value : List ℕ) (o n : ℕ)
    (after : T2Memory × Outcome T2Error ℕ) : Type 0 where
  pub sized : length after.0.base ≡ length mem.base
  pub kept : window o n after.0.base ≡ window o n mem.base
  pub claimed : after.0.bytes_used ≡ mem.bytes_used + record_aligned_len (length key) (length value)
  pub outcome :
      ((after.1 ≡ ok mem.bytes_used)
        × (after.0.bytes_used ≤ mem.capacity)
        × (at mem.bytes_used after.0 ≡ record {
          key_len = length key;
          value_len = length value;
          alloc_len = length value;
          version = 0;
          key = key;
          value = value;
        }))
      ⊎ ((after.1 ≡ err capacity_exceeded)
          × (after.0.base ≡ mem.base)
          × (mem.capacity < after.0.bytes_used))

-- append_default on a mapping of its full capacity, for a key and a value of less than 2 ^ 32 bytes
-- and a window of bytes that were in use before, where the used bytes, with the record's, are below
-- 2 ^ 64: the mapping keeps its length and the window its
-- bytes. Either the record's offset is the old end, the record fits, and it is read back with the
-- key, the value and version 0; or the call throws because the capacity is exceeded, and has
-- written nothing. The used bytes grow by the aligned length of the record in both cases.
pub append_default-Appended :
    (mem : T2Memory) (key value : List ℕ) (o n : ℕ)
    → length mem.base ≡ mem.capacity
    → length key < 256 ^ 4
    → length value < 256 ^ 4
    → o + n ≤ mem.bytes_used
    → mem.bytes_used + record_aligned_len (length key) (length value) < 2 ^ 64
    → Appended mem key value o n (append_default mem key value)
unfolding append_default at
append_default-Appended mem key value o n sized small_key small_value h no_wrap =
    let required = record_aligned_len (length key) (length value) in
    let exact : (mem.bytes_used + required) % 2 ^ 64 ≡ mem.bytes_used + required = omega arith in
    rw exact (elim (Bool-cases (ltb mem.capacity (mem.bytes_used + required))) [
      | inl over ↦ rw over record {
        sized = refl;
        kept = refl;
        claimed = refl;
        outcome = inr (refl, refl, ltb→lt mem.capacity (mem.bytes_used + required) over);
      }
      | inr room ↦
          let below = ltb_false→le mem.capacity (mem.bytes_used + required) room in
          let fits : mem.bytes_used + required ≤ length mem.base = omega (arith, below, sized) in
          rw room record {
            sized =
                length-write_record mem.bytes_used key value mem.base small_key small_value fits;
            kept =
                write_record-before mem.bytes_used key value mem.base small_key small_value fits o n
                  h;
            claimed = refl;
            outcome = inl (
              refl,
              below,
              make_record_view-write_record mem.bytes_used key value mem.base small_key small_value
                  fits,
            );
          }
    ])
