-- ===== src/Tests/PublishTests.antt =====
-- write_via_temp_then_rename of implementation/vmemkv/src/checkpoint/checkpoint.cpp, run.
use vmem_kv.Prelude.{◌≡◌, ◌≢◌, ◌⊎◌, true, none, some, [], ◌∷◌}
use vmem_kv.Checkpoint.Publish.{
  written, interrupted, finished, out_of_fuel, Paths, PublishIo, write_via_temp_then_rename,
}
use vmem_kv.Checkpoint.Publish.Atomic.{write_via_temp_then_rename-atomic}

-- A short write and an interrupted one.
abbrev two_writes : PublishIo
two_writes = record {
  opened = some true;
  writes = written 2 ∷ interrupted ∷ written 1 ∷ [];
  fsync = some true;
  rename = some true;
}

abbrev no_files : Paths
no_files = record { final = none; temp = none }

write_via_temp_then_rename-atomic_example :
    let out = write_via_temp_then_rename two_writes (7 ∷ 8 ∷ 9 ∷ []) no_files in
    ((out.1.final ≡ none) ⊎ (out.1.final ≡ some (record { bytes = 7 ∷ 8 ∷ 9 ∷ []; synced = true })))
    × (out.0 ≡ finished → out.1.final ≡ some (record { bytes = 7 ∷ 8 ∷ 9 ∷ []; synced = true }))
    × (out.0 ≢ out_of_fuel)
write_via_temp_then_rename-atomic_example =
    write_via_temp_then_rename-atomic two_writes (7 ∷ 8 ∷ 9 ∷ []) no_files
