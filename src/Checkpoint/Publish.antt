-- ===== src/Checkpoint/Publish.antt =====
-- write_via_temp_then_rename and write_fsync_close of implementation/vmemkv/src/checkpoint/checkpoint.cpp
-- and write_all_exact of core/io.hpp, up to a crash at any call of the system.
--
-- What the system answers is an argument, and a crash is an answer that does not come. A file is its
-- bytes and whether an fsync has followed the last write. The periodic fdatasync of a long file
-- changes neither.
pub mod Atomic
use vmem_kv.Prelude.{
  ℕ, zero, suc, ◌*◌, ◌^◌, Bool, true, false, Option, none, some, List, [], ◌∷◌, ◌++◌, length, take,
  drop, if◌then◌else◌,
}

-- What ::write returns: some bytes written, EINTR or another error.
pub data WriteAnswer : Type 0 where
  written : ℕ → WriteAnswer
  interrupted refused : WriteAnswer

pub data Ended : Type 0 where
  finished threw crashed out_of_fuel : Ended

pub record Writing : Type 0 where
  pub ended : Ended
  pub answers : List WriteAnswer
  pub bytes : List ℕ

unfoldable pub write_all_exact : List WriteAnswer → List ℕ → List ℕ → Writing
write_all_exact answers [] bytes = record { ended = finished; answers = answers; bytes = bytes }
write_all_exact [] (b ∷ data_left) bytes = record { ended = crashed; answers = []; bytes = bytes }
write_all_exact (written zero ∷ answers) (b ∷ data_left) bytes = record {
  ended = threw;
  answers = answers;
  bytes = bytes;
}
write_all_exact (written (suc n) ∷ answers) (b ∷ data_left) bytes =
    write_all_exact answers (drop n data_left) (bytes ++ (b ∷ take n data_left))
write_all_exact (interrupted ∷ answers) (b ∷ data_left) bytes =
    write_all_exact answers (b ∷ data_left) bytes
write_all_exact (refused ∷ answers) (b ∷ data_left) bytes = record {
  ended = threw;
  answers = answers;
  bytes = bytes;
}

abbrev pub sync_interval_bytes : ℕ
sync_interval_bytes = 512 * 2 ^ 20

unfoldable pub is_finished : Ended → Bool
is_finished finished = true
is_finished threw = false
is_finished crashed = false
is_finished out_of_fuel = false

-- The loop of write_fsync_close.
unfoldable pub write_intervals : ℕ → List WriteAnswer → List ℕ → List ℕ → Writing
unfolding write_all_exact is_finished
write_intervals fuel answers [] bytes = record {
  ended = finished;
  answers = answers;
  bytes = bytes;
}
write_intervals zero answers (b ∷ data_left) bytes = record {
  ended = out_of_fuel;
  answers = answers;
  bytes = bytes;
}
write_intervals (suc fuel) answers (b ∷ data_left) bytes =
    let w = write_all_exact answers (take sync_interval_bytes (b ∷ data_left)) bytes in
    let rest = write_intervals fuel w.answers (drop sync_interval_bytes (b ∷ data_left)) w.bytes in
    if is_finished w.ended then rest else w

pub record File : Type 0 where
  pub bytes : List ℕ
  pub synced : Bool

-- The final path and the temp path.
pub record Paths : Type 0 where
  pub final : Option File
  pub temp : Option File

-- none is a crash in the call, before it has an effect, and false an error.
pub record PublishIo : Type 0 where
  pub opened : Option Bool
  pub writes : List WriteAnswer
  pub fsync : Option Bool
  pub rename : Option Bool

unfoldable pub rename_over : Option Bool → Paths → Ended × Paths
rename_over none paths = (crashed, paths)
rename_over (some false) paths = (threw, paths)
rename_over (some true) paths = (finished, record { final = paths.temp; temp = none })

unfoldable pub fsync_then_rename : PublishIo → List ℕ → Option Bool → Paths → Ended × Paths
unfolding rename_over
fsync_then_rename io bytes none paths = (crashed, paths)
fsync_then_rename io bytes (some false) paths = (threw, paths)
fsync_then_rename io bytes (some true) paths =
    rename_over io.rename (record paths { temp = some (record { bytes = bytes; synced = true }) })

unfoldable pub write_body : PublishIo → List ℕ → Paths → Ended × Paths
unfolding write_intervals is_finished fsync_then_rename
write_body io contents paths =
    let w = write_intervals (length contents) io.writes contents [] in
    let written_temp = record paths { temp = some (record { bytes = w.bytes; synced = false }) } in
    if is_finished w.ended
    then fsync_then_rename io w.bytes io.fsync written_temp
    else (w.ended, written_temp)

unfoldable pub open_then_write : Option Bool → PublishIo → List ℕ → Paths → Ended × Paths
unfolding write_body
open_then_write none io contents paths = (crashed, paths)
open_then_write (some false) io contents paths = (threw, paths)
open_then_write (some true) io contents paths = write_body io contents paths

unfoldable pub write_via_temp_then_rename : PublishIo → List ℕ → Paths → Ended × Paths
unfolding open_then_write
write_via_temp_then_rename io contents paths = open_then_write io.opened io contents paths
