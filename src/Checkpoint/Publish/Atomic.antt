-- ===== src/Checkpoint/Publish/Atomic.antt =====
-- What is at the final path after write_via_temp_then_rename, whatever the system answers.
use vmem_kv.Prelude.{
  ℕ, zero, suc, ◌-◌, ◌*◌, ◌^◌, ◌≤◌, ◌≡◌, ◌≢◌, refl, sym, ap, ◌∙◌, ◌⊎◌, inl, inr, Bool, true, false,
  Option, none, some, List, [], ◌∷◌, ◌++◌, length, take, drop, length-drop, take-append-drop,
  append-nil, append_assoc, if◌then◌else◌, arith,
}
use mathlib.Core.Path.{subst}
use vmem_kv.Checkpoint.Publish.{
  WriteAnswer, written, interrupted, refused, Ended, finished, threw, crashed, out_of_fuel, Writing,
  write_all_exact, sync_interval_bytes, is_finished, write_intervals, Paths, PublishIo, rename_over,
  fsync_then_rename, write_body, open_then_write, write_via_temp_then_rename,
}

unfoldable ran_out : Ended → Bool
ran_out finished = false
ran_out threw = false
ran_out crashed = false
ran_out out_of_fuel = true

-- A loop that finishes has written all, and it does not run out of fuel.
record Wrote (contents bytes : List ℕ) (w : Writing) : Type 0 where
  all : is_finished w.ended ≡ true → w.bytes ≡ bytes ++ contents
  fuel : ran_out w.ended ≡ false

write_all_exact-Wrote :
    (answers : List WriteAnswer) (contents bytes : List ℕ)
    → Wrote contents bytes (write_all_exact answers contents bytes)
unfolding write_all_exact is_finished ran_out
write_all_exact-Wrote answers [] bytes = record { all = λ h. sym (append-nil bytes); fuel = refl }
write_all_exact-Wrote [] (b ∷ left) bytes = record { all = λ h. absurd (cc h); fuel = refl }
write_all_exact-Wrote (written zero ∷ answers) (b ∷ left) bytes = record {
  all = λ h. absurd (cc h);
  fuel = refl;
}
write_all_exact-Wrote (written (suc n) ∷ answers) (b ∷ left) bytes =
    let rest = write_all_exact-Wrote answers (drop n left) (bytes ++ (b ∷ take n left)) in
    record {
      all = λ h.
          rest.all h
          ∙ append_assoc bytes (b ∷ take n left) (drop n left)
          ∙ ap (λ xs. bytes ++ (b ∷ xs)) (take-append-drop n left);
      fuel = rest.fuel;
    }
write_all_exact-Wrote (interrupted ∷ answers) (b ∷ left) bytes =
    write_all_exact-Wrote answers (b ∷ left) bytes
write_all_exact-Wrote (refused ∷ answers) (b ∷ left) bytes = record {
  all = λ h. absurd (cc h);
  fuel = refl;
}

Wrote-then :
    (x y bytes : List ℕ) (w rest : Writing) (b : Bool)
    → is_finished w.ended ≡ b
    → Wrote x bytes w
    → Wrote y w.bytes rest
    → Wrote (x ++ y) bytes (if b then rest else w)
Wrote-then x y bytes w rest true e first second = record {
  all = λ h. second.all h ∙ ap (λ xs. xs ++ y) (first.all e) ∙ append_assoc bytes x y;
  fuel = second.fuel;
}
Wrote-then x y bytes w rest false e first second = record {
  all = λ h. absurd (cc (sym e ∙ h));
  fuel = first.fuel;
}

drop_shorter : (n fuel : ℕ) (xs : List ℕ) → length xs ≤ suc fuel → length (drop (suc n) xs) ≤ fuel
drop_shorter n fuel xs l = rw (length-drop (suc n) xs) (omega arith)

write_intervals-Wrote :
    (fuel : ℕ) (answers : List WriteAnswer) (contents bytes : List ℕ)
    → length contents ≤ fuel
    → Wrote contents bytes (write_intervals fuel answers contents bytes)
unfolding write_intervals ran_out
write_intervals-Wrote fuel answers [] bytes l = record {
  all = λ h. sym (append-nil bytes);
  fuel = refl;
}
write_intervals-Wrote zero answers (b ∷ left) bytes l = absurd (omega arith)
write_intervals-Wrote (suc fuel) answers (b ∷ left) bytes l =
    let now = take sync_interval_bytes (b ∷ left) in
    let later = drop sync_interval_bytes (b ∷ left) in
    let w = write_all_exact answers now bytes in
    subst (λ xs. Wrote xs bytes (write_intervals (suc fuel) answers (b ∷ left) bytes))
      (take-append-drop sync_interval_bytes (b ∷ left))
      (Wrote-then now later bytes w (write_intervals fuel w.answers later w.bytes)
        (is_finished w.ended) refl (write_all_exact-Wrote answers now bytes)
        (write_intervals-Wrote fuel w.answers later w.bytes
          (drop_shorter (512 * 2 ^ 20 - 1) fuel (b ∷ left) l)))

-- The file at the final path is the old one or the new one in full, synced, and it is the new one
-- after a return.
record Atomic (contents : List ℕ) (before : Paths) (out : Ended × Paths) : Type 0 where
  final :
      (out.1.final ≡ before.final)
      ⊎ (out.1.final ≡ some (record { bytes = contents; synced = true }))
  returned :
      is_finished out.0 ≡ true → out.1.final ≡ some (record { bytes = contents; synced = true })
  fuel : ran_out out.0 ≡ false

module _ (contents : List ℕ) (before : Paths) where
  kept :
      (ended : Ended) (after : Paths)
      → after.final ≡ before.final
      → is_finished ended ≡ false
      → ran_out ended ≡ false
      → Atomic contents before (ended, after)
  kept ended after same e f = record {
    final = inl same;
    returned = λ h. absurd (cc (sym e ∙ h));
    fuel = f;
  }

  fsync_then_rename-Atomic :
      (io : PublishIo) (bytes : List ℕ) (fsync : Option Bool) (paths : Paths)
      → bytes ≡ contents
      → paths.final ≡ before.final
      → Atomic contents before (fsync_then_rename io bytes fsync paths)
  unfolding fsync_then_rename rename_over is_finished ran_out
  fsync_then_rename-Atomic io bytes none paths e same = kept crashed paths same refl refl
  fsync_then_rename-Atomic io bytes (some false) paths e same = kept threw paths same refl refl
  fsync_then_rename-Atomic io bytes (some true) paths e same = renamed io.rename
    where
      renamed :
          (answer : Option Bool)
          → Atomic contents before (
              rename_over answer
                (record paths { temp = some (record { bytes = bytes; synced = true }) }))
      renamed none = kept crashed _ same refl refl
      renamed (some false) = kept threw _ same refl refl
      renamed (some true) =
          let new = ap (λ xs. some (record { bytes = xs; synced = true })) e in
          record { final = inr new; returned = λ h. new; fuel = refl }

  write_body-Atomic :
      (io : PublishIo) (paths : Paths)
      → paths.final ≡ before.final
      → Atomic contents before (write_body io contents paths)
  unfolding write_body
  write_body-Atomic io paths same = by_end (is_finished w.ended) refl
    where
      w : Writing
      w = write_intervals (length contents) io.writes contents []

      whole : Wrote contents [] w
      whole = write_intervals-Wrote (length contents) io.writes contents [] (omega arith)

      temp : Paths
      temp = record paths { temp = some (record { bytes = w.bytes; synced = false }) }

      by_end :
          (b : Bool)
          → is_finished w.ended ≡ b
          → Atomic contents before
              (if b then fsync_then_rename io w.bytes io.fsync temp else (w.ended, temp))
      by_end true e = fsync_then_rename-Atomic io w.bytes io.fsync temp (whole.all e) same
      by_end false e = kept w.ended temp same e whole.fuel

  open_then_write-Atomic :
      (answer : Option Bool) (io : PublishIo)
      → Atomic contents before (open_then_write answer io contents before)
  unfolding open_then_write is_finished ran_out
  open_then_write-Atomic none io = kept crashed before refl refl refl
  open_then_write-Atomic (some false) io = kept threw before refl refl refl
  open_then_write-Atomic (some true) io = write_body-Atomic io before refl

-- Whatever the system answers, and wherever a crash comes, the file at the final path is the old one
-- or the new one with all contents, synced. It is the new one when the call returns, and the writing
-- loop does not run out of fuel.
pub write_via_temp_then_rename-atomic :
    (io : PublishIo) (contents : List ℕ) (before : Paths)
    → let out = write_via_temp_then_rename io contents before in
      ((out.1.final ≡ before.final)
        ⊎ (out.1.final ≡ some (record { bytes = contents; synced = true })))
      × (out.0 ≡ finished → out.1.final ≡ some (record { bytes = contents; synced = true }))
      × (out.0 ≢ out_of_fuel)
unfolding write_via_temp_then_rename is_finished ran_out
write_via_temp_then_rename-atomic io contents before =
    let atomic = open_then_write-Atomic contents before io.opened io in
    (
      atomic.final,
      (λ h. atomic.returned (ap is_finished h)),
      (λ h. absurd (cc (sym atomic.fuel ∙ ap ran_out h))),
    )
