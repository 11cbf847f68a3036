-- ===== src/Wal/Segment/Reopen.antt =====
-- Opening a segment over any bytes: the loops end, nothing throws, and the result is stable.
use vmem_kv.Prelude.{
  ℕ, zero, suc, ◌+◌, ◌-◌, ◌≤◌, ◌<◌, ◌≡◌, refl, sym, ap, ◌∙◌, inl, inr, Bool, true, false, none,
  some, List, [], ◌∷◌, length, take, drop, ltb, if◌then◌else◌, Outcome, ok, err, ◌>>=◌, arith,
  tests, Bool-cases, le→ltb_false, lt→ltb, take_all,
}
use vmem_kv.Wal.Segment.{
  WalError, corrupt_tail, LogEntry, scan_step, scan_loop, scan_and_validate, close_scan,
  replay_loop, replay_segment, payload_len, key_span, value_span,
}
use vmem_kv.Wal.Segment.Steps.{scan_step_short}
use vmem_kv.Wal.Segment.Total.{
  stops, takes, round, header_at, end_at, scan_step-header, scan_step-take, length-cut,
  pread_exact-take, pread_exact-within,
}

-- The scan of `file` from `offset` ends at `end` with the LSN `lsn`; and the file cut there is
-- scanned to the same end, and replays.
record Settled (file : List ℕ) (offset last : ℕ) : Type 0 where
  end : ℕ
  lsn : ℕ
  entries : List LogEntry
  after : offset ≤ end
  within : end ≤ length file
  scans : (fuel : ℕ) → length file - offset < fuel → scan_loop fuel file offset last ≡ ok (end, lsn)
  rescans :
      (fuel : ℕ) → end - offset < fuel → scan_loop fuel (take end file) offset last ≡ ok (end, lsn)
  replays : (fuel : ℕ) → end - offset < fuel → replay_loop fuel (take end file) offset ≡ ok entries

scan_loop-none :
    (file : List ℕ) (offset last fuel : ℕ)
    → scan_step file offset ≡ ok none
    → 0 < fuel
    → scan_loop fuel file offset last ≡ ok (offset, last)
unfolding scan_loop
scan_loop-none file offset last zero e h = absurd (omega arith)
scan_loop-none file offset last (suc fuel) e h = rw e

replay_loop_short :
    (file : List ℕ) (offset fuel : ℕ)
    → length file < offset + 32
    → 0 < fuel
    → replay_loop fuel file offset ≡ ok []
unfolding replay_loop
replay_loop_short file offset zero short h = absurd (omega arith)
replay_loop_short file offset (suc fuel) short h =
    rw (lt→ltb (length file - offset) 32 (omega arith))

Settled-stops :
    (file : List ℕ) (offset last : ℕ)
    → offset ≤ length file
    → scan_step file offset ≡ ok none
    → Settled file offset last
Settled-stops file offset last inside e =
    let cut : length (take offset file) < offset + 32 =
      omega (arith, length-cut file offset offset inside) in
    record {
      end = offset;
      lsn = last;
      entries = [];
      after = omega arith;
      within = inside;
      scans = λ fuel h. scan_loop-none file offset last fuel e (omega arith);
      rescans = λ fuel h.
          scan_loop-none (take offset file) offset last fuel
            (scan_step_short (take offset file) offset cut) (omega arith);
      replays = λ fuel h. replay_loop_short (take offset file) offset fuel cut (omega arith);
    }

abbrev entry_at : List ℕ → ℕ → LogEntry
entry_at file offset =
    let header = header_at file offset in
    let payload = take (payload_len header) (drop (offset + 32) file) in
    record {
      type = header.type;
      key = key_span header payload;
      value = value_span header payload;
      lsn = header.lsn;
    }

module _ (file : List ℕ) (offset last : ℕ) (room : offset + 32 ≤ length file)
    (fits : end_at file offset ≤ length file)
    (step : scan_step file offset
      ≡ ok (some (end_at file offset, (header_at file offset).lsn))) where
  scan_loop_takes :
      (bytes : List ℕ) (at bound : ℕ) (result : ℕ × ℕ)
      → scan_step bytes offset ≡ ok (some (end_at file offset, (header_at file offset).lsn))
      → ((fuel : ℕ)
          → bound - end_at file offset < fuel
          → scan_loop fuel bytes (end_at file offset) (header_at file offset).lsn ≡ ok result)
      → end_at file offset ≤ bound
      → (fuel : ℕ) → bound - offset < fuel
      → scan_loop fuel bytes offset last ≡ ok result
  unfolding scan_loop
  scan_loop_takes bytes at bound result e rest le zero h = absurd (omega arith)
  scan_loop_takes bytes at bound result e rest le (suc fuel) h = rw e (rest fuel (omega arith))

  replay_loop_takes :
      (end : ℕ) (entries : List LogEntry)
      → end_at file offset ≤ end
      → end ≤ length file
      → ((fuel : ℕ)
          → end - end_at file offset < fuel
          → replay_loop fuel (take end file) (end_at file offset) ≡ ok entries)
      → (fuel : ℕ) → end - offset < fuel
      → replay_loop fuel (take end file) offset ≡ ok (entry_at file offset ∷ entries)
  unfolding replay_loop
  replay_loop_takes end entries le inside rest zero h = absurd (omega arith)
  replay_loop_takes end entries le inside rest (suc fuel) h = rw (
    le→ltb_false (length (take end file) - offset) 32
        (omega (arith, length-cut file end offset inside)),
    pread_exact-take file end offset inside 32 offset (omega arith),
    pread_exact-within file 32 offset room,
    pread_exact-take file end offset inside (payload_len (header_at file offset)) (offset + 32)
        (omega arith),
    pread_exact-within file (payload_len (header_at file offset)) (offset + 32) (omega arith),
    rest fuel (omega arith),
  )

  Settled-takes :
      Settled file (end_at file offset) (header_at file offset).lsn → Settled file offset last
  Settled-takes rest = record {
    end = rest.end;
    lsn = rest.lsn;
    entries = entry_at file offset ∷ rest.entries;
    after = omega (arith, rest.after);
    within = rest.within;
    scans = scan_loop_takes file 0 (length file) (rest.end, rest.lsn) step rest.scans fits;
    rescans =
        scan_loop_takes (take rest.end file) 0 rest.end (rest.end, rest.lsn)
          (scan_step-take file rest.end offset rest.within rest.after ∙ step) rest.rescans
          rest.after;
    replays = replay_loop_takes rest.end rest.entries rest.after rest.within rest.replays;
  }

settle :
    (k : ℕ) (file : List ℕ) (offset last : ℕ)
    → offset ≤ length file
    → length file - offset < k
    → Settled file offset last
settle zero file offset last inside h = absurd (omega arith)
settle (suc k) file offset last inside h = elim (round file offset) [
  | stops e ↦ Settled-stops file offset last inside e
  | takes room fits e ↦
      Settled-takes file offset last room fits (scan_step-header file offset room ∙ e)
        (settle k file (end_at file offset) (header_at file offset).lsn fits (omega arith))
]

-- What opening a segment makes of its bytes.
pub record Opened (file : List ℕ) : Type 0 where
  pub lsn : ℕ
  pub kept : List ℕ
  pub entries : List LogEntry
  pub is_prefix : kept ≡ take (length kept) file
  pub as_active : scan_and_validate file true ≡ ok (lsn, kept)
  pub as_retired :
      scan_and_validate file false
      ≡ (if ltb (length kept) (length file) then err corrupt_tail else ok (lsn, file))
  pub again : scan_and_validate kept false ≡ ok (lsn, kept)
  pub replayed : replay_segment kept ≡ ok entries

close_scan-active :
    (file : List ℕ) (end lsn : ℕ)
    → end ≤ length file
    → close_scan file true end lsn ≡ ok (lsn, take end file)
unfolding close_scan
close_scan-active file end lsn h = elim (Bool-cases (ltb end (length file))) [
  | inl cut ↦ rw cut
  | inr whole ↦ rw whole (ap (λ bytes. ok (lsn, bytes)) (sym (take_all end file (omega tests))))
]

close_scan-retired :
    (file : List ℕ) (end lsn : ℕ)
    → close_scan file false end lsn
      ≡ (if ltb end (length file) then err corrupt_tail else ok (lsn, file))
unfolding close_scan
close_scan-retired file end lsn = refl

-- Whatever bytes a segment holds, opening it as the active one succeeds and keeps a prefix of
-- them; opening it as a retired one fails exactly when that prefix is shorter than the file, with
-- the error for a corrupt tail; the prefix itself opens as a retired segment with the same LSN and
-- is left as it is; and replaying the prefix does not throw.
pub reopen : (file : List ℕ) → Opened file
unfolding scan_and_validate replay_segment
reopen file =
    let s = settle (suc (length file)) file 0 0 (omega arith) (omega arith) in
    let kept = take s.end file in
    let sized = length-cut file s.end 0 s.within in
    let finish : List ℕ → Bool → Outcome WalError (ℕ × ℕ) → Outcome WalError (ℕ × List ℕ) =
      λ bytes allow found. found >>= λ at_end. close_scan bytes allow at_end.0 at_end.1 in
    record {
      lsn = s.lsn;
      kept = kept;
      entries = s.entries;
      is_prefix = ap (λ n. take n file) (sym sized);
      as_active =
          ap (finish file true) (s.scans (suc (length file)) (omega arith))
          ∙ close_scan-active file s.end s.lsn s.within;
      as_retired =
          ap (finish file false) (s.scans (suc (length file)) (omega arith))
          ∙ close_scan-retired file s.end s.lsn
          ∙ ap (λ n. if ltb n (length file) then err corrupt_tail else ok (s.lsn, file))
              (sym sized);
      again =
          ap (finish kept false) (s.rescans (suc (length kept)) (omega (arith, sized)))
          ∙ close_scan-retired kept s.end s.lsn
          ∙ rw (le→ltb_false s.end (length kept) (omega (arith, sized)));
      replayed = s.replays (suc (length kept)) (omega (arith, sized));
    }
