-- ===== src/Wal/Log/Covered.antt =====
-- Every step of writers and cycles keeps the records that the manifest does not cover.
use vmem_kv.Prelude.{
  ℕ, ◌+◌, ◌-◌, ◌≤◌, ◌<◌, ◌≡◌, ◌⊎◌, inl, inr, Bool, true, false, if◌then◌else◌, Outcome, ok, err, [],
  ◌∷◌, All, arith,
}
use vmem_kv.Wal.Segment.Steps.{LogRecord}
use vmem_kv.Wal.Log.{Log, rotate, rotate_segment, RotateError}
use vmem_kv.Wal.Log.Retention.{
  Records, Phase, idle, captured, committed, Checkpointed, write_to, Step, reserve, write, capture,
  commit, abort, turn, Reach, here, next, Held, in_active, in_retired, Older, Bounded, Inv,
}
use vmem_kv.Wal.Log.Turned.{
  All-lookup, map-All, All-append, Memᴰ-append_left, Memᴰ-last, Older-weaken, All-rotate,
  Memᴰ-rotate_active, Memᴰ-rotate,
}

Bounded-more :
    (phase : Phase) (bound lsn manifest : ℕ)
    → Bounded phase bound lsn manifest
    → Bounded phase bound (lsn + 1) manifest
Bounded-more idle bound lsn manifest h = (omega (arith, h.0), omega (arith, h.1))
Bounded-more (captured c) bound lsn manifest h = (h.0, omega (arith, h.1), h.2)
Bounded-more committed bound lsn manifest h = (h.0, omega (arith, h.1))

Bounded-at :
    (p q : Phase) (bound lsn manifest : ℕ)
    → p ≡ q
    → Bounded p bound lsn manifest
    → Bounded q bound lsn manifest
Bounded-at p q bound lsn manifest e h = rw (← e) h

module _ (s : Checkpointed) (inv : Inv s) where
  reserve-Inv : Inv (record s { log = record s.log { next_lsn = s.log.next_lsn + 1 } })
  reserve-Inv = record {
    bound = inv.bound;
    started = omega arith;
    retired = inv.retired;
    active = Older-weaken s.log.next_lsn (s.log.next_lsn + 1) s.log.active (omega arith) inv.active;
    staged = Bounded-more s.phase inv.bound s.log.next_lsn s.manifest inv.staged;
    kept = map-All more s.written inv.kept;
  }
    where
      more :
          (r : LogRecord)
          → (r.lsn ≤ s.manifest) ⊎ Held r s.log
          → (r.lsn ≤ s.manifest) ⊎ Held r (record s.log { next_lsn = s.log.next_lsn + 1 })
      more r (inl h) = inl h
      more r (inr (in_active m)) = inr (in_active m)
      more r (inr (in_retired seg m k)) = inr (in_retired seg m k)

  write-Inv :
      (r : LogRecord)
      → r.lsn < s.log.next_lsn
      → Inv (record s { log = write_to r s.log; written = r ∷ s.written })
  write-Inv r h = record {
    bound = inv.bound;
    started = inv.started;
    retired = inv.retired;
    active =
        All-append (λ q. q.lsn < s.log.next_lsn) s.log.active.content (r ∷ []) inv.active (h, tt);
    staged = inv.staged;
    kept = (inr (in_active (Memᴰ-last r s.log.active.content)), map-All more s.written inv.kept);
  }
    where
      more :
          (q : LogRecord)
          → (q.lsn ≤ s.manifest) ⊎ Held q s.log
          → (q.lsn ≤ s.manifest) ⊎ Held q (write_to r s.log)
      more q (inl h) = inl h
      more q (inr (in_active m)) =
          inr (in_active (Memᴰ-append_left q s.log.active.content (r ∷ []) m))
      more q (inr (in_retired seg m k)) = inr (in_retired seg m k)

  capture-Inv : s.phase ≡ idle → Inv (record s { phase = captured (s.log.next_lsn - 1) })
  capture-Inv e = record {
    bound = inv.bound;
    started = inv.started;
    retired = inv.retired;
    active = inv.active;
    staged =
        let low = Bounded-at s.phase idle inv.bound s.log.next_lsn s.manifest e inv.staged in
        (omega (arith, low.0, inv.started), omega (arith, inv.started), omega (arith, low.1));
    kept = inv.kept;
  }

  commit-Inv :
      (lsn : ℕ) → s.phase ≡ captured lsn → Inv (record s { manifest = lsn; phase = committed })
  commit-Inv lsn e =
      let staged =
        Bounded-at s.phase (captured lsn) inv.bound s.log.next_lsn s.manifest e inv.staged in
      record {
        bound = inv.bound;
        started = inv.started;
        retired = inv.retired;
        active = inv.active;
        staged = (staged.0, staged.1);
        kept = map-All (covered staged.2) s.written inv.kept;
      }
    where
      covered :
          s.manifest ≤ lsn
          → (r : LogRecord) → (r.lsn ≤ s.manifest) ⊎ Held r s.log
          → (r.lsn ≤ lsn) ⊎ Held r s.log
      covered up r (inl h) = inl (omega arith)
      covered up r (inr k) = inr k

  rotate-Inv : s.phase ≡ committed → Inv (record s { phase = idle; log = rotate [] s.log })
  unfolding rotate
  rotate-Inv e =
      let staged = Bounded-at s.phase committed inv.bound s.log.next_lsn s.manifest e inv.staged in
      record {
        bound = s.log.next_lsn;
        started = inv.started;
        retired = All-rotate s.log (Older s.log.next_lsn) (
            All-append (Older s.log.next_lsn) s.log.retired (s.log.active ∷ [])
              (map-All
                (λ seg old. Older-weaken inv.bound s.log.next_lsn seg (omega (arith, staged)) old)
                s.log.retired inv.retired)
              (inv.active, tt));
        active = tt;
        staged = (omega arith, staged.1);
        kept = map-All (moved staged.0) s.written inv.kept;
      }
    where
      moved :
          inv.bound ≤ s.manifest + 1
          → (r : LogRecord) → (r.lsn ≤ s.manifest) ⊎ Held r s.log
          → (r.lsn ≤ s.manifest) ⊎ Held r (rotate [] s.log)
      moved low r (inl h) = inl h
      moved low r (inr (in_active m)) = inr (in_retired s.log.active (Memᴰ-rotate_active s.log) m)
      moved low r (inr (in_retired seg m k)) = elim (Memᴰ-rotate s.log seg m) [
        | inl gone ↦
            let old = All-lookup (Older inv.bound) seg s.log.retired inv.retired m in
            let below = All-lookup (λ q. q.lsn < inv.bound) r seg.content old k in
            inl (omega (arith, below, low))
        | inr stays ↦ inr (in_retired seg stays k)
      ]

  -- A cycle that ends with the segments as they are.
  ended-Inv :
      (poisoned : Bool)
      → Bounded idle inv.bound s.log.next_lsn s.manifest
      → Inv (record s { phase = idle; log = record s.log { poisoned = poisoned } })
  ended-Inv poisoned staged = record {
    bound = inv.bound;
    started = inv.started;
    retired = inv.retired;
    active = inv.active;
    staged = staged;
    kept = map-All same s.written inv.kept;
  }
    where
      same :
          (r : LogRecord)
          → (r.lsn ≤ s.manifest) ⊎ Held r s.log
          → (r.lsn ≤ s.manifest) ⊎ Held r (record s.log { poisoned = poisoned })
      same r (inl h) = inl h
      same r (inr (in_active m)) = inr (in_active m)
      same r (inr (in_retired seg m k)) = inr (in_retired seg m k)

  abort-Inv : (lsn : ℕ) → s.phase ≡ captured lsn → Inv (record s { phase = idle })
  abort-Inv lsn e =
      let staged =
        Bounded-at s.phase (captured lsn) inv.bound s.log.next_lsn s.manifest e inv.staged in
      ended-Inv s.log.poisoned (omega (arith, staged), omega (arith, staged))

  turn-Inv :
      (created : Bool)
      → s.phase ≡ committed
      → Inv (record s { phase = idle; log = (rotate_segment created [] s.log).0 })
  unfolding rotate_segment
  turn-Inv created e =
      let staged = Bounded-at s.phase committed inv.bound s.log.next_lsn s.manifest e inv.staged in
      let ended : Bounded idle inv.bound s.log.next_lsn s.manifest =
        (omega (arith, staged), staged.1) in
      by_answer ended s.log.poisoned created
    where
      by_answer :
          Bounded idle inv.bound s.log.next_lsn s.manifest
          → (p c : Bool)
          → let after : Log Records × Outcome RotateError (Unit {0}) =
              if p
              then (s.log, err RotateError.poisoned_log)
              else if c
              then (rotate [] s.log, ok tt)
              else (record s.log { poisoned = true }, err RotateError.open_failed) in
            Inv (record s { phase = idle; log = after.0 })
      by_answer ended true c = ended-Inv s.log.poisoned ended
      by_answer ended false true = rotate-Inv e
      by_answer ended false false = ended-Inv true ended

Step-Inv : (s u : Checkpointed) → Step s u → Inv s → Inv u
Step-Inv s u (reserve e) inv = rw e (reserve-Inv s inv)
Step-Inv s u (write r h e) inv = rw e (write-Inv s inv r h)
Step-Inv s u (capture p e) inv = rw e (capture-Inv s inv p)
Step-Inv s u (commit lsn p e) inv = rw e (commit-Inv s inv lsn p)
Step-Inv s u (abort lsn p e) inv = rw e (abort-Inv s inv lsn p)
Step-Inv s u (turn created p e) inv = rw e (turn-Inv s inv created p)

Reach-Inv : (s u : Checkpointed) → Reach s u → Inv s → Inv u
Reach-Inv s u here inv = inv
Reach-Inv s u (next {t} r st) inv = Step-Inv t u st (Reach-Inv s t r inv)

-- A log that is open, with no cycle under way.
pub record IsStart (s : Checkpointed) : Type 0 where
  pub resting : s.phase ≡ idle
  pub started : s.manifest < s.log.next_lsn
  pub retired : All (Older s.log.next_lsn) s.log.retired
  pub active : Older s.log.next_lsn s.log.active
  pub written : All (λ r. Held r s.log) s.written

IsStart-Inv : (s : Checkpointed) → IsStart s → Inv s
IsStart-Inv s h = record {
  bound = s.log.next_lsn;
  started = omega (arith, h.started);
  retired = h.retired;
  active = h.active;
  staged = rw h.resting (omega arith, h.started);
  kept = map-All (λ r m. inr m) s.written h.written;
}

-- From an open log at rest, whose records are all in its segments, whose LSNs lie below next_lsn, and
-- whose manifest names an LSN below next_lsn: after any interleaving of reservations, writes and
-- checkpoint cycles, at every point of a cycle, each record that was written has at most the LSN of
-- the manifest, or is still in a segment.
pub Reach-covered :
    (s u : Checkpointed)
    → IsStart s
    → Reach s u
    → All (λ r. (r.lsn ≤ u.manifest) ⊎ Held r u.log) u.written
Reach-covered s u h r = (Reach-Inv s u r (IsStart-Inv s h)).kept
