-- ===== src/Wal/Commit/Trace.antt =====
-- Every interleaving of producers and leaders keeps the invariant of the log.
use vmem_kv.Prelude.{
  ℕ, zero, suc, ◌+◌, ◌-◌, ◌%◌, ◌^◌, ◌<◌, ◌≡◌, inl, inr, refl, sym, ap, ◌∙◌, Bool, true, Option,
  none, some, List, [], ◌∷◌, ◌++◌, length, All, ◌==◌, Bool-cases, Option-cases, if_true, if_false,
  ok, err, ◌>>=◌, Outcome, append-nil,
}
use vmem_kv.Wal.Format.{WalRecordType, serialize_record}
use vmem_kv.Wal.Segment.Steps.{LogRecord}
use vmem_kv.Wal.Segment.Recovery.{encode_log}
use vmem_kv.Wal.Commit.{
  PendingRecord, Wal, CommitError, reserve_record, store_ring, fail_record, sweep_slot, fail_loop,
  fail_all_pending,
}
use vmem_kv.Wal.Commit.Steps.{
  publish_record, Step, reserve, publish, flush, fail, opened, Reach, here, next,
}
use vmem_kv.Wal.Commit.Durable.{Carries, Inv, acknowledged, flush-Inv, fail_record-Inv}

module _ (capacity rounds : ℕ) (w : Wal) where
  fail_loop-none :
      w.ring (w.next_to_flush % capacity) ≡ none
      → fail_loop capacity (suc rounds) w ≡ err CommitError.waits
  unfolding fail_loop sweep_slot
  fail_loop-none e = rw e refl

  fail_loop-some :
      (rec : PendingRecord)
      → w.ring (w.next_to_flush % capacity) ≡ some rec
      → fail_loop capacity (suc rounds) w ≡ fail_loop capacity rounds (fail_record capacity rec w)
  unfolding fail_loop sweep_slot
  fail_loop-some rec e = rw e refl

fail_loop-Inv :
    (capacity : ℕ) (base : List LogRecord) (rounds : ℕ) (w u : Wal)
    → Inv base w
    → fail_loop capacity rounds w ≡ ok u
    → Inv base u
unfolding fail_loop
fail_loop-Inv capacity base zero w u inv e = let same : w ≡ u = cc in rw (← same) inv
fail_loop-Inv capacity base (suc rounds) w u inv e =
    elim (Option-cases (w.ring (w.next_to_flush % capacity))) [
      | inl gone ↦ absurd (cc (sym (fail_loop-none capacity rounds w gone) ∙ e))
      | inr (rec, there) ↦
          fail_loop-Inv capacity base rounds (fail_record capacity rec w) u
            (fail_record-Inv capacity base w inv rec)
            (sym (fail_loop-some capacity rounds w rec there) ∙ e)
    ]

-- The same but for fields that the invariant does not read.
poison-Inv :
    (base : List LogRecord) (w : Wal) (poisoned : Bool) (highest : ℕ)
    → Inv base w
    → Inv base (record w { poisoned = poisoned; highest_settled_lsn = highest })
poison-Inv base w poisoned highest inv = record {
  acked = inv.acked;
  durable = inv.durable;
  synced = inv.synced;
  versions = inv.versions;
  named = inv.named;
  fitting = inv.fitting;
  slots = inv.slots;
  waiting = inv.waiting;
}

ok-map :
    (m : Outcome CommitError Wal) (f : Wal → Wal) (u : Wal)
    → (m >>= λ w. ok (f w)) ≡ ok u
    → (w : Wal) × (m ≡ ok w) × (f w ≡ u)
ok-map (ok w) f u e = (w, refl, cc)
ok-map (err x) f u e = cc

fail_all_pending-Inv :
    (capacity : ℕ) (base : List LogRecord) (w u : Wal)
    → Inv base w
    → fail_all_pending capacity w ≡ ok u
    → Inv base u
unfolding fail_all_pending
fail_all_pending-Inv capacity base w u inv e =
    let (swept, found, last) =
      ok-map (fail_loop capacity (w.next_lsn - w.next_to_flush) (record w { poisoned = true }))
        (λ s. record s { highest_settled_lsn = s.next_to_flush - 1 }) u e in
    rw (← last) (
      poison-Inv base swept swept.poisoned (swept.next_to_flush - 1) (
        fail_loop-Inv capacity base (w.next_lsn - w.next_to_flush) (record w { poisoned = true })
          swept (poison-Inv base w true w.highest_settled_lsn inv) found))

second :
    {p q : PendingRecord} {w u : Wal}
    → Path (Outcome CommitError (PendingRecord × Wal)) (ok (p, w)) (ok (q, u))
    → w ≡ u
second e = cc

All-out :
    (pre : List PendingRecord) (rec : PendingRecord) (post : List PendingRecord)
    → All Carries (pre ++ (rec ∷ post))
    → Carries rec × All Carries (pre ++ post)
All-out [] rec post h = h
All-out (p ∷ pre) rec post h = let (one, rest) = All-out pre rec post h.1 in (one, (h.0, rest))

store_ring-Carries :
    (at slot : ℕ) (rec : PendingRecord) (ring : ℕ → Option PendingRecord)
    → Carries rec
    → ((slot : ℕ) (r : PendingRecord) → ring slot ≡ some r → Carries r)
    → (r : PendingRecord) → store_ring at (some rec) ring slot ≡ some r
    → Carries r
unfolding store_ring
store_ring-Carries at slot rec ring one old r e = elim (Bool-cases (slot == at)) [
  | inl h ↦ let same : rec ≡ r = cc (if_true (slot == at) _ _ h e) in rw (← same) one
  | inr h ↦ old slot r (if_false (slot == at) _ _ h e)
]

module _ (base : List LogRecord) (w : Wal) (inv : Inv base w) where
  reserve_record-Inv :
      (type : WalRecordType) (key value : List ℕ) (rec : PendingRecord) (u : Wal)
      → length key < 2 ^ 32
      → length value < 2 ^ 32
      → w.next_lsn < 2 ^ 64
      → reserve_record type key value w ≡ ok (rec, u)
      → Inv base u
  unfolding reserve_record
  reserve_record-Inv type key value rec u k v n e = elim (Bool-cases w.poisoned) [
    | inl p ↦ absurd (cc (if_true w.poisoned _ _ p e))
    | inr p ↦
        let made : PendingRecord = record {
          lsn = w.next_lsn;
          buffer = serialize_record type key value w.next_lsn;
        } in
        let whole : record w { next_lsn = w.next_lsn + 1; unpublished = made ∷ w.unpublished } ≡ u =
          second (if_false w.poisoned _ _ p e) in
        let carried : Carries made = record {
          content = record { type = type; key = key; value = value; lsn = w.next_lsn };
          fits = record { key_fits = k; value_fits = v; lsn_fits = n };
          bytes = refl;
          numbered = refl;
        } in
        rw (← whole) (record {
          acked = inv.acked;
          durable = inv.durable;
          synced = inv.synced;
          versions = inv.versions;
          named = inv.named;
          fitting = inv.fitting;
          slots = inv.slots;
          waiting = (carried, inv.waiting);
        })
  ]

  publish_record-Inv :
      (capacity : ℕ) (pre : List PendingRecord) (rec : PendingRecord) (post : List PendingRecord)
      → w.unpublished ≡ pre ++ (rec ∷ post)
      → Inv base (publish_record capacity rec (pre ++ post) w)
  unfolding publish_record
  publish_record-Inv capacity pre rec post e =
      let all : All Carries (pre ++ (rec ∷ post)) = rw (← e) inv.waiting in
      let (one, rest) = All-out pre rec post all in
      record {
        acked = inv.acked;
        durable = inv.durable;
        synced = inv.synced;
        versions = inv.versions;
        named = inv.named;
        fitting = inv.fitting;
        slots =
            λ slot r at. store_ring-Carries (rec.lsn % capacity) slot rec w.ring one inv.slots r at;
        waiting = rest;
      }

Step-Inv :
    (capacity : ℕ) (base : List LogRecord) (w u : Wal) → Step capacity w u → Inv base w → Inv base u
Step-Inv capacity base w u (reserve type key value rec k v n e) inv =
    reserve_record-Inv base w inv type key value rec u k v n e
Step-Inv capacity base w u (publish pre rec post e empty same) inv =
    rw same (publish_record-Inv base w inv capacity pre rec post e)
Step-Inv capacity base w u (flush target io batch stat trunc found same) inv =
    rw same (flush-Inv capacity base w inv target io batch stat trunc found)
Step-Inv capacity base w u (fail e) inv = fail_all_pending-Inv capacity base w u inv e

opened-Inv : (base : List LogRecord) (first : ℕ) → Inv base (opened base first)
unfolding opened acknowledged
opened-Inv base first = record {
  acked = [];
  durable = ap encode_log (sym (append-nil base));
  synced = ap encode_log (sym (append-nil base));
  versions = tt;
  named = refl;
  fitting = tt;
  slots = λ slot rec e. cc;
  waiting = tt;
}

pub Reach-Inv :
    (capacity : ℕ) (base : List LogRecord) (first : ℕ) (w : Wal)
    → Reach capacity (opened base first) w
    → Inv base w
Reach-Inv capacity base first w here = opened-Inv base first
Reach-Inv capacity base first w (next {w = v} r st) =
    Step-Inv capacity base v w st (Reach-Inv capacity base first v r)
