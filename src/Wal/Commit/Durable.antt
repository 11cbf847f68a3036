-- ===== src/Wal/Commit/Durable.antt =====
-- The invariant of the log: the active segment, read or as it was last synced, holds exactly the records
-- that were acknowledged, and what was written since the sync only records that have failed.
use mathlib.Core.List.{Memᴰ}
use vmem_kv.Prelude.{
  ℕ, ◌+◌, ◌%◌, ◌≡◌, inl, inr, refl, sym, ap, ◌∙◌, true, false, Option, none, some, List, [], ◌∷◌,
  ◌++◌, map, take, All, ◌==◌, Bool-cases, if_true, if_false, if◌then◌else◌, ok, append_assoc,
  append-nil, map-append,
}
use vmem_kv.Wal.Log.Turned.{map-All, Memᴰ-append_left}
use vmem_kv.Wal.Segment.Steps.{LogRecord, IsFitting, encode}
use vmem_kv.Wal.Segment.Recovery.{encode_log}
use vmem_kv.Wal.Commit.{
  PendingRecord, Settled, Wal, store_ring, collect_batch, BatchIo, buffers, clear_slots, settle,
  settle_batch, write_and_fsync_batch, fail_record,
}
use vmem_kv.Wal.Commit.Batch.{
  whole_batch, cut_batch, Collected, collect_batch-Collected, write_and_fsync_batch-cases,
}

Memᴰ-append_right : (s : Settled) (xs ys : List Settled) → Memᴰ s ys → Memᴰ s (xs ++ ys)
Memᴰ-append_right s [] ys m = m
Memᴰ-append_right s (x ∷ xs) ys m = Memᴰ.tail (Memᴰ-append_right s xs ys m)

-- A pending record carries the bytes of a record that fits, with its LSN.
pub record Carries (rec : PendingRecord) : Type 0 where
  pub content : LogRecord
  pub fits : IsFitting content
  pub bytes : rec.buffer ≡ encode content
  pub numbered : rec.lsn ≡ content.lsn

-- The LSNs that were settled without an error, in order.
unfoldable pub acknowledged : List Settled → List ℕ
acknowledged [] = []
acknowledged (s ∷ settled) =
    let rest = acknowledged settled in if s.failed then rest else s.lsn ∷ rest

abbrev lsns : List LogRecord → List ℕ
lsns = map (λ r. r.lsn)

-- The answer that a failed record gets.
abbrev pub refusal : LogRecord → Settled
refusal r = record { lsn = r.lsn; failed = true }

-- A state of the file since the last sync: the log, and behind it the beginning of some records, all
-- of which have failed.
pub record Version (log : List ℕ) (settled : List Settled) (version : List ℕ) : Type 0 where
  pub records : List LogRecord
  pub cut : ℕ
  pub shape : version ≡ log ++ take cut (encode_log records)
  pub fitting : All IsFitting records
  pub failed : All (λ r. Memᴰ (refusal r) settled) records

-- The file is the log of the records it was opened with and of those acknowledged since, and so is
-- what has been synced of it.
pub record Inv (base : List LogRecord) (w : Wal) : Type 0 where
  pub acked : List LogRecord
  pub durable : w.file ≡ encode_log (base ++ acked)
  pub synced : w.disk ≡ encode_log (base ++ acked)
  pub versions : All (Version (encode_log (base ++ acked)) w.settled) w.versions
  pub named : lsns acked ≡ acknowledged w.settled
  pub fitting : All IsFitting acked
  pub slots : (slot : ℕ) (rec : PendingRecord) → w.ring slot ≡ some rec → Carries rec
  pub waiting : All Carries w.unpublished

acknowledged-append :
    (xs ys : List Settled) → acknowledged (xs ++ ys) ≡ acknowledged xs ++ acknowledged ys
unfolding acknowledged
acknowledged-append [] ys = refl
acknowledged-append (x ∷ xs) ys = elim (Bool-cases x.failed) [
  | inl e ↦ rw e (acknowledged-append xs ys)
  | inr e ↦ rw e (ap (λ r. x.lsn ∷ r) (acknowledged-append xs ys))
]

acknowledged-failed : (batch : List PendingRecord) → acknowledged (settle true batch) ≡ []
unfolding acknowledged settle
acknowledged-failed [] = refl
acknowledged-failed (rec ∷ recs) = acknowledged-failed recs

pub encode_log-append :
    (xs ys : List LogRecord) → encode_log (xs ++ ys) ≡ encode_log xs ++ encode_log ys
encode_log-append [] ys = refl
encode_log-append (x ∷ xs) ys =
    ap (λ bytes. encode x ++ bytes) (encode_log-append xs ys)
    ∙ sym (append_assoc (encode x) (encode_log xs) (encode_log ys))

pub All-append :
    (xs ys : List LogRecord) → All IsFitting xs → All IsFitting ys → All IsFitting (xs ++ ys)
All-append [] ys h k = k
All-append (x ∷ xs) ys h k = (h.0, All-append xs ys h.1 k)

-- A record that was published and is not settled.
abbrev pub InRing : (ℕ → Option PendingRecord) → LogRecord → Type 0
InRing ring r = (slot : ℕ) × (rec : PendingRecord) × (ring slot ≡ some rec) × (rec.lsn ≡ r.lsn)

-- The records of a batch.
pub record Contents (ring : ℕ → Option PendingRecord) (batch : List PendingRecord) : Type 0 where
  pub records : List LogRecord
  pub written : buffers batch ≡ encode_log records
  pub named : lsns records ≡ acknowledged (settle false batch)
  pub fitting : All IsFitting records
  pub failed : All (λ r. Memᴰ (refusal r) (settle true batch)) records
  pub ringed : All (InRing ring) records

pub contents :
    (capacity start : ℕ) (ring : ℕ → Option PendingRecord) (batch : List PendingRecord)
    → ((slot : ℕ) (rec : PendingRecord) → ring slot ≡ some rec → Carries rec)
    → Collected capacity ring start batch
    → Contents ring batch
unfolding buffers acknowledged settle
contents capacity start ring [] h c = record {
  records = [];
  written = refl;
  named = refl;
  fitting = tt;
  failed = tt;
  ringed = tt;
}
contents capacity start ring (rec ∷ recs) h c =
    let one = h (start % capacity) rec c.0 in
    let rest = contents capacity (start + 1) ring recs h c.2 in
    record {
      records = one.content ∷ rest.records;
      written = λ i. one.bytes i ++ rest.written i;
      named = λ i. sym one.numbered i ∷ rest.named i;
      fitting = (one.fits, rest.fitting);
      failed = (
        Memᴰ.head (λ i. record { lsn = sym one.numbered i; failed = true }),
        map-All (λ r m. Memᴰ.tail m) rest.records rest.failed,
      );
      ringed = ((start % capacity, rec, c.0, one.numbered), rest.ringed);
    }

-- Emptying slots leaves fewer records in the ring.
store_ring-none :
    (at slot : ℕ) (ring : ℕ → Option PendingRecord) (rec : PendingRecord)
    → store_ring at none ring slot ≡ some rec
    → ring slot ≡ some rec
unfolding store_ring
store_ring-none at slot ring rec e = elim (Bool-cases (slot == at)) [
  | inl h ↦ absurd (cc (if_true (slot == at) _ _ h e))
  | inr h ↦ if_false (slot == at) _ _ h e
]

clear_slots-some :
    (capacity : ℕ) (batch : List PendingRecord) (ring : ℕ → Option PendingRecord) (slot : ℕ)
    (rec : PendingRecord)
    → clear_slots capacity batch ring slot ≡ some rec
    → ring slot ≡ some rec
unfolding clear_slots
clear_slots-some capacity [] ring slot rec e = e
clear_slots-some capacity (b ∷ batch) ring slot rec e =
    store_ring-none (b.lsn % capacity) slot ring rec
      (clear_slots-some capacity batch (store_ring (b.lsn % capacity) none ring) slot rec e)

Version-more :
    (log : List ℕ) (settled more : List Settled) (version : List ℕ)
    → Version log settled version
    → Version log (settled ++ more) version
Version-more log settled more version v = record {
  records = v.records;
  cut = v.cut;
  shape = v.shape;
  fitting = v.fitting;
  failed = map-All (λ r m. Memᴰ-append_left (refusal r) settled more m) v.records v.failed;
}

versions-more :
    (log : List ℕ) (settled more : List Settled) (versions : List (List ℕ))
    → All (Version log settled) versions
    → All (Version log (settled ++ more)) versions
versions-more log settled more versions all = map-All (Version-more log settled more) versions all

-- The steps keep the invariant.
module _ (capacity : ℕ) (base : List LogRecord) (w : Wal) (inv : Inv base w) where
  acknowledged-Inv :
      (batch : List PendingRecord) (more : List LogRecord)
      → w.file ++ buffers batch ≡ encode_log (base ++ (inv.acked ++ more))
      → lsns more ≡ acknowledged (settle false batch)
      → All IsFitting more
      → Inv base (settle_batch capacity false (whole_batch batch w) batch w)
  unfolding settle_batch
  acknowledged-Inv batch more written named fitting = record {
    acked = inv.acked ++ more;
    durable = written;
    synced = written;
    versions = tt;
    named =
        map-append (λ r. r.lsn) inv.acked more
        ∙ (λ i. inv.named i ++ named i)
        ∙ sym (acknowledged-append w.settled (settle false batch));
    fitting = All-append inv.acked more inv.fitting fitting;
    slots = λ slot rec e. inv.slots slot rec (clear_slots-some capacity batch w.ring slot rec e);
    waiting = inv.waiting;
  }

  failed-Inv :
      (k : ℕ) (batch : List PendingRecord)
      → Contents w.ring batch
      → Inv base (settle_batch capacity true (cut_batch k batch w) batch w)
  unfolding settle_batch
  failed-Inv k batch c = record {
    acked = inv.acked;
    durable = inv.durable;
    synced = inv.synced;
    versions = (
      record {
        records = [];
        cut = 0;
        shape = inv.durable ∙ sym (append-nil (encode_log (base ++ inv.acked)));
        fitting = tt;
        failed = tt;
      },
      (
        record {
          records = c.records;
          cut = k;
          shape = λ i. inv.durable i ++ take k (c.written i);
          fitting = c.fitting;
          failed =
              map-All (λ r m. Memᴰ-append_right (refusal r) w.settled (settle true batch) m)
                c.records c.failed;
        },
        versions-more (encode_log (base ++ inv.acked)) w.settled (settle true batch) w.versions
            inv.versions,
      ),
    );
    named =
        inv.named
        ∙ sym (
            acknowledged-append w.settled (settle true batch)
            ∙ ap (λ xs. acknowledged w.settled ++ xs) (acknowledged-failed batch)
            ∙ append-nil (acknowledged w.settled));
    fitting = inv.fitting;
    slots = λ slot rec e. inv.slots slot rec (clear_slots-some capacity batch w.ring slot rec e);
    waiting = inv.waiting;
  }

  pub flush-Inv :
      (target : ℕ) (io : BatchIo) (batch : List PendingRecord)
      → io.fstat_ok ≡ true
      → io.ftruncate_ok ≡ true
      → collect_batch capacity target w ≡ ok batch
      → Inv base (write_and_fsync_batch capacity io batch w)
  flush-Inv target io batch stat trunc found =
      let collected = collect_batch-Collected capacity target w batch found in
      let c = contents capacity w.next_to_flush w.ring batch inv.slots collected in
      elim (write_and_fsync_batch-cases capacity io batch w stat trunc) [
        | inl e ↦ rw e (
            acknowledged-Inv batch c.records
              ((λ i. inv.durable i ++ c.written i)
                ∙ sym (encode_log-append (base ++ inv.acked) c.records)
                ∙ ap encode_log (append_assoc base inv.acked c.records))
              c.named c.fitting)
        | inr (k, e) ↦ rw e (failed-Inv k batch c)
      ]

  pub fail_record-Inv : (rec : PendingRecord) → Inv base (fail_record capacity rec w)
  unfolding fail_record acknowledged
  fail_record-Inv rec = record {
    acked = inv.acked;
    durable = inv.durable;
    synced = inv.synced;
    versions =
        versions-more (encode_log (base ++ inv.acked)) w.settled
          (record { lsn = rec.lsn; failed = true } ∷ []) w.versions inv.versions;
    named =
        inv.named
        ∙ sym (
            acknowledged-append w.settled (record { lsn = rec.lsn; failed = true } ∷ [])
            ∙ append-nil (acknowledged w.settled));
    fitting = inv.fitting;
    slots =
        λ slot r e. inv.slots slot r (store_ring-none (w.next_to_flush % capacity) slot w.ring r e);
    waiting = inv.waiting;
  }
