-- ===== src/Wal/Log/Opening.antt =====
-- Opening a log of several segments, of which a crash has torn the last, and replaying it.
use vmem_kv.Prelude.{
  ℕ, suc, ◌+◌, ◌<◌, ◌≡◌, refl, sym, ap, ◌∙◌, true, false, List, [], ◌∷◌, ◌++◌, map, map-append,
  append-nil, length, take, All, ltb, le→ltb_false, if◌then◌else◌, none, ok, arith,
}
use vmem_kv.Wal.Segment.{scan_and_validate, close_scan, scan_loop, scan_step}
use vmem_kv.Wal.Segment.Steps.{LogRecord, IsFitting, encode, scan_step_short}
use vmem_kv.Wal.Segment.Recovery.{
  encode_log, last_lsn, entry_of, recover-torn, scan_loop-encode_log, replay_segment-encode_log,
  length-encode_log,
}
use vmem_kv.Wal.Log.{Segment, scan_segments, open_segments, replay_segments}

-- A segment as the bytes of its records.
abbrev pub encoded : Segment (List LogRecord) → Segment (List ℕ)
encoded s = record { generation = s.generation; content = encode_log s.content }

abbrev pub AreFitting : List (Segment (List LogRecord)) → Type 0
AreFitting = All (λ s. All IsFitting s.content)

-- The records of all segments.
unfoldable pub all_records : List (Segment (List LogRecord)) → List LogRecord
all_records [] = []
all_records (s ∷ ss) = s.content ++ all_records ss

-- The last LSN that is not 0, segment after segment.
unfoldable pub last_found : ℕ → List (Segment (List LogRecord)) → ℕ
last_found last [] = last
last_found last (s ∷ ss) =
    last_found (if ltb 0 (last_lsn 0 s.content) then last_lsn 0 s.content else last) ss

scan_nothing : (pre : List ℕ) → scan_step (pre ++ []) (length pre) ≡ ok none
scan_nothing pre =
    scan_step_short (pre ++ []) (length pre) (omega (arith, ap length (append-nil pre)))

-- An intact segment that must not be cut.
scan_and_validate-intact :
    (rs : List LogRecord)
    → All IsFitting rs
    → scan_and_validate (encode_log rs) false ≡ ok (last_lsn 0 rs, encode_log rs)
unfolding scan_and_validate close_scan
scan_and_validate-intact rs fits =
    let file = encode_log rs in
    let whole : file ++ [] ≡ file = append-nil file in
    let looped : scan_loop (suc (length file)) file 0 0 ≡ ok (length file, last_lsn 0 rs) =
      ap (λ bytes. scan_loop (suc (length file)) bytes 0 0) (sym whole)
      ∙ scan_loop-encode_log [] scan_nothing rs [] (suc (length file)) 0 fits
          (omega (arith, length-encode_log rs))
      ∙ ap (λ n. ok (n, last_lsn 0 rs)) (omega arith) in
    rw (looped, le→ltb_false (length file) (length file) (omega arith)) refl

abbrev keep : ℕ → ℕ → ℕ
keep last found = if ltb 0 found then found else last

scan_segments-encoded :
    (ss : List (Segment (List LogRecord))) (active : Segment (List ℕ)) (rs : List LogRecord)
    (last : ℕ)
    → AreFitting ss
    → scan_and_validate active.content true ≡ ok (last_lsn 0 rs, encode_log rs)
    → scan_segments last (map encoded ss) active
      ≡ ok (keep (last_found last ss) (last_lsn 0 rs), encode_log rs)
unfolding scan_segments last_found
scan_segments-encoded [] active rs last fits scanned = rw scanned refl
scan_segments-encoded (s ∷ ss) active rs last fits scanned =
    rw (scan_and_validate-intact s.content fits.0)
      (scan_segments-encoded ss active rs (keep last (last_lsn 0 s.content)) fits.1 scanned)

replay_segments-encoded :
    (ss : List (Segment (List LogRecord)))
    → AreFitting ss
    → replay_segments (map encoded ss) ≡ ok (map entry_of (all_records ss))
unfolding replay_segments all_records
replay_segments-encoded [] fits = refl
replay_segments-encoded (s ∷ ss) fits =
    rw
      (
        replay_segment-encode_log s.content fits.0,
        replay_segments-encoded ss fits.1,
        map-append entry_of s.content (all_records ss),
      )
      refl

last_found-append :
    (ss : List (Segment (List LogRecord))) (s : Segment (List LogRecord)) (last : ℕ)
    → last_found last (ss ++ (s ∷ [])) ≡ keep (last_found last ss) (last_lsn 0 s.content)
unfolding last_found
last_found-append [] s last = refl
last_found-append (x ∷ ss) s last = last_found-append ss s (keep last (last_lsn 0 x.content))

AreFitting-append :
    (ss : List (Segment (List LogRecord))) (s : Segment (List LogRecord))
    → AreFitting ss
    → All IsFitting s.content
    → AreFitting (ss ++ (s ∷ []))
AreFitting-append [] s h k = (k, tt)
AreFitting-append (x ∷ ss) s h k = (h.0, AreFitting-append ss s h.1 k)

-- Intact retired segments, and an active one that a crash has torn within the record r: opening
-- succeeds, the active segment is left with its whole records, the next LSN follows the last LSN
-- found, and the replay gives the records of all segments, in order. The conditions: the records fit
-- their headers.
pub open_segments-torn :
    (retired : List (Segment (List LogRecord))) (active : Segment (List LogRecord)) (r : LogRecord)
    (n : ℕ)
    → AreFitting retired
    → All IsFitting active.content
    → IsFitting r
    → n < length (encode r)
    → (open_segments (map encoded retired) (record {
      generation = active.generation;
      content = encode_log active.content ++ take n (encode r);
    })
        ≡ ok (record {
          retired = map encoded retired;
          active = encoded active;
          next_lsn = last_found 0 (retired ++ (active ∷ [])) + 1;
          poisoned = false;
        }))
      × (replay_segments (map encoded (retired ++ (active ∷ [])))
          ≡ ok (map entry_of (all_records (retired ++ (active ∷ [])))))
unfolding open_segments
open_segments-torn retired active r n old fits fit cut =
    let torn = recover-torn active.content r n fits fit cut in
    (
      rw
          (
            scan_segments-encoded retired
                (record {
                  generation = active.generation;
                  content = encode_log active.content ++ take n (encode r);
                })
                active.content 0 old torn.0,
            last_found-append retired active 0,
          )
          refl,
      replay_segments-encoded (retired ++ (active ∷ []))
          (AreFitting-append retired active old fits),
    )
