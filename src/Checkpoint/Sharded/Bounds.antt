-- ===== src/Checkpoint/Sharded/Bounds.antt =====
-- What the walk's bounds checks say of the spans of a file with any bytes at all.
use vmem_kv.Prelude.{
  ℕ, zero, suc, ◌+◌, ◌*◌, ◌^◌, ◌≤◌, ◌<◌, ◌≡◌, ◌⊎◌, ap, some, List, ◌∷◌, length, All, arith,
}
use vmem_kv.Prelude.Options.{>>=-eq-some}
use vmem_kv.Checkpoint.Sharded.{u64}
use vmem_kv.Checkpoint.Sharded.Sections.{
  Span, Section, ParsedShardSections, read_section, parse_section, parse_shard_sections,
}

-- A span within the payload, or one whose count is so large that its size wraps.
abbrev pub Bounded : ℕ → Span → Type 0
Bounded payload_limit span = (span.start + span.count * 32 ≤ payload_limit) ⊎ (2 ^ 58 ≤ span.count)

parse_section-Bounded :
    (base : List ℕ) (limit offset checksum : ℕ) (section : Section)
    → limit < 2 ^ 63
    → offset ≤ limit
    → parse_section base limit offset checksum ≡ some section
    → Bounded limit section.span × (section.next ≤ limit)
unfolding parse_section read_section
parse_section-Bounded base limit offset checksum section small within e = ground arith

-- In a payload of less than 2 ^ 63 bytes every span that the walk hands out lies within the
-- payload, unless its entry count is 2 ^ 58 or more; there is a span for each shard, and the walk
-- ends within the payload.
pub parse_shard_sections-Bounded :
    (remaining : ℕ) (base : List ℕ) (limit offset seen checksum : ℕ) (parsed : ParsedShardSections)
    → limit < 2 ^ 63
    → offset ≤ limit
    → parse_shard_sections remaining base limit offset seen checksum ≡ some parsed
    → All (Bounded limit) parsed.entries
      × (length parsed.entries ≡ remaining)
      × (parsed.end_offset ≤ limit)
unfolding parse_shard_sections
parse_shard_sections-Bounded zero base limit offset seen checksum parsed small within e =
    ground arith
parse_shard_sections-Bounded (suc n) base limit offset seen checksum parsed small within e =
    let (section, found, rest) = >>=-eq-some (parse_section base limit offset checksum) _ e in
    let (more, walked, last) =
      >>=-eq-some
        (parse_shard_sections n base limit section.next (u64 (seen + section.span.count))
          section.folded)
        _ rest in
    let (here, next) =
      parse_section-Bounded base limit offset checksum section small within found in
    let (later, number, end) =
      parse_shard_sections-Bounded n base limit section.next (u64 (seen + section.span.count))
        section.folded more small next walked in
    let whole : record more { entries = section.span ∷ more.entries } ≡ parsed = cc in
    rw (← whole) ((here, later), ap suc number, end)
