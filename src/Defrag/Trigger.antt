-- ===== src/Defrag/Trigger.antt =====
-- When a cycle is due: scan_wanted and defrag_wanted.
use vmem_kv.Prelude.{
  ℕ, ◌+◌, ◌-◌, ◌*◌, ◌/◌, Bool, true, false, not, ◌&&◌, ◌||◌, leb, ltb, ◌==◌, if◌then◌else◌,
}
use vmem_kv.Store.Ownership.{T2Ownership}
use vmem_kv.Defrag.{DefragState, u64}

abbrev pub defrag_space_overhead_percent : ℕ
defrag_space_overhead_percent = 20

abbrev pub threshold_bp : ℕ
threshold_bp = (100 - defrag_space_overhead_percent) * 100

-- Basis points: hundredths of a percent.
unfoldable pub scan_wanted : DefragState → ℕ → ℕ → Bool
scan_wanted state overhead_bp checkpoint_count =
    if ltb overhead_bp 500
    then false
    else if leb threshold_bp overhead_bp && ltb state.last_overhead_bp threshold_bp
    then true
    else if leb (u64 (state.last_overhead_bp + 500)) overhead_bp
    then true
    else not (checkpoint_count == state.last_checkpoint)

unfoldable pub defrag_wanted : DefragState → T2Ownership → ℕ → Bool → ℕ → Bool
unfolding scan_wanted
defrag_wanted state own bytes_used recovering checkpoint_count =
    if recovering
    then false
    else if ltb 0 state.pending_punch_count
    then true
    else if bytes_used == 0
    then false
    else if leb bytes_used own.live_total
    then false
    else scan_wanted state (u64 ((bytes_used - own.live_total) * 10000) / bytes_used)
        checkpoint_count

-- overhead_bp of a cycle, which is the number that defrag_wanted computes.
unfoldable pub overhead_of : ℕ → ℕ → ℕ
overhead_of bytes_used live =
    if bytes_used == 0 || leb bytes_used live
    then 0
    else u64 ((bytes_used - live) * 10000) / bytes_used
