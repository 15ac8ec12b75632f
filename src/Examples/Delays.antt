-- ===== src/Examples/Delays.antt =====
-- Delays at concrete values (internal/reset/engine.go).
use cpa_codex_auto_reset.Prelude.{◌+◌, ◌*◌, ◌≤◌, ◌≡◌, ◌⊎◌, some, min, arith}
use cpa_codex_auto_reset.Prelude.Int.{pos, ◌≤ℤ◌}
use cpa_codex_auto_reset.Prelude.Time.{minute, hour, add}
use cpa_codex_auto_reset.Codex.{plain}
use cpa_codex_auto_reset.Reset.Backoff.{backoff_duration, transient_backoff, retry_after}
use cpa_codex_auto_reset.Reset.Backoff.Bounds.{
  transient_backoff_waits, least_int64, at_least_minute, backoff_duration_overflows, Reached,
}
use cpa_codex_auto_reset.Examples.{noon}

transient_backoff_waits_example :
    let delay =
      transient_backoff least_int64 (λ _. 5) (some (plain "timeout")) 2 (pos (5 * minute)) in
    (pos (min (at_least_minute (pos (5 * minute))) (6 * hour)) ≤ℤ delay)
    × Reached (retry_after (some (plain "timeout"))) delay
    × ((delay ≤ℤ pos (6 * hour + 5)) ⊎ (retry_after (some (plain "timeout")) ≡ some delay))
transient_backoff_waits_example =
    transient_backoff_waits least_int64 (λ _. 5) (some (plain "timeout")) 2 (pos (5 * minute))
      (omega arith)

backoff_duration_overflows_example :
    add noon (backoff_duration least_int64 29 minute (30 * minute) 0) ≤ noon
backoff_duration_overflows_example = backoff_duration_overflows 29 noon (omega arith)
