-- ===== src/Reset/Backoff.antt =====
-- Delays (internal/reset/engine.go: `transientBackoff`, `jitterFor`, `backoffDuration`).
-- A base is a whole number of seconds below 2^53 ns, so its float64 product with a power of two is
-- exact. Go leaves the conversion of a float64 of 2^63 or more to int64 to the platform: that is
-- `convert`.
pub mod Bounds
use cpa_codex_auto_reset.Prelude.{ℕ, ◌-◌, ◌*◌, ◌^◌, Option, none, some, ltb, if◌then◌else◌}
use cpa_codex_auto_reset.Prelude.Int.{ℤ, pos, negsuc, ◌+ℤ◌, ltb_ℤ}
use cpa_codex_auto_reset.Prelude.Time.{Duration, minute, hour}
use cpa_codex_auto_reset.Codex.{CodexError, http, plain}

-- `time.Duration(x)` of a float64 that is a whole number
abbrev pub to_duration : (ℕ → ℤ) → ℕ → Duration
to_duration convert n = if ltb n (2 ^ 63) then pos n else convert n

abbrev pub at_least_one : ℕ → ℕ
at_least_one level = if ltb level 1 then 1 else level

unfoldable pub backoff_duration : (ℕ → ℤ) → ℕ → ℕ → ℕ → ℕ → Duration
backoff_duration convert level base maximum jitter =
    let delay = to_duration convert (base * 2 ^ (at_least_one level - 1)) in
    (if ltb_ℤ (pos maximum) delay then pos maximum else delay) +ℤ pos jitter

-- `if base < time.Minute { base = time.Minute }`
abbrev pub base_of : Duration → ℕ
base_of (pos n) = if ltb n minute then minute else n
base_of (negsuc n) = minute

-- `errors.As(err, &httpErr)` and the `RetryAfter` of what it finds
abbrev pub retry_after : Option CodexError → Option Duration
retry_after none = none
retry_after (some (plain _)) = none
retry_after (some (http e)) = some e.retry_after

-- `if errors.As(err, &httpErr) && httpErr.RetryAfter > delay { delay = httpErr.RetryAfter }`
abbrev pub at_least : Option Duration → Duration → Duration
at_least none delay = delay
at_least (some wanted) delay = if ltb_ℤ delay wanted then wanted else delay

-- `jitter` is the result of `jitterFor` at the base.
unfoldable pub transient_backoff : (ℕ → ℤ) → (ℕ → ℕ) → Option CodexError → ℕ → Duration → Duration
transient_backoff convert jitter cause level base =
    let b = base_of base in
    at_least (retry_after cause) (backoff_duration convert level b (6 * hour) (jitter b))
