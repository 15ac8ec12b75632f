-- ===== src/Reset/Backoff/Bounds.antt =====
-- How long the engine's delays are (internal/reset/engine.go: `backoffDuration`,
-- `transientBackoff`).
use native.Mathlib.Nat.{one-le-pow, mul-le-mul_left, pow-le-pow_right}
use Prim.Native.Nat.{max}
use cpa_codex_auto_reset.Prelude.{
  inl, ◌⊎◌, ℕ, ◌+◌, ◌-◌, ◌*◌, ◌^◌, ◌≤◌, ◌<◌, ◌≡◌, min, Option, none, some, arith,
}
use cpa_codex_auto_reset.Prelude.Int.{ℤ, pos, negsuc, ◌≤ℤ◌}
use cpa_codex_auto_reset.Prelude.Time.{Time, Duration, minute, hour, add}
use cpa_codex_auto_reset.Codex.{CodexError}
use cpa_codex_auto_reset.Reset.Backoff.{
  backoff_duration, transient_backoff, base_of, retry_after, at_least,
}

-- As long as the product fits into an int64, the delay doubles with each level up to the maximum,
-- and the jitter is added last; the levels 0 and 1 count alike.
pub backoff_duration_doubles :
    (convert : ℕ → ℤ) (level base maximum jitter : ℕ)
    → base * 2 ^ (level - 1) < 2 ^ 63
    → backoff_duration convert level base maximum jitter
      ≡ pos (min (base * 2 ^ (level - 1)) maximum + jitter)
unfolding backoff_duration
backoff_duration_doubles convert level base maximum jitter h = ground arith

-- The larger of a base and a minute, in nanoseconds.
abbrev pub at_least_minute : Duration → ℕ
at_least_minute (pos n) = max n (60 * 10 ^ 9)
at_least_minute (negsuc n) = 60 * 10 ^ 9

base_of_lem : (base : Duration) → base_of base ≡ at_least_minute base
base_of_lem (pos n) = ground arith
base_of_lem (negsuc n) = ground arith

-- The delay is at most the given one.
abbrev pub Reached : Option Duration → Duration → Type 0
Reached none delay = Unit
Reached (some wanted) delay = wanted ≤ℤ delay

base_le : (b k : ℕ) → b ≤ b * 2 ^ k
base_le b k =
    let h : b * 1 ≤ b * 2 ^ k = mul-le-mul_left b (one-le-pow k 2 (omega arith)) in omega (arith, h)

at_least_waits :
    (wanted : Option Duration) (low high d : ℕ)
    → low ≤ d
    → d ≤ high
    → let delay = at_least wanted (pos d) in
      (pos low ≤ℤ delay) × Reached wanted delay × ((delay ≤ℤ pos high) ⊎ (wanted ≡ some delay))
at_least_waits none low high d l u = (omega (arith, l), tt, inl (omega (arith, u)))
at_least_waits (some wanted) low high d l u = ground arith

-- While the product fits into an int64, the engine waits at least for the smaller of the base
-- (of at least a minute) and six hours, at least as long as the service's `Retry-After` asks, and
-- never longer than the larger of that and six hours with the jitter.
pub transient_backoff_waits :
    (convert : ℕ → ℤ) (jitter : ℕ → ℕ) (cause : Option CodexError) (level : ℕ) (base : Duration)
    → at_least_minute base * 2 ^ (level - 1) < 2 ^ 63
    → let delay = transient_backoff convert jitter cause level base in
      let six_hours = 6 * 3600 * 10 ^ 9 in
      (pos (min (at_least_minute base) six_hours) ≤ℤ delay)
      × Reached (retry_after cause) delay
      × ((delay ≤ℤ pos (six_hours + jitter (at_least_minute base)))
          ⊎ (retry_after cause ≡ some delay))
unfolding transient_backoff
transient_backoff_waits convert jitter cause level base h = rw base_of_lem (
    let b = at_least_minute base in
    let d = min (b * 2 ^ (level - 1)) (6 * hour) + jitter b in
    rw (backoff_duration_doubles convert level b (6 * hour) (jitter b) h) (
      at_least_waits (retry_after cause) (min b (6 * hour)) (6 * hour + jitter b) d
        (ground (arith, base_le b (level - 1))) (ground arith)))

-- On amd64 a float64 of 2^63 or more becomes the least int64.
abbrev pub least_int64 : ℕ → ℤ
least_int64 n = negsuc (2 ^ 63 - 1)

-- Where a float64 beyond int64 converts to the least int64, the delay before the next local clear is
-- not positive from level 29 on: the next attempt is due at once.
pub backoff_duration_overflows :
    (level : ℕ) (now : Time)
    → 29 ≤ level
    → add now (backoff_duration least_int64 level minute (30 * minute) 0) ≤ now
unfolding backoff_duration
backoff_duration_overflows level now h =
    let large : 2 ^ 28 ≤ 2 ^ (level - 1) = pow-le-pow_right (omega arith) {i = 28} (omega arith) in
    ground (arith, large)
