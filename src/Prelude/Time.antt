-- ===== src/Prelude/Time.antt =====
-- Go's `time.Time` and `time.Duration`, in nanoseconds.
-- An instant is a number of nanoseconds since the earliest second that a `time.Time` can hold,
-- so that the zero `Time` (1 January of the year 1) is a large number and earlier instants exist.
use Prim.Native.Nat.{ℕ, suc, ◌+◌, ◌-◌, ◌*◌, ◌/◌, ◌^◌, min}
use mathlib.Core.Bool.{Bool}
use cpa_codex_auto_reset.Prelude.Tests.{ltb, leb, eqb, if◌then◌else◌}
use cpa_codex_auto_reset.Prelude.Int.{ℤ, pos, negsuc, sub_ℕ, scale_int64}

abbrev pub Time : Type 0
Time = ℕ

abbrev pub Duration : Type 0
Duration = ℤ

abbrev pub second : ℕ
second = 10 ^ 9

abbrev pub minute : ℕ
minute = 60 * second

abbrev pub hour : ℕ
hour = 60 * minute

-- `time.Time{}`
abbrev pub zero_time : Time
zero_time = 2 ^ 63 * 10 ^ 9

-- The Unix epoch.
abbrev pub unix_epoch : Time
unix_epoch = zero_time + 62135596800 * 10 ^ 9

abbrev pub is_zero : Time → Bool
is_zero t = eqb t zero_time

-- `a.After(b)`
abbrev pub after : Time → Time → Bool
after a b = ltb b a

-- `t.Add(d)`
abbrev pub add : Time → Duration → Time
add t (pos d) = t + d
add t (negsuc d) = t - suc d

-- `a.Sub(b)`, which saturates at the ends of int64.
abbrev pub sub : Time → Time → Duration
sub a b = if leb b a then pos (min (a - b) (2 ^ 63 - 1)) else negsuc (min (b - a - 1) (2 ^ 63 - 1))

-- `d.Milliseconds()`, truncated towards zero.
abbrev pub milliseconds : Duration → ℤ
milliseconds (pos d) = pos (d / 10 ^ 6)
milliseconds (negsuc d) = sub_ℕ 0 (suc d / 10 ^ 6)

-- `t.Unix()`, in whole seconds rounded down.
abbrev pub unix : Time → ℤ
unix t = sub_ℕ (t / 10 ^ 9) (unix_epoch / 10 ^ 9)

-- `time.Unix(n, 0)` for a positive n
abbrev pub of_unix : ℕ → Time
of_unix n = unix_epoch + n * 10 ^ 9

-- `time.Duration(n) * time.Second`, in int64.
abbrev pub of_seconds : ℤ → Duration
of_seconds n = scale_int64 n second
