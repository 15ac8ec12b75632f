-- ===== src/Codex/ReadUsage.antt =====
-- `Usage` and `parseWindow` (internal/codex/client.go), from the decoded response on.
-- A JSON number that is decoded into a float64 is counted in units of 2^-1074.
use cpa_codex_auto_reset.Prelude.{
  ℕ, ◌≤◌, ◌≡◌, ◌⊎◌, inl, inr, String, ◌==◌, Bool, true, false, not, ◌&&◌, ◌||◌, Option, none, some,
  ltb, is_some, if◌then◌else◌, arith, Bool-cases, Option-cases,
}
use cpa_codex_auto_reset.Prelude.Int.{ℤ, pos}
use cpa_codex_auto_reset.Prelude.Time.{of_unix}
use cpa_codex_auto_reset.Prelude.Text.{trim_space, is_empty}
use cpa_codex_auto_reset.Codex.{Window, Usage, Result, ok, err, plain, percent, Succeeds}

-- A pointer field is none where the response has no such field.
pub record RawWindow : Type 0 where
  pub used_percent : Option ℤ
  pub reset_at : Option ℤ

pub record RateLimit : Type 0 where
  pub allowed : Option Bool
  pub limit_reached : Option Bool
  pub primary_window : Option RawWindow
  pub secondary_window : Option RawWindow

-- `reset_credits` is the pointer to the struct with the pointer `available_count`.
pub record UsageResponse : Type 0 where
  pub rate_limit : Option RateLimit
  pub rate_limit_reached_type : String
  pub reset_credits : Option (Option ℤ)

abbrev window_of : Option ℤ → Option ℤ → Option Window
window_of (some (pos used)) (some (pos at)) =
    if ltb (percent 100) used || not (ltb 0 at)
    then none
    else some (record { used_percent = used; reset_at = of_unix at })
window_of _ _ = none

-- `parseWindow`; the outer option is none for an error.
unfoldable pub parse_window : Option RawWindow → Option (Option Window)
parse_window none = some none
parse_window (some raw) = elim (window_of raw.used_percent raw.reset_at) [
  | none ↦ none
  | some w ↦ some (some w)
]

-- `hasReachedType`
unfoldable pub has_reached_type : String → Bool
has_reached_type raw =
    let text = trim_space raw in not (is_empty text) && not (text == "null") && not (text == "{}")

abbrev larger : Option Window → ℕ → ℕ
larger none used = used
larger (some w) used = if ltb used w.used_percent then w.used_percent else used

-- The `available_count` of the summary: 0 without a summary, none for an error.
abbrev count_of : Option (Option ℤ) → Option ℕ
count_of none = some 0
count_of (some (some (pos n))) = some n
count_of (some _) = none

abbrev finish_usage :
    Bool → Bool → String → Option (Option ℤ) → Option Window → Option Window → Result Usage
finish_usage allowed limit_reached reached_type reset_credits primary secondary =
    if not (is_some primary) && not (is_some secondary)
    then err (plain "Codex usage response has no rate-limit windows")
    else elim (count_of reset_credits) [
      | none ↦ err (plain "invalid reset credit summary")
      | some available_count ↦ ok (record {
        allowed = allowed;
        blocked = limit_reached || not allowed || has_reached_type reached_type;
        used_percent = larger secondary (larger primary 0);
        primary = primary;
        secondary = secondary;
        available_count = available_count;
      })
    ]

abbrev with_windows : Bool → Bool → RateLimit → String → Option (Option ℤ) → Result Usage
with_windows allowed limit_reached limit reached_type reset_credits =
    elim (parse_window limit.primary_window) [
      | none ↦ err (plain "invalid Codex rate-limit window")
      | some primary ↦ elim (parse_window limit.secondary_window) [
        | none ↦ err (plain "invalid Codex rate-limit window")
        | some secondary ↦
            finish_usage allowed limit_reached reached_type reset_credits primary secondary
      ]
    ]

abbrev with_flags :
    Option Bool → Option Bool → RateLimit → String → Option (Option ℤ) → Result Usage
with_flags (some allowed) (some limit_reached) limit reached_type reset_credits =
    with_windows allowed limit_reached limit reached_type reset_credits
with_flags _ _ limit reached_type reset_credits = err (plain "incomplete Codex usage response")

-- `Usage` once `do` has returned a body; the argument is what decoding it gives, none for an error.
unfoldable pub read_usage : Option UsageResponse → Result Usage
read_usage none = err (plain "invalid Codex usage response")
read_usage (some response) = elim response.rate_limit [
  | none ↦ err (plain "incomplete Codex usage response")
  | some limit ↦
      with_flags limit.allowed limit.limit_reached limit response.rate_limit_reached_type
        response.reset_credits
]

-- The usage of a window that is missing counts as none.
abbrev pub share : Option Window → ℕ
share none = 0
share (some w) = w.used_percent

-- What a usage that was read satisfies: it has a window, its percentage is the larger of the
-- windows' and at most 100, and a usage that is not blocked is allowed.
pub record IsSound (u : Usage) : Type 0 where
  pub some_window : is_some u.primary || is_some u.secondary ≡ true
  pub above_primary : share u.primary ≤ u.used_percent
  pub above_secondary : share u.secondary ≤ u.used_percent
  pub reached : (u.used_percent ≡ share u.primary) ⊎ (u.used_percent ≡ share u.secondary)
  pub at_most_100 : u.used_percent ≤ percent 100
  pub permitted : u.blocked ≡ false → u.allowed ≡ true

window_small :
    (raw : Option RawWindow) (w : Option Window) → parse_window raw ≡ some w → share w ≤ percent 100
unfolding parse_window
window_small raw w h = ground arith

finish_usage-IsSound :
    (allowed limit_reached : Bool) (reached_type : String) (reset_credits : Option (Option ℤ))
    (primary secondary : Option Window)
    → share primary ≤ percent 100
    → share secondary ≤ percent 100
    → Succeeds IsSound
        (finish_usage allowed limit_reached reached_type reset_credits primary secondary)
finish_usage-IsSound allowed limit_reached reached_type reset_credits primary secondary hp hs =
    elim (Bool-cases (not (is_some primary) && not (is_some secondary))) [
      | inl none_there ↦ rw none_there tt
      | inr some_there ↦
          rw some_there
            (elim (count_of reset_credits)
              as (λ c. Succeeds IsSound (elim c [
                | none ↦ err (plain "invalid reset credit summary")
                | some available_count ↦ ok (record {
                  allowed = allowed;
                  blocked = limit_reached || not allowed || has_reached_type reached_type;
                  used_percent = larger secondary (larger primary 0);
                  primary = primary;
                  secondary = secondary;
                  available_count = available_count;
                })
              ])) [
                | none ↦ tt
                | some n ↦ record {
                  some_window = ground (arith, some_there);
                  above_primary = ground arith;
                  above_secondary = ground arith;
                  reached = ground arith;
                  at_most_100 = ground (arith, hp, hs);
                  permitted = λ h. ground (arith, h);
                }
              ])
    ]

with_windows-IsSound :
    (allowed limit_reached : Bool) (limit : RateLimit) (reached_type : String)
    (reset_credits : Option (Option ℤ))
    → Succeeds IsSound (with_windows allowed limit_reached limit reached_type reset_credits)
with_windows-IsSound allowed limit_reached limit reached_type reset_credits =
    elim (Option-cases (parse_window limit.primary_window)) [
      | inl bad ↦ rw (bad, Succeeds) tt
      | inr (primary, p) ↦ elim (Option-cases (parse_window limit.secondary_window)) [
        | inl bad ↦ rw (p, Succeeds) (rw (bad, Succeeds) tt)
        | inr (secondary, q) ↦
            rw (p, Succeeds)
              (rw (q, Succeeds)
                (finish_usage-IsSound allowed limit_reached reached_type reset_credits primary
                  secondary (window_small limit.primary_window primary p)
                  (window_small limit.secondary_window secondary q)))
      ]
    ]

with_flags-IsSound :
    (allowed limit_reached : Option Bool) (limit : RateLimit) (reached_type : String)
    (reset_credits : Option (Option ℤ))
    → Succeeds IsSound (with_flags allowed limit_reached limit reached_type reset_credits)
with_flags-IsSound (some allowed) (some limit_reached) limit reached_type reset_credits =
    with_windows-IsSound allowed limit_reached limit reached_type reset_credits
with_flags-IsSound (some _) none limit reached_type reset_credits = tt
with_flags-IsSound none _ limit reached_type reset_credits = tt

-- A usage that the client returns has a window; its percentage is the larger of the windows' and at
-- most 100; and if it is not blocked, the service allows requests.
pub read_usage-IsSound : (response : Option UsageResponse) → Succeeds IsSound (read_usage response)
unfolding read_usage
read_usage-IsSound none = tt
read_usage-IsSound (some response) = elim (Option-cases response.rate_limit) [
  | inl absent ↦ rw absent tt
  | inr (limit, present) ↦ rw present (
      with_flags-IsSound limit.allowed limit.limit_reached limit response.rate_limit_reached_type
        response.reset_credits)
]
