-- ===== src/Examples/Codex.antt =====
-- Replies of the Codex service at concrete values (internal/codex/client.go).
use cpa_codex_auto_reset.Prelude.{
  ◌*◌, ◌≡◌, refl, String, ◌==◌, true, false, Option, none, some, [], ◌∷◌, arith, if◌then◌else◌,
}
use cpa_codex_auto_reset.Prelude.Int.{pos, ltb_ℤ}
use cpa_codex_auto_reset.Prelude.Time.{Time}
use cpa_codex_auto_reset.Prelude.Text.{trim_space}
use cpa_codex_auto_reset.Codex.{Credentials, percent, Succeeds}
use cpa_codex_auto_reset.Codex.ReadUsage.{UsageResponse, IsSound, read_usage, read_usage-IsSound}
use cpa_codex_auto_reset.Codex.ReadCredits.{CreditResponse, read_credits}
use cpa_codex_auto_reset.Codex.ReadCredits.Order.{IsOrdered, read_credits-IsOrdered}
use cpa_codex_auto_reset.Codex.Http.{atoi, Reply, parse_retry_after}
use cpa_codex_auto_reset.Codex.Http.RetryAfter.{parse_retry_after_wraps}
use cpa_codex_auto_reset.Examples.{noon}

abbrev usage_response : UsageResponse
usage_response = record {
  rate_limit = some (record {
    allowed = some true;
    limit_reached = some false;
    primary_window =
        some (record { used_percent = some (pos (percent 40)); reset_at = some (pos 5000) });
    secondary_window = none;
  });
  rate_limit_reached_type = "null";
  reset_credits = some (some (pos 1));
}

read_usage-IsSound_example : Succeeds IsSound (read_usage (some usage_response))
read_usage-IsSound_example = read_usage-IsSound (some usage_response)

abbrev credit_response : CreditResponse
credit_response = record {
  credits =
      record {
        id = "b";
        reset_type = "codex_rate_limits";
        status = "available";
        expires_at = some "late";
      }
      ∷ record {
        id = "a";
        reset_type = "codex_rate_limits";
        status = "available";
        expires_at = some "soon";
      }
      ∷ [];
  available_count = some (pos 2);
}

abbrev dates : String → Option Time
dates s = if s == "soon" then some (noon * 2) else some (noon * 3)

read_credits-IsOrdered_example :
    Succeeds (IsOrdered noon) (read_credits (λ s. s) dates noon (some credit_response))
read_credits-IsOrdered_example = read_credits-IsOrdered (λ s. s) dates noon (some credit_response)

ninety : atoi (trim_space " 90 ") ≡ some (pos 90)
unfolding atoi trim_space
ninety = refl

abbrev no_date : String → Option Time
no_date _ = none

large : atoi (trim_space "9223372037") ≡ some (pos 9223372037)
unfolding atoi trim_space
large = refl

parse_retry_after_wraps_example : ltb_ℤ (parse_retry_after no_date "9223372037" noon) (pos 0) ≡ true
unfolding trim_space
parse_retry_after_wraps_example =
    parse_retry_after_wraps no_date "9223372037" noon 9223372037 refl large (omega arith)
      (omega arith)

abbrev user : Credentials
user = record { access_token = "token"; account_id = "id" }

abbrev reply : Reply
reply = record { status_code = 200; retry_after = ""; body = some "{}" }
