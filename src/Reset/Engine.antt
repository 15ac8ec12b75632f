-- ===== src/Reset/Engine.antt =====
-- The engine's operations on one account (internal/reset/engine.go).
-- A per-account mutex and the scan mutex keep two engine operations on one account apart, so each
-- is one run here; the other writer of the state file is the web handler's `SetParticipation`.
use cpa_codex_auto_reset.Prelude.{
  ℕ, ◌+◌, ◌*◌, String, ◌==◌, Bool, true, false, not, ◌&&◌, ◌||◌, Option, none, some, List, [], ◌∷◌,
  ltb, if◌then◌else◌,
}
use cpa_codex_auto_reset.Prelude.Int.{ℤ, pos, negsuc, ltb_ℤ}
use cpa_codex_auto_reset.Prelude.Time
use cpa_codex_auto_reset.Prelude.Time.{Time, Duration, minute, hour, after, add, of_seconds}
use cpa_codex_auto_reset.Prelude.Text.{concat}
use cpa_codex_auto_reset.Account.{Account}
use cpa_codex_auto_reset.Config.{Config}
use cpa_codex_auto_reset.Codex.{
  Credentials, Usage, Credit, CreditList, ConsumeCode, ConsumeResult, CodexError, Result, ok, err,
  reset, already_redeemed, nothing_to_reset, no_credit, percent,
}
use cpa_codex_auto_reset.Management.{is_auth_failure}
use cpa_codex_auto_reset.State.{Attempt, Cooldown, Backoff, PendingLocalClear, LogEntry, append_log}
use cpa_codex_auto_reset.Reset.Backoff.{backoff_duration}
use cpa_codex_auto_reset.Reset.Updates.{
  mark_ambiguous, bump_pending_verification, apply_failure, record_transient_failure,
  complete_reset,
}
use cpa_codex_auto_reset.Reset.Housekeeping.{clear_succeeded, clear_failed}
use cpa_codex_auto_reset.Reset.Exec.{
  Env, Exec, usage_request, credits_request, consume_request, clear_request, pure, ◌>>=◌, ◌>>◌,
  send, branch, on_option, on_result, try_update, update, clock, delay_after,
}

abbrev pub candidate_window : ℕ
candidate_window = 6 * hour

abbrev pub protection_window : ℕ
protection_window = 30 * minute

abbrev pub minimum_failure_backoff : ℕ
minimum_failure_backoff = 30 * minute

abbrev pub maximum_verification_tries : ℕ
maximum_verification_tries = 2

-- What `processAccount` returns; `failed` is a non-nil error.
pub record Outcome : Type 0 where
  pub eligible : Bool
  pub reset_done : Bool
  pub failed : Bool

abbrev pub skipped : Outcome
skipped = record { eligible = false; reset_done = false; failed = false }

abbrev pub broken : Outcome
broken = record { eligible = false; reset_done = false; failed = true }

abbrev pub waiting : Outcome
waiting = record { eligible = true; reset_done = false; failed = false }

abbrev pub halted : Outcome
halted = record { eligible = true; reset_done = false; failed = true }

abbrev pub has_credit : String → List Credit → Bool
has_credit id [] = false
has_credit id (c ∷ cs) = c.id == id || has_credit id cs

abbrev pub cooling : Option Cooldown → Time → Bool
cooling none now = false
cooling (some c) now = after c.until now

abbrev pub until_of : Option Cooldown → Time
until_of none = Time.zero_time
until_of (some c) = c.until

abbrev pub backing_off : Option Backoff → Time → Bool
backing_off none now = false
backing_off (some b) now = after b.until now

-- `usage.UsedPercent < float64(e.config.ResetThreshold)`
abbrev pub is_below : ℕ → ℤ → Bool
is_below used (pos threshold) = ltb used (percent threshold)
is_below used (negsuc _) = false

-- The test of `processAccount` that a credit is not to be spent yet.
abbrev pub is_deferred : Config → Credit → Usage → Time → Bool
is_deferred config credit usage now =
    let protection = not (ltb_ℤ (pos protection_window) (Time.sub credit.expires_at now)) in
    not usage.blocked
    && is_below usage.used_percent config.reset_threshold
    && not (protection && ltb 0 usage.used_percent)

-- The test that a credit expires too late to be a candidate.
abbrev pub is_outside : Credit → Bool → Time → Bool
is_outside credit blocked now =
    not blocked && ltb_ℤ (pos candidate_window) (Time.sub credit.expires_at now)

-- The checks on `FailureBackoff` before an attempt is made.
abbrev pub is_suppressed : Option Backoff → String → Time → Bool
is_suppressed none mark now = false
is_suppressed (some b) mark now = after b.until now || b.fingerprint == mark

abbrev pub blocked_of : Result Usage → Bool
blocked_of (ok u) = u.blocked
blocked_of (err _) = false

module _ (env : Env) (config : Config) where
  abbrev pub log : LogEntry → Exec Bool
  log entry = update env (append_log entry)

  -- `retryLocalClear`
  unfoldable pub retry_local_clear : String → Account → PendingLocalClear → Exec Bool
  retry_local_clear trigger item pending = do
    now ← clock env
    branch (after pending.next_retry_at now) (pure false) do
      error ← send (clear_request pending.auth_index) env.clear
      let delay = backoff_duration env.convert (pending.attempts + 1) minute (30 * minute) 0
      on_option error (do update env (clear_succeeded item.ref trigger now); pure true)
          λ e. do
            update env
                (clear_failed item.ref trigger pending (is_auth_failure e) now (add now delay))
            pure false

  -- `markAmbiguous`
  unfoldable pub mark_as_ambiguous : String → String → Attempt → CodexError → Exec Bool
  mark_as_ambiguous ref trigger attempt cause = do
    now ← clock env
    delay ←
        delay_after env (some cause) (attempt.verification_count + 1)
          (of_seconds config.failure_backoff_seconds)
    update env (mark_ambiguous ref trigger attempt now delay)

  -- `bumpPendingVerification`
  unfoldable pub bump_verification : String → Attempt → String → Exec Bool
  bump_verification ref attempt reason = do
    now ← clock env
    delay ←
        delay_after env none (attempt.verification_count + 1)
          (of_seconds config.failure_backoff_seconds)
    update env (bump_pending_verification ref attempt reason now delay)

  -- `applyFailure`, which every call gives a nil cause
  unfoldable pub fail_attempt : String → String → String → String → Bool → String → Exec Bool
  fail_attempt ref trigger mark outcome tombstone credit_id = do
    now ← clock env
    let base = of_seconds config.failure_backoff_seconds
    delay ←
        delay_after env none 1
          (if ltb_ℤ base (pos minimum_failure_backoff) then pos minimum_failure_backoff else base)
    update env (apply_failure env.sha256_hex ref trigger mark outcome tombstone credit_id now delay)

  -- `recordTransientFailure`
  unfoldable pub note_transient_failure : String → String → String → String → CodexError → Exec Bool
  note_transient_failure ref trigger code mark cause = do
    now ← clock env
    delay ← delay_after env (some cause) 1 (of_seconds config.failure_backoff_seconds)
    update env (record_transient_failure ref trigger code mark now delay)

  -- What `verifyReset` concludes from the two answers.
  abbrev pub is_verified : Attempt → Result CreditList → Result Usage → Bool
  is_verified attempt (ok credits) (ok usage) =
      (not (has_credit attempt.credit_id credits.available)
        || ltb credits.available_count attempt.pre_available_count)
      && (ltb usage.used_percent attempt.pre_used_percent
          || (attempt.pre_blocked && not usage.blocked))
  is_verified attempt (ok credits) (err e) = false
  is_verified attempt (err e) usage = false

  -- `verifyReset`
  unfoldable pub verify_reset : Credentials → Attempt → Exec Bool
  verify_reset credentials attempt = do
    credits ← send (credits_request credentials) env.credits
    usage ← send (usage_request credentials) env.usage
    pure (is_verified attempt credits usage)

  -- `completeSuccessfulReset`
  unfoldable pub complete_successful_reset :
      String → Account → Credentials → Attempt → String → Exec Bool
  complete_successful_reset trigger item credentials attempt outcome = do
    now ← clock env
    verified ← verify_reset credentials attempt
    let outcome' = concat outcome (if verified then "_verified" else "_unverified")
    let cooldown_until = add now (of_seconds config.post_reset_cooldown_seconds)
    persisted ←
        try_update env
          (complete_reset item.ref item.auth_index trigger attempt outcome' now cooldown_until)
    branch (not persisted) (pure false) do
      retry_local_clear trigger item (record {
        auth_index = item.auth_index;
        created_at = now;
        next_retry_at = now;
        attempts = 0;
      })
      pure true

  -- `handleConsumeResult`
  unfoldable pub handle_consume_result :
      String → Account → Credentials → Attempt → ConsumeCode → Exec Bool
  handle_consume_result trigger item credentials attempt reset =
      complete_successful_reset trigger item credentials attempt "reset"
  handle_consume_result trigger item credentials attempt already_redeemed =
      complete_successful_reset trigger item credentials attempt "already_redeemed"
  handle_consume_result trigger item credentials attempt nothing_to_reset = do
    fail_attempt item.ref trigger attempt.fingerprint "nothing_to_reset" false attempt.credit_id
    pure false
  handle_consume_result trigger item credentials attempt no_credit = do
    fail_attempt item.ref trigger attempt.fingerprint "no_credit" true attempt.credit_id
    pure false

  -- What follows the call of `Consume`: whether the reset is done, and whether there was an error.
  unfoldable pub answer_spend :
      String → Account → Credentials → Attempt → Result ConsumeResult → Exec (Bool × Bool)
  answer_spend trigger item credentials attempt answer =
      on_result answer
        (λ cause. do mark_as_ambiguous item.ref trigger attempt cause; pure (false, true))
        λ r. do
          done ← handle_consume_result trigger item credentials attempt r.code
          pure (done, false)

  -- The call of `Consume` that ends `processAccount` and `resolvePending`.
  unfoldable pub spend : String → Account → Credentials → Attempt → Exec (Bool × Bool)
  spend trigger item credentials attempt w =
      (send (consume_request item.ref attempt.credit_id attempt.idempotency_key w.disk) env.consume
          >>= answer_spend trigger item credentials attempt)
        w
