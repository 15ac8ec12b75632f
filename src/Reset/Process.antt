-- ===== src/Reset/Process.antt =====
-- `resolvePending` and `processAccount` (internal/reset/engine.go), the latter in the order of its
-- stages: guards, credits, candidate window, threshold, recheck, attempt.
use cpa_codex_auto_reset.Prelude.{
  ℕ, ◌-◌, String, ◌==◌, Bool, true, false, not, leb, is_some, lookup, if◌then◌else◌,
}
use cpa_codex_auto_reset.Prelude.Int.{negsuc}
use cpa_codex_auto_reset.Prelude.Time
use cpa_codex_auto_reset.Prelude.Time.{Time, add}
use cpa_codex_auto_reset.Account.{Account}
use cpa_codex_auto_reset.Config.{Config}
use cpa_codex_auto_reset.Codex.{Credentials, Usage, Credit, Result}
use cpa_codex_auto_reset.State.{State, AccountState, Attempt, no_entry}
use cpa_codex_auto_reset.Reset.Attempts.{uuid_v4, fingerprint, first_usable_credit, new_attempt}
use cpa_codex_auto_reset.Reset.Updates.{persist_attempt}
use cpa_codex_auto_reset.Reset.Housekeeping.{update_credit_snapshot, update_usage_snapshot}
use cpa_codex_auto_reset.Reset.Exec.{
  Env, Exec, usage_request, credits_request, pure, ◌>>=◌, ◌>>◌, ask, send, branch, on_option,
  on_result, load_state, try_update, update, clock, stopped,
}
use cpa_codex_auto_reset.Reset.Engine.{
  candidate_window, maximum_verification_tries, Outcome, skipped, broken, waiting, halted,
  has_credit, cooling, until_of, backing_off, is_deferred, is_outside, is_suppressed, blocked_of,
  log, retry_local_clear, bump_verification, fail_attempt, note_transient_failure,
  complete_successful_reset, spend,
}

module _ (env : Env) (config : Config) where
  -- `resolvePending`
  unfoldable pub resolve_pending : String → Account → Credentials → Attempt → Exec Bool
  resolve_pending trigger item credentials attempt = do
    now ← clock env
    credits ← send (credits_request credentials) env.credits
    on_result credits
        (λ _. do bump_verification env config item.ref attempt "credit_verify_failed"; pure false)
        λ listed. do
          usage ← send (usage_request credentials) env.usage
          on_result usage
              (λ _. do
                bump_verification env config item.ref attempt "usage_verify_failed"
                pure false)
              λ _.
                branch (not (has_credit attempt.credit_id listed.available))
                  (complete_successful_reset env config trigger item credentials attempt
                    "verified_credit_consumed")
                  (branch (leb maximum_verification_tries attempt.verification_count)
                    (do
                      fail_attempt env config item.ref trigger attempt.fingerprint
                          "ambiguous_verification_exhausted" false attempt.credit_id
                      pure false)
                    do
                      halt ← stopped env
                      branch halt (pure false) do
                        answer ← spend env config trigger item credentials attempt
                        pure answer.0)

  -- `persistAttempt`
  unfoldable pub persist : String → String → Attempt → Time → Exec Bool
  persist ref trigger attempt now w =
      try_update env (persist_attempt (env.active w.tick) ref trigger attempt now) w

  -- The end of `processAccount`: the attempt is written down, and only then sent.
  unfoldable pub persist_and_spend : String → Account → Credentials → Time → Attempt → Exec Outcome
  persist_and_spend trigger item credentials now attempt = do
    persisted ← persist item.ref trigger attempt now
    branch (not persisted) (pure halted) do
      answer ← spend env config trigger item credentials attempt
      pure (record { eligible = true; reset_done = answer.0; failed = answer.1 })

  -- The last checks and the attempt itself.
  unfoldable pub start_attempt :
      String → Account → Credentials → Time → Usage → Credit → String → ℕ → Exec Outcome
  start_attempt trigger item credentials now usage credit mark available_count = do
    halt ← stopped env
    branch halt (pure waiting) do
      random ← ask env.random
      on_option random (pure halted) λ raw.
          persist_and_spend trigger item credentials now
            (new_attempt env.sha256_hex (uuid_v4 raw) credit mark usage available_count now)

  -- The second look at the credits.
  unfoldable pub recheck :
      String → Account → Credentials → Time → AccountState → Usage → Credit → Exec Outcome
  recheck trigger item credentials now account usage credit = do
    rechecked ← send (credits_request credentials) env.credits
    on_result rechecked
        (λ cause. do
          note_transient_failure env config item.ref trigger "credit_recheck_failed" "" cause
          pure halted)
        λ listed.
          on_option (first_usable_credit env.sha256_hex listed.available account.tombstones)
            (pure waiting)
            λ again.
              let mark = fingerprint item.ref credit.ref usage listed.available_count in
              branch (not (again.id == credit.id)) (pure waiting) (
                branch (is_suppressed account.failure_backoff mark now) (pure waiting) (
                  start_attempt trigger item credentials now usage credit mark
                    listed.available_count))

  -- The candidate window and the threshold, at the first usable credit.
  unfoldable pub weigh :
      String → Account → Credentials → Time → AccountState → Result Usage → Credit → Exec Outcome
  weigh trigger item credentials now account usage credit = do
    let outside = is_outside credit (blocked_of usage) now
    log env config (record no_entry {
      time = now;
      event = "credit_discovered";
      trigger = trigger;
      account_ref = item.ref;
      participating = true;
      credit_ref = credit.ref;
      decision = if outside then "outside_candidate_window" else "candidate";
      next_attempt_at =
          if outside then add credit.expires_at (negsuc (candidate_window - 1)) else Time.zero_time;
    })
    branch outside (pure skipped) (
        on_result usage
          (λ cause. do
            note_transient_failure env config item.ref trigger "usage_failed" "" cause
            pure broken)
          λ u.
            branch (is_deferred config credit u now)
              (do
                log env config (record no_entry {
                  time = now;
                  event = "reset_deferred";
                  trigger = trigger;
                  account_ref = item.ref;
                  participating = true;
                  credit_ref = credit.ref;
                  decision = "below_threshold";
                })
                pure skipped)
              (recheck trigger item credentials now account u credit))

  -- The first look at the credits, for an account with no attempt pending.
  unfoldable pub look_for_credit :
      String → Account → Credentials → Time → AccountState → Result Usage → Exec Outcome
  look_for_credit trigger item credentials now account usage = do
    credits ← send (credits_request credentials) env.credits
    on_result credits
        (λ cause. do
          note_transient_failure env config item.ref trigger "credit_list_failed" "" cause
          pure broken)
        λ listed. do
          update env (update_credit_snapshot item.ref listed now)
          on_option (first_usable_credit env.sha256_hex listed.available account.tombstones)
              (pure skipped) λ credit. weigh trigger item credentials now account usage credit

  -- The guards of `processAccount`, on the state that it has loaded.
  unfoldable pub guarded :
      String → Account → Credentials → Time → State → AccountState → Result Usage → Exec Outcome
  guarded trigger item credentials now current account usage =
      branch (not account.participating)
        (do
          log env config (record no_entry {
            time = now;
            event = "account_skipped_not_participating";
            trigger = trigger;
            account_ref = item.ref;
            decision = "skip";
          })
          pure skipped)
        (branch item.disabled
          (do
            log env config (record no_entry {
              time = now;
              event = "reset_deferred";
              trigger = trigger;
              account_ref = item.ref;
              participating = true;
              decision = "disabled";
            })
            pure skipped)
          (branch (cooling current.management_cooldown now) (pure skipped) (
            on_option account.pending_local_clear
              (branch (cooling account.post_reset_cooldown now)
                (do
                  log env config (record no_entry {
                    time = now;
                    event = "reset_suppressed_cooldown";
                    trigger = trigger;
                    account_ref = item.ref;
                    participating = true;
                    next_attempt_at = until_of account.post_reset_cooldown;
                  })
                  pure skipped)
                (branch (backing_off account.failure_backoff now)
                  (pure (record skipped { eligible = is_some account.pending_attempt }))
                  (on_option account.pending_attempt
                    (look_for_credit trigger item credentials now account usage)
                    λ attempt. do
                      done ← resolve_pending trigger item credentials attempt
                      pure (record waiting { reset_done = done }))))
              λ pending. do retry_local_clear env config trigger item pending; pure skipped)))

  -- `if errUsage == nil { e.updateUsageSnapshot(…) }`
  unfoldable pub snapshot_usage : String → Time → Result Usage → Exec Bool
  snapshot_usage ref now usage =
      on_result usage (λ _. pure true) λ u. update env (update_usage_snapshot ref u now)

  -- `processAccount` once the account's state is at hand.
  unfoldable pub process_known : String → Account → Time → State → AccountState → Exec Outcome
  process_known trigger item now current account = do
    let credentials : Credentials = record {
      access_token = item.access_token;
      account_id = item.account_id;
    }
    usage ← send (usage_request credentials) env.usage
    snapshot_usage item.ref now usage
    guarded trigger item credentials now current account usage

  -- `processAccount`
  unfoldable pub process_account : String → Account → Exec Outcome
  process_account trigger item = do
    now ← clock env
    loaded ← load_state env
    on_option loaded (pure broken) λ current.
        on_option (lookup item.ref current.accounts) (pure broken)
          λ account. process_known trigger item now current account
