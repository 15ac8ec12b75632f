-- ===== src/Reset/LogBound.antt =====
-- The length of the log in the state file, through the engine's actions (internal/reset/engine.go).
pub mod Process
use cpa_codex_auto_reset.Prelude.{
  ℕ, String, ◌≡◌, ◌≤◌, refl, Bool, true, false, Option, none, some, List, [], ◌∷◌, arith, length,
}
use cpa_codex_auto_reset.Prelude.Time.{Time}
use cpa_codex_auto_reset.Account.{Account}
use cpa_codex_auto_reset.Config.{Config}
use cpa_codex_auto_reset.Codex.{
  Credentials, Usage, Credit, CreditList, CodexError, ConsumeCode, ConsumeResult, Result, reset,
  already_redeemed, nothing_to_reset, no_credit,
}
use cpa_codex_auto_reset.State.{
  State, AccountState, Attempt, LogEntry, PendingLocalClear, ScanSummary, append_log,
}
use cpa_codex_auto_reset.State.Logs.{LogsBounded, append_log-LogsBounded}
use cpa_codex_auto_reset.State.Participation.{set_participation, set_participation_accounts_for_all}
use cpa_codex_auto_reset.State.Reconcile.{reconcile}
use cpa_codex_auto_reset.Reset.Updates.{persist_attempt, complete_reset}
use cpa_codex_auto_reset.Reset.Housekeeping.{update_credit_snapshot, update_usage_snapshot}
use cpa_codex_auto_reset.Reset.Updates.Bounded.{
  mark_ambiguous-LogsBounded, bump_pending_verification-LogsBounded, apply_failure-LogsBounded,
  record_transient_failure-LogsBounded, clear_succeeded-LogsBounded, clear_failed-LogsBounded,
  persist_attempt-LogsBounded, complete_reset-LogsBounded, finish_scan-LogsBounded,
}
use cpa_codex_auto_reset.Reset.Exec.{
  Env, Request, World, Exec, Call, consume_request, pure, ask, send, ◌>>=◌, ◌>>◌, interfere,
  load_state, try_update, update,
}
use cpa_codex_auto_reset.Reset.Exec.Triple.{
  Triple, Triple-pure, Triple-branch, Triple-option, Triple-result, Triple-then,
}
use cpa_codex_auto_reset.Reset.Engine.{
  Outcome, retry_local_clear, mark_as_ambiguous, bump_verification, fail_attempt,
  note_transient_failure, verify_reset, complete_successful_reset, handle_consume_result,
  answer_spend, spend, log,
}
use cpa_codex_auto_reset.Reset.Process.{
  resolve_pending, persist, persist_and_spend, start_attempt, recheck, weigh, look_for_credit,
  guarded, snapshot_usage, process_known, process_account,
}
use cpa_codex_auto_reset.Reset.Scan.{tally, scan_each, give_up, finish, scan_locked, scan}

abbrev pub Bounded : World → Type 0
Bounded w = LogsBounded w.disk

abbrev pub Kept : {A : Type 0} → Exec A → Type 0
Kept m = Triple Bounded Bounded m

interfere-LogsBounded :
    (rs : List Request) (s : State) → LogsBounded s → LogsBounded (interfere rs s)
unfolding interfere
interfere-LogsBounded [] s h = h
interfere-LogsBounded (r ∷ rs) s h =
    let s' = (set_participation r.refs r.participating r.at s).0 in
    interfere-LogsBounded rs s'
      (ground (arith, h, (set_participation_accounts_for_all r.refs r.participating r.at s).0))

module _ {A : Type 0} where
  pub ask-Kept : (f : ℕ → A) → Kept (ask f)
  unfolding ◌>>=◌
  ask-Kept f = record { run = λ w h. h }

  pub send-Kept : (c : Call) (f : ℕ → A) → Kept (send c f)
  unfolding ◌>>=◌
  send-Kept c f = record { run = λ w h. h }

  pub pure-Kept : (a : A) → Kept (pure a)
  pure-Kept a = Triple-pure a λ w h. h

module _ (env : Env) where
  pub try_update-Kept :
      (change : State → Option State)
      → ((s : State) → LogsBounded s → (s' : State) → change s ≡ some s' → LogsBounded s')
      → Kept (try_update env change)
  unfolding try_update
  try_update-Kept change keeps = record {
    run = λ w h.
        let s = interfere (env.others w.tick) w.disk in
        let hs = interfere-LogsBounded (env.others w.tick) w.disk h in
        grind (arith, hs, keeps s hs);
  }

  pub update-Kept :
      (change : State → State)
      → ((s : State) → LogsBounded s → LogsBounded (change s))
      → Kept (update env change)
  update-Kept change keeps = try_update-Kept _ λ s h s' e. ground (arith, e, keeps s h)

  pub load_state-Kept : Kept (load_state env)
  unfolding load_state
  load_state-Kept = record { run = λ w h. interfere-LogsBounded (env.others w.tick) w.disk h }

pub ruleset kept_rules =
    (Triple-branch, Triple-option, Triple-result, Triple-then, pure-Kept, ask-Kept, send-Kept)

module _ (env : Env) (config : Config) where
  pub log-Kept : (entry : LogEntry) → Kept (log env config entry)
  log-Kept entry = update-Kept env _ λ s h. append_log-LogsBounded entry s

  pub retry_local_clear-Kept :
      (trigger : String) (item : Account) (pending : PendingLocalClear)
      → Kept (retry_local_clear env config trigger item pending)
  unfolding retry_local_clear
  retry_local_clear-Kept trigger item pending = Triple-then _ _ (ask-Kept _) λ now.
      Triple-branch _ _ _ (pure-Kept _) (
        Triple-then _ _ (send-Kept _ _) λ error.
          Triple-option _ _ _
            (Triple-then _ _ (update-Kept env _ λ s h. clear_succeeded-LogsBounded s h _ _ _)
              λ _. pure-Kept _)
            λ e _.
              Triple-then _ _ (update-Kept env _ λ s h. clear_failed-LogsBounded s h _ _ _ _ _ _)
                λ _. pure-Kept _)

  pub mark_as_ambiguous-Kept :
      (ref trigger : String) (attempt : Attempt) (cause : CodexError)
      → Kept (mark_as_ambiguous env config ref trigger attempt cause)
  unfolding mark_as_ambiguous
  mark_as_ambiguous-Kept ref trigger attempt cause = Triple-then _ _ (ask-Kept _) λ now.
      Triple-then _ _ (ask-Kept _)
        λ delay. update-Kept env _ λ s h. mark_ambiguous-LogsBounded s h _ _ _ _ _

  pub bump_verification-Kept :
      (ref : String) (attempt : Attempt) (reason : String)
      → Kept (bump_verification env config ref attempt reason)
  unfolding bump_verification
  bump_verification-Kept ref attempt reason = Triple-then _ _ (ask-Kept _) λ now.
      Triple-then _ _ (ask-Kept _)
        λ delay. update-Kept env _ λ s h. bump_pending_verification-LogsBounded s h _ _ _ _ _

  pub fail_attempt-Kept :
      (ref trigger mark outcome : String) (tombstone : Bool) (credit_id : String)
      → Kept (fail_attempt env config ref trigger mark outcome tombstone credit_id)
  unfolding fail_attempt
  fail_attempt-Kept ref trigger mark outcome tombstone credit_id =
      Triple-then _ _ (ask-Kept _) λ now.
        Triple-then _ _ (ask-Kept _)
          λ delay. update-Kept env _ λ s h. apply_failure-LogsBounded s h _ _ _ _ _ _ _ _ _

  pub note_transient_failure-Kept :
      (ref trigger code mark : String) (cause : CodexError)
      → Kept (note_transient_failure env config ref trigger code mark cause)
  unfolding note_transient_failure
  note_transient_failure-Kept ref trigger code mark cause = Triple-then _ _ (ask-Kept _) λ now.
      Triple-then _ _ (ask-Kept _)
        λ delay. update-Kept env _ λ s h. record_transient_failure-LogsBounded s h _ _ _ _ _ _

  pub verify_reset-Kept :
      (credentials : Credentials) (attempt : Attempt)
      → Kept (verify_reset env config credentials attempt)
  unfolding verify_reset
  verify_reset-Kept credentials attempt = search kept_rules

  pub complete_successful_reset-Kept :
      (trigger : String) (item : Account) (credentials : Credentials) (attempt : Attempt)
      (outcome : String)
      → Kept (complete_successful_reset env config trigger item credentials attempt outcome)
  unfolding complete_successful_reset
  complete_successful_reset-Kept trigger item credentials attempt outcome =
      Triple-then _ _ (ask-Kept _) λ now.
        Triple-then _ _ (verify_reset-Kept credentials attempt) λ verified.
          Triple-then _ _
            (try_update-Kept env _ λ s h s' e. complete_reset-LogsBounded s h _ _ _ _ _ _ _ e)
            λ persisted.
              Triple-branch _ _ _ (pure-Kept _)
                (Triple-then _ _ (retry_local_clear-Kept trigger item _) λ _. pure-Kept _)

  pub handle_consume_result-Kept :
      (trigger : String) (item : Account) (credentials : Credentials) (attempt : Attempt)
      (code : ConsumeCode)
      → Kept (handle_consume_result env config trigger item credentials attempt code)
  unfolding handle_consume_result
  handle_consume_result-Kept trigger item credentials attempt reset =
      complete_successful_reset-Kept trigger item credentials attempt _
  handle_consume_result-Kept trigger item credentials attempt already_redeemed =
      complete_successful_reset-Kept trigger item credentials attempt _
  handle_consume_result-Kept trigger item credentials attempt nothing_to_reset =
      Triple-then _ _ (fail_attempt-Kept _ _ _ _ _ _) λ _. pure-Kept _
  handle_consume_result-Kept trigger item credentials attempt no_credit =
      Triple-then _ _ (fail_attempt-Kept _ _ _ _ _ _) λ _. pure-Kept _

  pub answer_spend-Kept :
      (trigger : String) (item : Account) (credentials : Credentials) (attempt : Attempt)
      (answer : Result ConsumeResult)
      → Kept (answer_spend env config trigger item credentials attempt answer)
  unfolding answer_spend
  answer_spend-Kept trigger item credentials attempt answer =
      search (kept_rules, mark_as_ambiguous-Kept, handle_consume_result-Kept) depth 12

  pub spend-Kept :
      (trigger : String) (item : Account) (credentials : Credentials) (attempt : Attempt)
      → Kept (spend env config trigger item credentials attempt)
  unfolding spend
  spend-Kept trigger item credentials attempt = record {
    run = λ w h.
        (Triple-then _ _
            (send-Kept (consume_request item.ref attempt.credit_id attempt.idempotency_key w.disk)
              env.consume)
            (answer_spend-Kept trigger item credentials attempt)).run
          w h;
  }
