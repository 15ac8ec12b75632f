-- ===== src/Reset/LogBound/Process.antt =====
-- The length of the log through `processAccount` and `Scan` (internal/reset/engine.go).
use cpa_codex_auto_reset.Prelude.{ℕ, String, Bool, List, [], ◌∷◌}
use cpa_codex_auto_reset.Prelude.Time.{Time}
use cpa_codex_auto_reset.Account.{Account}
use cpa_codex_auto_reset.Config.{Config}
use cpa_codex_auto_reset.Codex.{Credentials, Usage, Credit, Result}
use cpa_codex_auto_reset.State.{State, AccountState, Attempt, ScanSummary}
use cpa_codex_auto_reset.State.Logs.{LogsBounded}
use cpa_codex_auto_reset.State.Reconcile.{reconcile}
use cpa_codex_auto_reset.Reset.Housekeeping.{update_credit_snapshot, update_usage_snapshot}
use cpa_codex_auto_reset.Reset.Updates.Bounded.{
  persist_attempt-LogsBounded, finish_scan-LogsBounded,
}
use cpa_codex_auto_reset.Reset.Exec.{Env, World, update}
use cpa_codex_auto_reset.Reset.Exec.Triple.{
  Triple-branch, Triple-option, Triple-result, Triple-then,
}
use cpa_codex_auto_reset.Reset.Process.{
  resolve_pending, persist, persist_and_spend, start_attempt, recheck, weigh, look_for_credit,
  guarded, snapshot_usage, process_known, process_account,
}
use cpa_codex_auto_reset.Reset.Scan.{tally, scan_each, give_up, finish, scan_locked, scan}
use cpa_codex_auto_reset.Reset.LogBound.{
  Kept, kept_rules, ask-Kept, send-Kept, pure-Kept, try_update-Kept, update-Kept, load_state-Kept,
  log-Kept, retry_local_clear-Kept, bump_verification-Kept, fail_attempt-Kept,
  note_transient_failure-Kept, complete_successful_reset-Kept, spend-Kept,
}

module _ (env : Env) (config : Config) where
  resolve_pending-Kept :
      (trigger : String) (item : Account) (credentials : Credentials) (attempt : Attempt)
      → Kept (resolve_pending env config trigger item credentials attempt)
  unfolding resolve_pending
  resolve_pending-Kept trigger item credentials attempt =
      search
        (
          kept_rules, bump_verification-Kept, fail_attempt-Kept, complete_successful_reset-Kept,
          spend-Kept,
        )
        depth 20

  persist-Kept :
      (ref trigger : String) (attempt : Attempt) (now : Time)
      → Kept (persist env config ref trigger attempt now)
  unfolding persist
  persist-Kept ref trigger attempt now = record {
    run = λ w h.
        (try_update-Kept env _ λ s b s' e. persist_attempt-LogsBounded s b _ _ _ _ _ e).run w h;
  }

  persist_and_spend-Kept :
      (trigger : String) (item : Account) (credentials : Credentials) (now : Time)
      (attempt : Attempt)
      → Kept (persist_and_spend env config trigger item credentials now attempt)
  unfolding persist_and_spend
  persist_and_spend-Kept trigger item credentials now attempt =
      search (kept_rules, persist-Kept, spend-Kept) depth 12

  start_attempt-Kept :
      (trigger : String) (item : Account) (credentials : Credentials) (now : Time) (usage : Usage)
      (credit : Credit) (mark : String) (available_count : ℕ)
      → Kept
          (start_attempt env config trigger item credentials now usage credit mark available_count)
  unfolding start_attempt
  start_attempt-Kept trigger item credentials now usage credit mark available_count =
      search (kept_rules, persist_and_spend-Kept) depth 12

  recheck-Kept :
      (trigger : String) (item : Account) (credentials : Credentials) (now : Time)
      (account : AccountState) (usage : Usage) (credit : Credit)
      → Kept (recheck env config trigger item credentials now account usage credit)
  unfolding recheck
  recheck-Kept trigger item credentials now account usage credit =
      search (kept_rules, note_transient_failure-Kept, start_attempt-Kept) depth 12

  weigh-Kept :
      (trigger : String) (item : Account) (credentials : Credentials) (now : Time)
      (account : AccountState) (usage : Result Usage) (credit : Credit)
      → Kept (weigh env config trigger item credentials now account usage credit)
  unfolding weigh
  weigh-Kept trigger item credentials now account usage credit =
      Triple-then _ _ (log-Kept env config _) λ _.
        search (kept_rules, log-Kept env config, note_transient_failure-Kept, recheck-Kept) depth 12

  look_for_credit-Kept :
      (trigger : String) (item : Account) (credentials : Credentials) (now : Time)
      (account : AccountState) (usage : Result Usage)
      → Kept (look_for_credit env config trigger item credentials now account usage)
  unfolding look_for_credit update_credit_snapshot
  look_for_credit-Kept trigger item credentials now account usage =
      Triple-then _ _ (send-Kept _ _) λ credits.
        Triple-result _ _ _
          (λ listed.
            Triple-then _ _ (update-Kept env _ λ s h. h)
              λ _. search (kept_rules, weigh-Kept) depth 12)
          λ cause. search (kept_rules, note_transient_failure-Kept) depth 12

  guarded-Kept :
      (trigger : String) (item : Account) (credentials : Credentials) (now : Time) (current : State)
      (account : AccountState) (usage : Result Usage)
      → Kept (guarded env config trigger item credentials now current account usage)
  unfolding guarded
  guarded-Kept trigger item credentials now current account usage =
      search
        (
          kept_rules,
          log-Kept env config,
          retry_local_clear-Kept,
          look_for_credit-Kept,
          resolve_pending-Kept,
        )
        depth 20

  process_account-Kept :
      (trigger : String) (item : Account) → Kept (process_account env config trigger item)
  unfolding process_account process_known snapshot_usage update_usage_snapshot
  process_account-Kept trigger item = Triple-then _ _ (ask-Kept _) λ now.
      Triple-then _ _ (load_state-Kept env) λ loaded. Triple-option _ _ _ (pure-Kept _) λ current _.
        Triple-option _ _ _ (pure-Kept _) λ account _. Triple-then _ _ (send-Kept _ _) λ usage.
          Triple-then _ _ (Triple-result _ _ _ (λ u. update-Kept env _ λ s h. h) λ _. pure-Kept _)
            λ _. guarded-Kept _ _ _ _ _ _ _

  scan_each-Kept :
      (trigger : String) (items : List Account) (summary : ScanSummary)
      → Kept (scan_each env config trigger items summary)
  unfolding scan_each
  scan_each-Kept trigger [] summary = pure-Kept _
  scan_each-Kept trigger (item ∷ items) summary = Triple-then _ _ (ask-Kept _) λ halt.
      Triple-branch _ _ _ (pure-Kept _) (
        Triple-then _ _ (process_account-Kept trigger item)
          λ outcome. scan_each-Kept trigger items (tally outcome summary))

  finish-Kept : (summary : ScanSummary) → Kept (finish env config summary)
  finish-Kept summary = update-Kept env _ λ s h. finish_scan-LogsBounded summary s

  give_up-Kept :
      (summary : ScanSummary) (message : String) (errors : ℕ) (save : Bool)
      → Kept (give_up env config summary message errors save)
  give_up-Kept summary message errors save = search (kept_rules, finish-Kept) depth 12

  scan_locked-Kept : (trigger : String) → Kept (scan_locked env config trigger)
  unfolding scan_locked reconcile
  scan_locked-Kept trigger =
      let reconcile-Kept : (accounts : List Account) (on : Bool) (now : Time)
          → Kept (update env (reconcile accounts on now)) =
        λ accounts on now. update-Kept env _ λ s h. h in
      search
        (kept_rules, log-Kept env config, give_up-Kept, scan_each-Kept, finish-Kept, reconcile-Kept)
        depth 20

  -- Whatever happens during a scan, the log in the state file has at most 500 entries at its end if
  -- it had at its start.
  pub scan-LogsBounded :
      (trigger : String) (w : World)
      → LogsBounded w.disk
      → LogsBounded (scan env config trigger w).1.disk
  unfolding scan
  scan-LogsBounded trigger w h =
      let t : Kept (scan env config trigger) = search (kept_rules, scan_locked-Kept) depth 12 in
      t.run w h
