-- ===== src/Reset/WriteAhead/Steps.antt =====
-- Write-ahead for the steps of `processAccount` that may spend (internal/reset/engine.go).
use cpa_codex_auto_reset.Prelude.{
  ℕ, String, Bool, false, Option, some, arith, eq_iff, Bool-cases, inl, inr,
}
use cpa_codex_auto_reset.Prelude.Time.{Time}
use cpa_codex_auto_reset.Account.{Account}
use cpa_codex_auto_reset.Config.{Config}
use cpa_codex_auto_reset.Codex.{Credentials, Usage, Credit, Result}
use cpa_codex_auto_reset.State.{AccountState, Attempt}
use cpa_codex_auto_reset.Reset.Updates.{persist_attempt}
use cpa_codex_auto_reset.Reset.Updates.Pending.{pending_of-persist_attempt}
use cpa_codex_auto_reset.Reset.Exec.{Env, pure, branch, ◌>>=◌, ◌>>◌, try_update}
use cpa_codex_auto_reset.Reset.Exec.Triple.{
  Triple, Triple-branch, Triple-result, Triple-then, Triple-last,
}
use cpa_codex_auto_reset.Reset.Engine.{bump_verification, fail_attempt, complete_successful_reset}
use cpa_codex_auto_reset.Reset.Process.{
  resolve_pending, persist, persist_and_spend, start_attempt, recheck, weigh, look_for_credit,
}
use cpa_codex_auto_reset.Reset.WriteAhead.{
  AllBacked, Holds, backed_rules, ask-Holds, send-Holds, forget-Holds, try_update_done,
  try_update-AllBacked,
}
use cpa_codex_auto_reset.Reset.WriteAhead.Actions.{
  bump_verification-AllBacked, fail_attempt-AllBacked, note_transient_failure-AllBacked,
  complete_successful_reset-AllBacked, spend-AllBacked,
}

module _ (env : Env) (config : Config) where
  module _ (ref : String) (p : Option Attempt) where
    pure_after : (a : Bool) → Triple (Holds ref p) AllBacked (pure a)
    pure_after a = forget-Holds _ (search backed_rules)

    bump_after :
        (attempt : Attempt) (reason : String)
        → Triple
            (Holds ref p)
            AllBacked
            (bump_verification env config ref attempt reason >> pure false)
    bump_after attempt reason = forget-Holds _ (search (backed_rules, bump_verification-AllBacked))

    fail_after :
        (trigger mark outcome : String) (tombstone : Bool) (credit_id : String)
        → Triple
            (Holds ref p)
            AllBacked
            (fail_attempt env config ref trigger mark outcome tombstone credit_id >> pure false)
    fail_after trigger mark outcome tombstone credit_id =
        forget-Holds _ (search (backed_rules, fail_attempt-AllBacked))

    complete_after :
        (trigger : String) (item : Account) (credentials : Credentials) (attempt : Attempt)
        (outcome : String)
        → Triple
            (Holds ref p)
            AllBacked
            (complete_successful_reset env config trigger item credentials attempt outcome)
    complete_after trigger item credentials attempt outcome =
        forget-Holds _
          (complete_successful_reset-AllBacked env config trigger item credentials attempt outcome)

  pub resolve_pending-AllBacked :
      (trigger : String) (item : Account) (credentials : Credentials) (attempt : Attempt)
      → Triple
          (Holds item.ref (some attempt))
          AllBacked
          (resolve_pending env config trigger item credentials attempt)
  unfolding resolve_pending
  resolve_pending-AllBacked trigger item credentials attempt = Triple-then _ _ (ask-Holds _) λ now.
      Triple-then _ _ (send-Holds _ _ tt) λ credits.
        Triple-result _ _ _
          (λ listed. Triple-then _ _ (send-Holds _ _ tt) λ usage.
            Triple-result _ _ _
              (λ _. Triple-branch _ _ _ (complete_after _ _ _ item _ _ _) (
                Triple-branch _ _ _ (fail_after _ _ _ _ _ _ _) (
                  Triple-then _ _ (ask-Holds _) λ halt. Triple-branch _ _ _ (pure_after _ _ _) (
                    Triple-last _ _ (spend-AllBacked env config trigger item credentials attempt)
                      λ answer. search backed_rules))))
              (λ _. bump_after _ _ _ _))
          (λ _. bump_after _ _ _ _)

  -- An attempt that was written down without an error is the pending one.
  persist_and_spend-AllBacked :
      (trigger : String) (item : Account) (credentials : Credentials) (now : Time)
      (attempt : Attempt)
      → Triple AllBacked AllBacked
          (persist_and_spend env config trigger item credentials now attempt)
  unfolding persist_and_spend persist branch ◌>>=◌
  persist_and_spend-AllBacked trigger item credentials now attempt = record {
    run = λ w h.
        let change = persist_attempt (env.active w.tick) item.ref trigger attempt now in
        elim (Bool-cases (try_update env change w).0) [
          | inl saved ↦
              let done = try_update_done env change w saved in
              let held : Holds item.ref (some attempt) (try_update env change w).1 = record {
                backed = (try_update-AllBacked env change).run w h;
                pending = ground (
                  arith,
                  eq_iff item.ref item.ref,
                  (pending_of-persist_attempt item.ref trigger attempt now (env.active w.tick) _
                      item.ref done).1,
                );
              } in
              rw saved ((spend-AllBacked env config trigger item credentials attempt).run _ held)
          | inr failed ↦ rw failed ((try_update-AllBacked env change).run w h)
        ];
  }

  start_attempt-AllBacked :
      (trigger : String) (item : Account) (credentials : Credentials) (now : Time) (usage : Usage)
      (credit : Credit) (mark : String) (available_count : ℕ)
      → Triple AllBacked AllBacked
          (start_attempt env config trigger item credentials now usage credit mark available_count)
  unfolding start_attempt
  start_attempt-AllBacked trigger item credentials now usage credit mark available_count =
      search (backed_rules, persist_and_spend-AllBacked) depth 12

  recheck-AllBacked :
      (trigger : String) (item : Account) (credentials : Credentials) (now : Time)
      (account : AccountState) (usage : Usage) (credit : Credit)
      → Triple AllBacked AllBacked
          (recheck env config trigger item credentials now account usage credit)
  unfolding recheck
  recheck-AllBacked trigger item credentials now account usage credit =
      search (backed_rules, tt, note_transient_failure-AllBacked, start_attempt-AllBacked) depth 12

  weigh-AllBacked :
      (trigger : String) (item : Account) (credentials : Credentials) (now : Time)
      (account : AccountState) (usage : Result Usage) (credit : Credit)
      → Triple AllBacked AllBacked
          (weigh env config trigger item credentials now account usage credit)
  unfolding weigh
  weigh-AllBacked trigger item credentials now account usage credit =
      search (backed_rules, note_transient_failure-AllBacked, recheck-AllBacked) depth 12

  pub look_for_credit-AllBacked :
      (trigger : String) (item : Account) (credentials : Credentials) (now : Time)
      (account : AccountState) (usage : Result Usage)
      → Triple AllBacked AllBacked
          (look_for_credit env config trigger item credentials now account usage)
  unfolding look_for_credit
  look_for_credit-AllBacked trigger item credentials now account usage =
      search (backed_rules, tt, note_transient_failure-AllBacked, weigh-AllBacked) depth 12
