-- ===== src/Reset/Quiet.antt =====
-- Actions of the engine that spend nothing (internal/reset/engine.go): they keep whatever holds of
-- the calls that went out, as long as calls that only read keep it.
use cpa_codex_auto_reset.Prelude.{ℕ, String, Bool, Option, List, ◌∷◌}
use cpa_codex_auto_reset.Prelude.Time.{Time}
use cpa_codex_auto_reset.Account.{Account}
use cpa_codex_auto_reset.Config.{Config}
use cpa_codex_auto_reset.Codex.{
  Credentials, CodexError, ConsumeCode, ConsumeResult, reset, already_redeemed, nothing_to_reset,
  no_credit, Result,
}
use cpa_codex_auto_reset.State.{State, Attempt, PendingLocalClear, LogEntry, ScanSummary}
use cpa_codex_auto_reset.Reset.Exec.{
  Env, World, Call, consume_request, ask, send, ◌>>=◌, try_update,
}
use cpa_codex_auto_reset.Reset.Exec.Triple.{
  Triple, Triple-pure, Triple-branch, Triple-option, Triple-result, Triple-then,
}
use cpa_codex_auto_reset.Reset.Engine.{
  log, retry_local_clear, mark_as_ambiguous, bump_verification, fail_attempt,
  note_transient_failure, verify_reset, complete_successful_reset, handle_consume_result,
  answer_spend,
}
use cpa_codex_auto_reset.Reset.Process.{persist}
use cpa_codex_auto_reset.Reset.Scan.{give_up}

abbrev pub IsRead : Call → Type 0
IsRead (consume_request _ _ _ _) = ⊥
IsRead _ = Unit

-- A condition on the calls that a further reading call keeps.
pub record Steady (P : List Call → Type 0) : Type 0 where
  pub keep : (c : Call) (cs : List Call) → IsRead c → P cs → P (c ∷ cs)

abbrev pub Of : (List Call → Type 0) → World → Type 0
Of P w = P w.calls

module _ (P : List Call → Type 0) (steady : Steady P) where
  pub quiet_ask : {A : Type 0} (f : ℕ → A) → Triple (Of P) (Of P) (ask f)
  unfolding ◌>>=◌
  quiet_ask f = record { run = λ w h. h }

  pub quiet_send : {A : Type 0} (c : Call) (f : ℕ → A) → IsRead c → Triple (Of P) (Of P) (send c f)
  unfolding ◌>>=◌
  quiet_send c f r = record { run = λ w h. steady.keep c w.calls r h }

  pub quiet_update :
      (env : Env) (change : State → Option State) → Triple (Of P) (Of P) (try_update env change)
  unfolding try_update
  quiet_update env change = record { run = λ w h. h }

  ruleset quiet_rules = (
    Triple-branch, Triple-option, Triple-result, Triple-then, Triple-pure, quiet_ask, quiet_send,
    quiet_update,
  )

  module _ (env : Env) (config : Config) where
    pub retry_local_clear-quiet :
        (trigger : String) (item : Account) (pending : PendingLocalClear)
        → Triple (Of P) (Of P) (retry_local_clear env config trigger item pending)
    unfolding retry_local_clear
    retry_local_clear-quiet trigger item pending = search (quiet_rules, tt) depth 12

    pub mark_as_ambiguous-quiet :
        (ref trigger : String) (attempt : Attempt) (cause : CodexError)
        → Triple (Of P) (Of P) (mark_as_ambiguous env config ref trigger attempt cause)
    unfolding mark_as_ambiguous
    mark_as_ambiguous-quiet ref trigger attempt cause = search quiet_rules depth 12

    pub bump_verification-quiet :
        (ref : String) (attempt : Attempt) (reason : String)
        → Triple (Of P) (Of P) (bump_verification env config ref attempt reason)
    unfolding bump_verification
    bump_verification-quiet ref attempt reason = search quiet_rules depth 12

    pub fail_attempt-quiet :
        (ref trigger mark outcome : String) (tombstone : Bool) (credit_id : String)
        → Triple
            (Of P)
            (Of P)
            (fail_attempt env config ref trigger mark outcome tombstone credit_id)
    unfolding fail_attempt
    fail_attempt-quiet ref trigger mark outcome tombstone credit_id = search quiet_rules depth 12

    pub note_transient_failure-quiet :
        (ref trigger code mark : String) (cause : CodexError)
        → Triple (Of P) (Of P) (note_transient_failure env config ref trigger code mark cause)
    unfolding note_transient_failure
    note_transient_failure-quiet ref trigger code mark cause = search quiet_rules depth 12

    pub verify_reset-quiet :
        (credentials : Credentials) (attempt : Attempt)
        → Triple (Of P) (Of P) (verify_reset env config credentials attempt)
    unfolding verify_reset
    verify_reset-quiet credentials attempt = search (quiet_rules, tt) depth 12

    pub complete_successful_reset-quiet :
        (trigger : String) (item : Account) (credentials : Credentials) (attempt : Attempt)
        (outcome : String)
        → Triple
            (Of P)
            (Of P)
            (complete_successful_reset env config trigger item credentials attempt outcome)
    unfolding complete_successful_reset
    complete_successful_reset-quiet trigger item credentials attempt outcome =
        search (quiet_rules, verify_reset-quiet, retry_local_clear-quiet) depth 12

    pub handle_consume_result-quiet :
        (trigger : String) (item : Account) (credentials : Credentials) (attempt : Attempt)
        (code : ConsumeCode)
        → Triple
            (Of P)
            (Of P)
            (handle_consume_result env config trigger item credentials attempt code)
    unfolding handle_consume_result
    handle_consume_result-quiet trigger item credentials attempt reset =
        search complete_successful_reset-quiet
    handle_consume_result-quiet trigger item credentials attempt already_redeemed =
        search complete_successful_reset-quiet
    handle_consume_result-quiet trigger item credentials attempt nothing_to_reset =
        search (quiet_rules, fail_attempt-quiet)
    handle_consume_result-quiet trigger item credentials attempt no_credit =
        search (quiet_rules, fail_attempt-quiet)

    pub answer_spend-quiet :
        (trigger : String) (item : Account) (credentials : Credentials) (attempt : Attempt)
        (answer : Result ConsumeResult)
        → Triple (Of P) (Of P) (answer_spend env config trigger item credentials attempt answer)
    unfolding answer_spend
    answer_spend-quiet trigger item credentials attempt answer =
        search (quiet_rules, mark_as_ambiguous-quiet, handle_consume_result-quiet) depth 12

    pub log-quiet : (entry : LogEntry) → Triple (Of P) (Of P) (log env config entry)
    log-quiet entry = search quiet_rules

    pub give_up-quiet :
        (summary : ScanSummary) (message : String) (errors : ℕ) (save : Bool)
        → Triple (Of P) (Of P) (give_up env config summary message errors save)
    give_up-quiet summary message errors save = search quiet_rules depth 12

    pub persist-quiet :
        (ref trigger : String) (attempt : Attempt) (now : Time)
        → Triple (Of P) (Of P) (persist env config ref trigger attempt now)
    unfolding persist try_update
    persist-quiet ref trigger attempt now = record { run = λ w h. h }
