-- ===== src/Reset/WriteAhead/Actions.antt =====
-- Write-ahead for the engine's actions (internal/reset/engine.go).
use cpa_codex_auto_reset.Prelude.{String, refl, Bool, some, List, ◌∷◌, All}
use cpa_codex_auto_reset.Account.{Account}
use cpa_codex_auto_reset.Config.{Config}
use cpa_codex_auto_reset.Codex.{Credentials, CodexError, ConsumeResult, Result}
use cpa_codex_auto_reset.State.{Attempt, PendingLocalClear}
use cpa_codex_auto_reset.Reset.Exec.{
  Env, ◌>>=◌, Call, usage_request, credits_request, consume_request, clear_request, send,
}
use cpa_codex_auto_reset.Reset.Exec.Triple.{Triple, Triple-then}
use cpa_codex_auto_reset.Reset.Engine.{
  retry_local_clear, bump_verification, fail_attempt, note_transient_failure,
  complete_successful_reset, answer_spend, spend,
}
use cpa_codex_auto_reset.Reset.Quiet.{
  Steady, IsRead, retry_local_clear-quiet, bump_verification-quiet, fail_attempt-quiet,
  note_transient_failure-quiet, complete_successful_reset-quiet, answer_spend-quiet,
}
use cpa_codex_auto_reset.Reset.WriteAhead.{AllBacked, Backed, Holds, send-AllBacked}

Backed-steady : Steady (All Backed)
Backed-steady = record { keep = keeps }
  where
    keeps : (c : Call) (cs : List Call) → IsRead c → All Backed cs → All Backed (c ∷ cs)
    keeps (usage_request _) cs r h = (tt, h)
    keeps (credits_request _) cs r h = (tt, h)
    keeps (consume_request _ _ _ _) cs r h = elim r [ ]
    keeps (clear_request _) cs r h = (tt, h)

module _ (env : Env) (config : Config) where
  pub retry_local_clear-AllBacked :
      (trigger : String) (item : Account) (pending : PendingLocalClear)
      → Triple AllBacked AllBacked (retry_local_clear env config trigger item pending)
  retry_local_clear-AllBacked = retry_local_clear-quiet (All Backed) Backed-steady env config

  pub bump_verification-AllBacked :
      (ref : String) (attempt : Attempt) (reason : String)
      → Triple AllBacked AllBacked (bump_verification env config ref attempt reason)
  bump_verification-AllBacked = bump_verification-quiet (All Backed) Backed-steady env config

  pub fail_attempt-AllBacked :
      (ref trigger mark outcome : String) (tombstone : Bool) (credit_id : String)
      → Triple AllBacked AllBacked
          (fail_attempt env config ref trigger mark outcome tombstone credit_id)
  fail_attempt-AllBacked = fail_attempt-quiet (All Backed) Backed-steady env config

  pub note_transient_failure-AllBacked :
      (ref trigger code mark : String) (cause : CodexError)
      → Triple AllBacked AllBacked (note_transient_failure env config ref trigger code mark cause)
  note_transient_failure-AllBacked =
      note_transient_failure-quiet (All Backed) Backed-steady env config

  pub complete_successful_reset-AllBacked :
      (trigger : String) (item : Account) (credentials : Credentials) (attempt : Attempt)
      (outcome : String)
      → Triple AllBacked AllBacked
          (complete_successful_reset env config trigger item credentials attempt outcome)
  complete_successful_reset-AllBacked =
      complete_successful_reset-quiet (All Backed) Backed-steady env config

  answer_spend-AllBacked :
      (trigger : String) (item : Account) (credentials : Credentials) (attempt : Attempt)
      (answer : Result ConsumeResult)
      → Triple AllBacked AllBacked (answer_spend env config trigger item credentials attempt answer)
  answer_spend-AllBacked = answer_spend-quiet (All Backed) Backed-steady env config

  -- A credit may be spent where the state file holds the attempt.
  pub spend-AllBacked :
      (trigger : String) (item : Account) (credentials : Credentials) (attempt : Attempt)
      → Triple
          (Holds item.ref (some attempt))
          AllBacked
          (spend env config trigger item credentials attempt)
  unfolding spend
  spend-AllBacked trigger item credentials attempt = record {
    run = λ w h.
        let call = consume_request item.ref attempt.credit_id attempt.idempotency_key w.disk in
        let t : Triple AllBacked AllBacked
            (send call env.consume >>= answer_spend env config trigger item credentials attempt) =
          Triple-then _ _ (send-AllBacked call env.consume (attempt, h.pending, refl, refl))
            (answer_spend-AllBacked trigger item credentials attempt) in
        t.run w h.backed;
  }
