-- ===== src/Reset/Updates/Bounded.antt =====
-- The length of the log through the engine's updates (internal/reset/engine.go).
use cpa_codex_auto_reset.Prelude.{String, ◌≡◌, Bool, some, arith}
use cpa_codex_auto_reset.Prelude.Time.{Time, Duration}
use cpa_codex_auto_reset.State.{State, Attempt, PendingLocalClear, ScanSummary}
use cpa_codex_auto_reset.State.Logs.{LogsBounded, append_log-LogsBounded}
use cpa_codex_auto_reset.Reset.Updates.{
  persist_attempt, mark_ambiguous, bump_pending_verification, apply_failure,
  record_transient_failure, complete_reset,
}
use cpa_codex_auto_reset.Reset.Housekeeping.{clear_succeeded, clear_failed, finish_scan}

module _ (s : State) (bounded : LogsBounded s) where
  pub mark_ambiguous-LogsBounded :
      (ref trigger : String) (attempt : Attempt) (now : Time) (delay : Duration)
      → LogsBounded (mark_ambiguous ref trigger attempt now delay s)
  unfolding mark_ambiguous
  mark_ambiguous-LogsBounded ref trigger attempt now delay = grind (arith, append_log-LogsBounded)

  pub bump_pending_verification-LogsBounded :
      (ref : String) (attempt : Attempt) (reason : String) (now : Time) (delay : Duration)
      → LogsBounded (bump_pending_verification ref attempt reason now delay s)
  unfolding bump_pending_verification
  bump_pending_verification-LogsBounded ref attempt reason now delay = ground arith

  pub apply_failure-LogsBounded :
      (sha256_hex : String → String) (ref trigger mark outcome : String) (tombstone : Bool)
      (credit_id : String) (now : Time) (delay : Duration)
      → LogsBounded
          (apply_failure sha256_hex ref trigger mark outcome tombstone credit_id now delay s)
  unfolding apply_failure
  apply_failure-LogsBounded sha256_hex ref trigger mark outcome tombstone credit_id now delay =
      grind (arith, append_log-LogsBounded)

  pub record_transient_failure-LogsBounded :
      (ref trigger code mark : String) (now : Time) (delay : Duration)
      → LogsBounded (record_transient_failure ref trigger code mark now delay s)
  unfolding record_transient_failure
  record_transient_failure-LogsBounded ref trigger code mark now delay =
      grind (arith, append_log-LogsBounded)

  pub clear_succeeded-LogsBounded :
      (ref trigger : String) (now : Time) → LogsBounded (clear_succeeded ref trigger now s)
  unfolding clear_succeeded
  clear_succeeded-LogsBounded ref trigger now = grind (arith, append_log-LogsBounded)

  pub clear_failed-LogsBounded :
      (ref trigger : String) (pending : PendingLocalClear) (auth_failed : Bool) (now next : Time)
      → LogsBounded (clear_failed ref trigger pending auth_failed now next s)
  unfolding clear_failed
  clear_failed-LogsBounded ref trigger pending auth_failed now next =
      grind (arith, append_log-LogsBounded)

  pub persist_attempt-LogsBounded :
      (active : Bool) (ref trigger : String) (attempt : Attempt) (now : Time) {s' : State}
      → persist_attempt active ref trigger attempt now s ≡ some s'
      → LogsBounded s'
  unfolding persist_attempt
  persist_attempt-LogsBounded active ref trigger attempt now h =
      grind (arith, append_log-LogsBounded)

  pub complete_reset-LogsBounded :
      (ref auth_index trigger : String) (attempt : Attempt) (outcome : String) (now until : Time)
      {s' : State}
      → complete_reset ref auth_index trigger attempt outcome now until s ≡ some s'
      → LogsBounded s'
  unfolding complete_reset
  complete_reset-LogsBounded ref auth_index trigger attempt outcome now until h =
      grind (arith, append_log-LogsBounded)

pub finish_scan-LogsBounded :
    (summary : ScanSummary) (s : State) → LogsBounded (finish_scan summary s)
unfolding finish_scan
finish_scan-LogsBounded summary s = append_log-LogsBounded _ _
