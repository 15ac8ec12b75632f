-- ===== src/Reset/Updates/Pending.antt =====
-- What the engine's updates do to the pending attempt of every account
-- (internal/reset/engine.go).
use cpa_codex_auto_reset.Prelude.{
  String, ◌==◌, ◌≡◌, refl, Bool, true, false, Option, none, some, arith, eq_iff, lookup,
  lookup-modify, if◌then◌else◌,
}
use cpa_codex_auto_reset.Prelude.Time.{Time, Duration}
use cpa_codex_auto_reset.Codex.{Usage, CreditList}
use cpa_codex_auto_reset.State.{
  State, AccountState, Attempt, LogEntry, PendingLocalClear, append_log,
}
use cpa_codex_auto_reset.Reset.Updates.{
  persist_attempt, is_pending, verified_again, mark_ambiguous, bump_pending_verification,
  apply_failure, record_transient_failure, complete_reset,
}
use cpa_codex_auto_reset.Reset.Housekeeping.{
  clear_succeeded, clear_failed, update_credit_snapshot, update_usage_snapshot,
}

abbrev pub attempt_of : Option AccountState → Option Attempt
attempt_of none = none
attempt_of (some a) = a.pending_attempt

-- `current.Accounts[ref].PendingAttempt`, nil where the account is
abbrev pub pending_of : State → String → Option Attempt
pending_of s ref = attempt_of (lookup ref s.accounts)

module _ (s : State) (j : String) where
  pub pending_of-append_log :
      (entry : LogEntry) → pending_of (append_log entry s) j ≡ pending_of s j
  unfolding append_log
  pending_of-append_log entry = refl

  pub pending_of-update_usage_snapshot :
      (ref : String) (usage : Usage) (now : Time)
      → pending_of (update_usage_snapshot ref usage now s) j ≡ pending_of s j
  unfolding update_usage_snapshot
  pending_of-update_usage_snapshot ref usage now = rw lookup-modify (ground arith)

  pub pending_of-update_credit_snapshot :
      (ref : String) (credits : CreditList) (now : Time)
      → pending_of (update_credit_snapshot ref credits now s) j ≡ pending_of s j
  unfolding update_credit_snapshot
  pending_of-update_credit_snapshot ref credits now = rw lookup-modify (ground arith)

  -- A transient failure keeps every pending attempt.
  pub pending_of-record_transient_failure :
      (ref trigger code mark : String) (now : Time) (delay : Duration)
      → pending_of (record_transient_failure ref trigger code mark now delay s) j ≡ pending_of s j
  unfolding record_transient_failure append_log
  pending_of-record_transient_failure ref trigger code mark now delay =
      grind (arith, lookup-modify, eq_iff ref j)

  pub pending_of-clear_succeeded :
      (ref trigger : String) (now : Time)
      → pending_of (clear_succeeded ref trigger now s) j ≡ pending_of s j
  unfolding clear_succeeded append_log
  pending_of-clear_succeeded ref trigger now = grind (arith, lookup-modify, eq_iff ref j)

  pub pending_of-clear_failed :
      (ref trigger : String) (pending : PendingLocalClear) (auth_failed : Bool) (now next : Time)
      → pending_of (clear_failed ref trigger pending auth_failed now next s) j ≡ pending_of s j
  unfolding clear_failed append_log
  pending_of-clear_failed ref trigger pending true now next =
      grind (arith, lookup-modify, eq_iff ref j)
  pending_of-clear_failed ref trigger pending false now next =
      grind (arith, lookup-modify, eq_iff ref j)

module _ (ref trigger : String) (attempt : Attempt) (now : Time) where
  abbrev pub ambiguous_after : Option Attempt → Option Attempt
  ambiguous_after none = none
  ambiguous_after (some p) =
      if p.idempotency_key == attempt.idempotency_key then some (verified_again p) else some p

  -- An ambiguous answer counts one verification more at the same attempt, and nowhere else.
  pub pending_of-mark_ambiguous :
      (delay : Duration) (s : State) (j : String)
      → pending_of (mark_ambiguous ref trigger attempt now delay s) j
        ≡ (if ref == j then ambiguous_after (pending_of s j) else pending_of s j)
  unfolding mark_ambiguous append_log
  pending_of-mark_ambiguous delay s j = grind (arith, lookup-modify, eq_iff ref j)

  -- So does a failed verification.
  pub pending_of-bump_pending_verification :
      (reason : String) (delay : Duration) (s : State) (j : String)
      → pending_of (bump_pending_verification ref attempt reason now delay s) j
        ≡ (if ref == j then ambiguous_after (pending_of s j) else pending_of s j)
  unfolding bump_pending_verification
  pending_of-bump_pending_verification reason delay s j = grind (arith, lookup-modify, eq_iff ref j)

  -- A confirmed failure drops the attempt of its account, and no other.
  pub pending_of-apply_failure :
      (sha256_hex : String → String) (mark outcome : String) (tombstone : Bool) (credit_id : String)
      (delay : Duration) (s : State) (j : String)
      → pending_of
          (apply_failure sha256_hex ref trigger mark outcome tombstone credit_id now delay s)
          j
        ≡ (if ref == j then none else pending_of s j)
  unfolding apply_failure append_log
  pending_of-apply_failure sha256_hex mark outcome tombstone credit_id delay s j =
      grind (arith, lookup-modify, eq_iff ref j)

  -- A persisted attempt is then the pending attempt of its account, which had none;
  -- the other accounts keep theirs.
  pub pending_of-persist_attempt :
      (active : Bool) (s : State) {s' : State} (j : String)
      → persist_attempt active ref trigger attempt now s ≡ some s'
      → (pending_of s ref ≡ none)
        × (pending_of s' j ≡ (if ref == j then some attempt else pending_of s j))
  unfolding persist_attempt append_log
  pending_of-persist_attempt active s j h =
      (grind arith, grind (arith, lookup-modify, eq_iff ref j))

  -- A completed reset drops the attempt of its account, which is the one that was sent.
  pub pending_of-complete_reset :
      (auth_index outcome : String) (until : Time) (s : State) {s' : State} (j : String)
      → complete_reset ref auth_index trigger attempt outcome now until s ≡ some s'
      → (is_pending attempt (pending_of s ref) ≡ true)
        × (pending_of s' j ≡ (if ref == j then none else pending_of s j))
  unfolding complete_reset append_log
  pending_of-complete_reset auth_index outcome until s j h =
      (grind arith, grind (arith, lookup-modify, eq_iff ref j))
