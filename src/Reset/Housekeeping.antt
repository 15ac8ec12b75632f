-- ===== src/Reset/Housekeeping.antt =====
-- The other closures that the engine passes to `Store.Update` (internal/reset/engine.go): the local
-- clear, the end of a scan and the snapshots.
use cpa_codex_auto_reset.Prelude.{
  ℕ, ◌+◌, ◌*◌, String, Bool, true, none, some, List, [], ◌∷◌, length, lookup, if◌then◌else◌,
}
use cpa_codex_auto_reset.Prelude.Int.{pos}
use cpa_codex_auto_reset.Prelude.Time
use cpa_codex_auto_reset.Prelude.Time.{Time, Duration, minute, after, add, milliseconds}
use cpa_codex_auto_reset.Codex.{Usage, CreditList, Credit}
use cpa_codex_auto_reset.State.{State, PendingLocalClear, ScanSummary, no_entry, append_log}
use cpa_codex_auto_reset.Reset.Updates.{modify_account}

-- The first closure of `retryLocalClear`, after the host has cleared its cooldown.
unfoldable pub clear_succeeded : String → String → Time → State → State
clear_succeeded ref trigger now s = elim (lookup ref s.accounts) [
  | none ↦ s
  | some a ↦
      append_log
        (record no_entry {
          time = now;
          event = "reset_succeeded";
          trigger = trigger;
          account_ref = ref;
          participating = true;
          decision = "local_cooldown_cleared";
          outcome = a.last_result;
        })
        (modify_account ref (λ b. record b { pending_local_clear = none }) s)
]

abbrev pub management_auth_cooldown : ℕ
management_auth_cooldown = 10 * minute

-- The second closure of `retryLocalClear`; `auth_failed` is whether the error is an HTTP error with
-- status 401 or 403.
unfoldable pub clear_failed :
    String → String → PendingLocalClear → Bool → Time → Time → State → State
clear_failed ref trigger pending auth_failed now next s = elim (lookup ref s.accounts) [
  | none ↦ s
  | some a ↦
      let kept =
        modify_account ref
          (λ b. record b {
            pending_local_clear =
                some (record pending { next_retry_at = next; attempts = pending.attempts + 1 });
          })
          s in
      append_log
        (record no_entry {
          time = now;
          event = "local_cooldown_clear_pending";
          trigger = trigger;
          account_ref = ref;
          participating = true;
          decision = "retry";
          next_attempt_at = next;
          error_code = "local_clear_failed";
        })
        (if auth_failed
          then record kept {
            management_cooldown = some (record {
              until = add now (pos management_auth_cooldown);
              reason = "management_auth_failed";
            });
          }
          else kept)
]

-- The closure of `finishScan`
unfoldable pub finish_scan : ScanSummary → State → State
finish_scan summary s =
    append_log
      (record no_entry {
        time = summary.finished_at;
        event = "scan_completed";
        trigger = summary.trigger;
        duration_ms = milliseconds (Time.sub summary.finished_at summary.started_at);
        error_code = summary.error;
      })
      (record s { last_scan = summary })

abbrev earliest : List Credit → Time
earliest [] = Time.zero_time
earliest (c ∷ _) = c.expires_at

-- The closure of `updateCreditSnapshot`
unfoldable pub update_credit_snapshot : String → CreditList → Time → State → State
update_credit_snapshot ref credits now = modify_account ref λ b. record b {
  available_credits = length credits.available;
  earliest_expires_at = earliest credits.available;
  last_scanned_at = now;
  last_error_code = "";
}

-- The closure of `updateUsageSnapshot`
unfoldable pub update_usage_snapshot : String → Usage → Time → State → State
update_usage_snapshot ref usage now = modify_account ref λ b. record b {
  used_percent = usage.used_percent;
  blocked = usage.blocked;
  last_scanned_at = now;
  last_error_code = "";
}
