-- ===== src/Examples/Engine.antt =====
-- Runs of the engine (internal/reset/engine.go).
use cpa_codex_auto_reset.Prelude.{inr, ◌+◌, ◌≢◌, insert, arith}
use cpa_codex_auto_reset.Prelude.Int.{pos}
use cpa_codex_auto_reset.Prelude.Time.{hour}
use cpa_codex_auto_reset.Codex.{Credit}
use cpa_codex_auto_reset.State.{State}
use cpa_codex_auto_reset.State.Logs.{LogsBounded}
use cpa_codex_auto_reset.Reset.LogBound.Process.{scan-LogsBounded}
use cpa_codex_auto_reset.Reset.Attempts.Tombstones.{apply_failure_buries}
use cpa_codex_auto_reset.Reset.Updates.{apply_failure}
use cpa_codex_auto_reset.Reset.Gate.Cooldown.{complete_reset_prevents_spending}
use cpa_codex_auto_reset.Examples.{attempt, open_state}
use cpa_codex_auto_reset.Prelude.{◌≡◌, ◌↔◌, refl, true, false, none, some, [], ◌∷◌, lookup, modify}
use cpa_codex_auto_reset.Codex.{ok, percent}
use cpa_codex_auto_reset.State.{AccountState, append_log}
use cpa_codex_auto_reset.Prelude.Text.{short_hash, format_int, join}
use cpa_codex_auto_reset.Reset.Backoff.{backoff_duration, transient_backoff}
use cpa_codex_auto_reset.Reset.Attempts.{
  uuid_v4, fingerprint, event_for_success, hash_credit_id, first_usable_credit, new_attempt,
}
use cpa_codex_auto_reset.Reset.Updates.{persist_attempt, complete_reset}
use cpa_codex_auto_reset.Reset.Housekeeping.{
  clear_succeeded, update_credit_snapshot, update_usage_snapshot,
}
use cpa_codex_auto_reset.Reset.Exec.{
  ◌>>=◌, branch, on_option, on_result, interfere, load_state, try_update,
}
use cpa_codex_auto_reset.Reset.Engine.{
  is_outside, is_deferred, retry_local_clear, verify_reset, complete_successful_reset,
  handle_consume_result, answer_spend, spend,
}
use cpa_codex_auto_reset.Reset.Process.{
  process_account, process_known, guarded, snapshot_usage, look_for_credit, weigh, recheck,
  start_attempt, persist_and_spend, persist,
}
use cpa_codex_auto_reset.Reset.Scan.{scan}
use cpa_codex_auto_reset.Reset.WriteAhead.{AllBacked}
use cpa_codex_auto_reset.Reset.WriteAhead.Process.{process_account_write_ahead}
use cpa_codex_auto_reset.Reset.Gate.{
  spends, IsReady, HasReason, WorthSpending, tests_iff_WorthSpending,
}
use cpa_codex_auto_reset.Reset.Gate.Steps.{AtMostOne}
use cpa_codex_auto_reset.Reset.Gate.Process.{process_account-spends}
use cpa_codex_auto_reset.Examples.{
  item, settings, full_usage, credit, calm, start, fresh, noon, ready,
}

process_account_write_ahead_example :
    AllBacked (process_account calm settings "manual" item start).1
process_account_write_ahead_example =
    process_account_write_ahead calm settings "manual" item start tt

process_account-spends_example :
    AtMostOne
      (λ id.
        (account : AccountState) × (lookup "acct" fresh.accounts ≡ some account)
        × IsReady noon item fresh account
        × HasReason calm settings noon account (ok full_usage) id)
      []
      (process_account calm settings "manual" item start).1
unfolding interfere
process_account-spends_example = process_account-spends calm settings "manual" item start

tests_iff_WorthSpending_example :
    ((is_outside credit false noon ≡ false) × (is_deferred settings credit full_usage noon ≡ false))
    ↔ WorthSpending settings credit full_usage noon
tests_iff_WorthSpending_example = tests_iff_WorthSpending settings credit full_usage noon

-- The run does spend the credit, and the account is then cooling down.
spends_once : spends (process_account calm settings "manual" item start).1.calls ≡ "credit-1" ∷ []
unfolding process_account process_known guarded snapshot_usage look_for_credit weigh recheck
    start_attempt persist_and_spend persist load_state try_update interfere on_option on_result
    branch ◌>>=◌ lookup update_usage_snapshot update_credit_snapshot modify append_log
    first_usable_credit hash_credit_id short_hash fingerprint new_attempt uuid_v4 persist_attempt
    spend answer_spend handle_consume_result complete_successful_reset verify_reset complete_reset
    retry_local_clear clear_succeeded backoff_duration transient_backoff event_for_success
    format_int percent join
spends_once = refl

scan-LogsBounded_example : LogsBounded (scan calm settings "manual" start).1.disk
scan-LogsBounded_example = scan-LogsBounded calm settings "manual" start (omega arith)

abbrev completed : State
completed =
    elim (complete_reset "acct" "1" "manual" attempt "reset_verified" noon (noon + hour)
      open_state) [ none ↦ fresh | some s ↦ s ]

-- The local clear is confirmed at once.
abbrev cleared : State
cleared = clear_succeeded "acct" "manual" noon completed

complete_reset_prevents_spending_example :
    spends (process_account calm settings "manual" item (record start { disk = cleared })).1.calls
    ≡ []
unfolding complete_reset lookup modify append_log clear_succeeded
complete_reset_prevents_spending_example =
    complete_reset_prevents_spending calm settings "manual" "manual" item attempt "reset_verified"
      noon (noon + hour) noon open_state completed (record start { disk = cleared }) refl (inr refl)
      (omega arith)

abbrev buried : State
buried =
    apply_failure (λ s. s) "acct" "manual" "mark" "no_credit" true "credit-1" noon (pos hour)
      open_state

abbrev buried_account : AccountState
buried_account = elim (lookup "acct" buried.accounts) [ none ↦ ready | some a ↦ a ]

abbrev other_credit : Credit
other_credit = record credit { id = "credit-2" }

apply_failure_buries_example : other_credit.id ≢ "credit-1"
unfolding apply_failure lookup modify append_log insert first_usable_credit hash_credit_id
    short_hash
apply_failure_buries_example =
    apply_failure_buries (λ s. s) "acct" "manual" "mark" "no_credit" "credit-1" noon (pos hour)
      open_state buried_account (credit ∷ other_credit ∷ []) refl refl other_credit refl

abbrev persisted : State
persisted = elim (persist_attempt true "acct" "manual" attempt noon fresh) [
  | none ↦ fresh
  | some s ↦ s
]
