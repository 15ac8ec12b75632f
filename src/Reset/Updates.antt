-- ===== src/Reset/Updates.antt =====
-- The functions that the engine passes to `Store.Update` (internal/reset/engine.go). Each takes the
-- values that its closure captures; `none` is a returned error.
pub mod Pending
pub mod Bounded
use cpa_codex_auto_reset.Prelude.{
  ℕ, suc, ◌+◌, ◌*◌, String, ◌==◌, Bool, true, false, not, ◌&&◌, Option, none, some, List, [], ◌∷◌,
  length, lookup, insert, modify, if◌then◌else◌,
}
use cpa_codex_auto_reset.Prelude.Int.{pos}
use cpa_codex_auto_reset.Prelude.Time
use cpa_codex_auto_reset.Prelude.Time.{Time, Duration, minute, after, add, milliseconds}
use cpa_codex_auto_reset.Prelude.Text.{is_empty}
use cpa_codex_auto_reset.Codex.{Usage, CreditList, Credit}
use cpa_codex_auto_reset.State.{
  State, AccountState, Attempt, Cooldown, PendingLocalClear, ScanSummary, LogEntry, no_entry,
  append_log,
}
use cpa_codex_auto_reset.Reset.Attempts.{hash_credit_id, event_for_success}

-- Writes through the pointer `current.Accounts[ref]`, where it is not nil.
abbrev pub modify_account : String → (AccountState → AccountState) → State → State
modify_account ref f s = record s { accounts = modify ref f s.accounts }

-- `persistAttempt`; `active` is what `e.active.Load()` returns inside the closure.
unfoldable pub persist_attempt : Bool → String → String → Attempt → Time → State → Option State
persist_attempt active ref trigger attempt now s =
    if not active then none else elim (lookup ref s.accounts) [
      | none ↦ none
      | some a ↦ if not a.participating then none else elim a.pending_attempt [
        | some _ ↦ none
        | none ↦
            let started = record no_entry {
              time = now;
              event = "reset_attempt_started";
              trigger = trigger;
              account_ref = ref;
              participating = true;
              credit_ref = attempt.credit_ref;
              decision = "consume";
              attempt_id_ref = attempt.attempt_id_ref;
            } in
            let persisted =
              append_log started
                (modify_account ref (λ b. record b { pending_attempt = some attempt }) s) in
            elim a.post_reset_cooldown [
              | none ↦ some persisted
              | some c ↦ if after c.until now then none else some persisted
            ]
      ]
    ]

-- Whether the account still has this attempt pending.
abbrev pub is_pending : Attempt → Option Attempt → Bool
is_pending attempt none = false
is_pending attempt (some p) = p.idempotency_key == attempt.idempotency_key

abbrev pub verified_again : Attempt → Attempt
verified_again p = record p { phase = "ambiguous"; verification_count = p.verification_count + 1 }

-- `accountState.PendingAttempt`, at an account that has one
abbrev with_pending : (Attempt → AccountState → AccountState) → AccountState → AccountState
with_pending f a = elim a.pending_attempt [ none ↦ a | some p ↦ f p a ]

-- `markAmbiguous`
unfoldable pub mark_ambiguous : String → String → Attempt → Time → Duration → State → State
mark_ambiguous ref trigger attempt now delay s = elim (lookup ref s.accounts) [
  | none ↦ s
  | some a ↦
      if not (is_pending attempt a.pending_attempt)
      then s
      else append_log
          (record no_entry {
            time = now;
            event = "reset_ambiguous";
            trigger = trigger;
            account_ref = ref;
            participating = true;
            credit_ref = attempt.credit_ref;
            outcome = "ambiguous";
            attempt_id_ref = attempt.attempt_id_ref;
            next_attempt_at = add now delay;
            error_code = "consume_ambiguous";
          })
          (modify_account ref
            (with_pending λ p b. record b {
              pending_attempt = some (verified_again p);
              failure_backoff = some (record {
                until = add now delay;
                fingerprint = attempt.fingerprint;
                level = p.verification_count + 1;
                reason = "ambiguous";
              });
            })
            s)
]

-- `bumpPendingVerification`
unfoldable pub bump_pending_verification :
    String → Attempt → String → Time → Duration → State → State
bump_pending_verification ref attempt reason now delay s = elim (lookup ref s.accounts) [
  | none ↦ s
  | some a ↦
      if is_pending attempt a.pending_attempt
      then modify_account ref
          (with_pending λ p b. record b {
            pending_attempt = some (verified_again p);
            failure_backoff = some (record {
              until = add now delay;
              fingerprint = attempt.fingerprint;
              level = p.verification_count + 1;
              reason = reason;
            });
            last_result = reason;
          })
          s
      else s
]

abbrev credit_ref_of : Option Attempt → String
credit_ref_of none = ""
credit_ref_of (some p) = p.credit_ref

abbrev attempt_id_ref_of : Option Attempt → String
attempt_id_ref_of none = ""
attempt_id_ref_of (some p) = p.attempt_id_ref

-- `applyFailure`
unfoldable pub apply_failure :
    (String → String)
    → String
    → String
    → String
    → String
    → Bool
    → String
    → Time
    → Duration
    → State
    → State
apply_failure sha256_hex ref trigger fingerprint outcome tombstone credit_id now delay s =
    elim (lookup ref s.accounts) [
      | none ↦ s
      | some a ↦
          append_log
            (record no_entry {
              time = now;
              event = "reset_deferred";
              trigger = trigger;
              account_ref = ref;
              participating = true;
              credit_ref = credit_ref_of a.pending_attempt;
              decision = "backoff";
              outcome = outcome;
              attempt_id_ref = attempt_id_ref_of a.pending_attempt;
              next_attempt_at = add now delay;
              error_code = outcome;
            })
            (modify_account ref
              (λ b. record b {
                pending_attempt = none;
                failure_backoff = some (record {
                  until = add now delay;
                  fingerprint = fingerprint;
                  level = 1;
                  reason = outcome;
                });
                last_fingerprint = fingerprint;
                last_result = outcome;
                last_error_code = outcome;
                tombstones =
                    if tombstone && not (is_empty credit_id)
                    then insert (hash_credit_id sha256_hex credit_id) now b.tombstones
                    else b.tombstones;
              })
              s)
    ]

-- `recordTransientFailure`
unfoldable pub record_transient_failure :
    String → String → String → String → Time → Duration → State → State
record_transient_failure ref trigger code fingerprint now delay s = elim (lookup ref s.accounts) [
  | none ↦ s
  | some a ↦
      append_log
        (record no_entry {
          time = now;
          event = "reset_deferred";
          trigger = trigger;
          account_ref = ref;
          participating = true;
          decision = "transient_backoff";
          next_attempt_at = add now delay;
          error_code = code;
        })
        (modify_account ref
          (λ b. record b {
            failure_backoff = some (record {
              until = add now delay;
              fingerprint = fingerprint;
              level = 1;
              reason = code;
            });
            last_error_code = code;
          })
          s)
]

-- The closure of `completeSuccessfulReset`.
unfoldable pub complete_reset :
    String → String → String → Attempt → String → Time → Time → State → Option State
complete_reset ref auth_index trigger attempt outcome now cooldown_until s =
    elim (lookup ref s.accounts) [
      | none ↦ none
      | some a ↦
          if not (is_pending attempt a.pending_attempt)
          then none
          else some (
              append_log
                (record no_entry {
                  time = now;
                  event = event_for_success outcome;
                  trigger = trigger;
                  account_ref = ref;
                  participating = true;
                  credit_ref = attempt.credit_ref;
                  outcome = outcome;
                  attempt_id_ref = attempt.attempt_id_ref;
                  next_attempt_at = cooldown_until;
                })
                (modify_account ref
                  (λ b. record b {
                    pending_attempt = none;
                    post_reset_cooldown =
                        some (record { until = cooldown_until; reason = outcome });
                    failure_backoff = none;
                    last_fingerprint = attempt.fingerprint;
                    last_result = outcome;
                    last_error_code = "";
                    pending_local_clear = some (record {
                      auth_index = auth_index;
                      created_at = now;
                      next_retry_at = now;
                      attempts = 0;
                    });
                  })
                  s))
    ]
