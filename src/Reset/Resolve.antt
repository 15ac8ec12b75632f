-- ===== src/Reset/Resolve.antt =====
-- An account's pending attempt across the engine's actions, where the services are well
-- (internal/reset/engine.go: `resolvePending` and what it calls).
pub mod Rounds
use cpa_codex_auto_reset.Prelude.{
  ℕ, zero, suc, ◌+◌, ◌≤◌, String, ◌≡◌, ◌⊎◌, ◌∙◌, refl, ap, Bool, true, false, Option, none, some,
  arith, eq_iff, inl, inr, Option-cases,
}
use cpa_codex_auto_reset.Prelude.Time.{Time}
use cpa_codex_auto_reset.Account.{Account}
use cpa_codex_auto_reset.Config.{Config}
use cpa_codex_auto_reset.Codex.{
  Credentials, Usage, CreditList, CodexError, ConsumeCode, ok, reset, already_redeemed,
  nothing_to_reset, no_credit,
}
use cpa_codex_auto_reset.State.{State, Attempt, PendingLocalClear, append_log}
use cpa_codex_auto_reset.Reset.Updates.{verified_again, complete_reset}
use cpa_codex_auto_reset.Reset.Updates.Pending.{
  pending_of, pending_of-clear_succeeded, pending_of-clear_failed, pending_of-mark_ambiguous,
  pending_of-apply_failure, pending_of-complete_reset,
}
use cpa_codex_auto_reset.Reset.WriteAhead.{pending_of-interfere}
use cpa_codex_auto_reset.Reset.Exec.{
  Env, World, Call, consume_request, no_fault, pure, ask, send, ◌>>=◌, ◌>>◌, interfere, try_update,
  update,
}
use cpa_codex_auto_reset.Reset.Exec.Triple.{
  Triple, Triple-pure, Triple-branch, Triple-option, Triple-result, Triple-then, Triple-bind,
  Triple-decide, Triple-ensure, Triple-answer, Triple-answered, Triple-asked,
}
use cpa_codex_auto_reset.Reset.Engine.{
  maximum_verification_tries, retry_local_clear, mark_as_ambiguous, fail_attempt, verify_reset,
  complete_successful_reset, handle_consume_result, answer_spend, spend,
}
use cpa_codex_auto_reset.Reset.Process.{resolve_pending}

-- The state file can be read and written, the engine runs on, and both lists can be read. What
-- `Consume` and the local clear answer, and what other goroutines write, stays open.
pub record Healthy (env : Env) : Type 0 where
  pub readable : (k : ℕ) → env.readable k ≡ true
  pub writable : (k : ℕ) → env.fault k ≡ no_fault
  pub active : (k : ℕ) → env.active k ≡ true
  pub uncancelled : (k : ℕ) → env.cancelled k ≡ false
  pub credits : (k : ℕ) → (c : CreditList) × (env.credits k ≡ ok c)
  pub usage : (k : ℕ) → (u : Usage) × (env.usage k ≡ ok u)

module _ (ref : String) where
  -- The account's pending attempt in the state file.
  abbrev pub Has : Option Attempt → World → Type 0
  Has p w = pending_of w.disk ref ≡ p

  module _ {A : Type 0} (p : Option Attempt) where
    pub ask-Has : (f : ℕ → A) → Triple (Has p) (Has p) (ask f)
    unfolding ◌>>=◌
    ask-Has f = record { run = λ w h. h }

    pub send-Has : (c : Call) (f : ℕ → A) → Triple (Has p) (Has p) (send c f)
    unfolding ◌>>=◌
    send-Has c f = record { run = λ w h. h }

    pub pure-Has : (a : A) → Triple (Has p) (Has p) (pure a)
    pure-Has a = Triple-pure a λ w h. h

  module _ (env : Env) (healthy : Healthy env) (p q : Option Attempt) where
    pub try_update-Has :
        (change : State → Option State)
        → ((s : State)
            → pending_of s ref ≡ p
            → (s' : State) × (change s ≡ some s') × (pending_of s' ref ≡ q))
        → Triple (Has p) (Has q) (try_update env change)
    unfolding try_update
    try_update-Has change changes = record {
      run = λ w h.
          let s = interfere (env.others w.tick) w.disk in
          let (s', e, new) = changes s (pending_of-interfere (env.others w.tick) w.disk ref ∙ h) in
          ground (arith, healthy.readable w.tick, healthy.writable w.tick, e, new);
    }

    update-Has :
        (change : State → State)
        → ((s : State) → pending_of s ref ≡ p → pending_of (change s) ref ≡ q)
        → Triple (Has p) (Has q) (update env change)
    update-Has change changes = try_update-Has _ λ s h. (change s, refl, changes s h)

  module _ (env : Env) (config : Config) (healthy : Healthy env) where
    pub retry_local_clear-Has :
        (p : Option Attempt) (trigger : String) (item : Account) (pending : PendingLocalClear)
        → Triple (Has p) (Has p) (retry_local_clear env config trigger item pending)
    unfolding retry_local_clear
    retry_local_clear-Has p trigger item pending = Triple-then _ _ (ask-Has p _) λ now.
        Triple-branch _ _ _ (pure-Has p _) (
          Triple-then _ _ (send-Has p _ _) λ error.
            Triple-option error _ _
              (Triple-then _ _
                (update-Has env healthy p p _ λ s h. pending_of-clear_succeeded s ref _ _ _ ∙ h)
                λ _. pure-Has p true)
              λ e _.
                Triple-then _ _
                  (update-Has env healthy p p _
                    λ s h. pending_of-clear_failed s ref _ _ _ _ _ _ ∙ h)
                  λ _. pure-Has p false)

    pub verify_reset-Has :
        (p : Option Attempt) (credentials : Credentials) (attempt : Attempt)
        → Triple (Has p) (Has p) (verify_reset env config credentials attempt)
    unfolding verify_reset
    verify_reset-Has p credentials attempt =
        Triple-then _ _ (send-Has p _ _)
          λ credits. Triple-then _ _ (send-Has p _ _) λ usage. pure-Has p _

    module _ (attempt : Attempt) where
      pub fail_attempt-Has :
          (trigger mark outcome : String) (tombstone : Bool) (credit_id : String)
          → Triple
              (Has (some attempt))
              (Has none)
              (fail_attempt env config ref trigger mark outcome tombstone credit_id >> pure false)
      unfolding fail_attempt
      fail_attempt-Has trigger mark outcome tombstone credit_id =
          Triple-bind (Has none) _ _
            (Triple-then _ _ (ask-Has _ _) λ now. Triple-then _ _ (ask-Has _ _) λ delay.
              update-Has env healthy (some attempt) none _ λ s h. ground (
                arith,
                eq_iff ref ref,
                pending_of-apply_failure ref trigger attempt now env.sha256_hex mark outcome
                    tombstone credit_id delay s ref,
              ))
            λ _. pure-Has none false

      pub mark_as_ambiguous-Has :
          (trigger : String) (cause : CodexError)
          → Triple
              (Has (some attempt))
              (Has (some (verified_again attempt)))
              (mark_as_ambiguous env config ref trigger attempt cause)
      unfolding mark_as_ambiguous
      mark_as_ambiguous-Has trigger cause = Triple-then _ _ (ask-Has _ _) λ now.
          Triple-then _ _ (ask-Has _ _) λ delay.
            update-Has env healthy (some attempt) (some (verified_again attempt)) _ λ s h.
              pending_of-mark_ambiguous ref trigger attempt now delay s ref
              ∙ ground
                  (arith, h, eq_iff ref ref, eq_iff attempt.idempotency_key attempt.idempotency_key)

      pub complete_reset-writes :
          (auth_index trigger outcome : String) (now until : Time) (s : State)
          → pending_of s ref ≡ some attempt
          → (s' : State) × (complete_reset ref auth_index trigger attempt outcome now until s
              ≡ some s')
            × (pending_of s' ref ≡ none)
      unfolding complete_reset append_log
      complete_reset-writes auth_index trigger outcome now until s h =
          elim (Option-cases (complete_reset ref auth_index trigger attempt outcome now until s)) [
            | inl e ↦ grind (arith, h, e, eq_iff attempt.idempotency_key attempt.idempotency_key)
            | inr (s', e) ↦ (
              s',
              e,
              ground (
                arith,
                eq_iff ref ref,
                (pending_of-complete_reset ref trigger attempt now auth_index outcome until s ref
                    e).1,
              ),
            )
          ]
