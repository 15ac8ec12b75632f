-- ===== src/Reset/Gate/Cooldown.antt =====
-- The cooldown after a reset (internal/reset/engine.go: `completeSuccessfulReset`,
-- `processAccount`).
use cpa_codex_auto_reset.Prelude.{
  suc, String, ◌≡◌, ◌<◌, ◌⊎◌, ◌∙◌, ap, refl, inl, inr, Option, none, some, List, [], ◌∷◌, arith,
  eq_iff, lookup, lookup-modify,
}
use cpa_codex_auto_reset.Prelude.Time.{Time}
use cpa_codex_auto_reset.Account.{Account}
use cpa_codex_auto_reset.Config.{Config}
use cpa_codex_auto_reset.State.{State, AccountState, Attempt, Cooldown, append_log}
use cpa_codex_auto_reset.State.Participation.{set_participation, lookup-set_participation}
use cpa_codex_auto_reset.Reset.Updates.{complete_reset}
use cpa_codex_auto_reset.Reset.Housekeeping.{clear_succeeded}
use cpa_codex_auto_reset.Reset.Exec.{Env, World, Request, interfere}
use cpa_codex_auto_reset.Reset.Process.{process_account}
use cpa_codex_auto_reset.Reset.Gate.{spends}
use cpa_codex_auto_reset.Reset.Gate.Process.{process_account-spends}

abbrev cooldown_in : Option AccountState → Option Cooldown
cooldown_in none = none
cooldown_in (some a) = a.post_reset_cooldown

abbrev pub cooldown_of : State → String → Option Cooldown
cooldown_of s ref = cooldown_in (lookup ref s.accounts)

cooldown_of-interfere :
    (rs : List Request) (s : State) (j : String) → cooldown_of (interfere rs s) j ≡ cooldown_of s j
unfolding interfere
cooldown_of-interfere [] s j = refl
cooldown_of-interfere (r ∷ rs) s j = ground (
  arith,
  cooldown_of-interfere rs (set_participation r.refs r.participating r.at s).0 j,
  lookup-set_participation r.refs r.participating r.at j s,
)

complete_reset_cools :
    (ref auth_index trigger : String) (attempt : Attempt) (outcome : String) (at until : Time)
    (s s' : State)
    → complete_reset ref auth_index trigger attempt outcome at until s ≡ some s'
    → cooldown_of s' ref ≡ some (record { until = until; reason = outcome })
unfolding complete_reset append_log
complete_reset_cools ref auth_index trigger attempt outcome at until s s' h =
    grind (arith, lookup-modify, eq_iff ref ref)

cooldown_of-clear_succeeded :
    (ref trigger : String) (now : Time) (s : State) (j : String)
    → cooldown_of (clear_succeeded ref trigger now s) j ≡ cooldown_of s j
unfolding clear_succeeded append_log
cooldown_of-clear_succeeded ref trigger now s j = grind (arith, lookup-modify, eq_iff ref j)

no_spend_while_cooling :
    (env : Env) (config : Config) (trigger : String) (item : Account) (w : World) (c : Cooldown)
    → cooldown_of w.disk item.ref ≡ some c
    → env.clock w.tick < c.until
    → spends (process_account env config trigger item w).1.calls ≡ spends w.calls
no_spend_while_cooling env config trigger item w c cool early =
    elim (process_account-spends env config trigger item w) [
      | inl none_sent ↦ none_sent
      | inr (id, (account, known, ready, why), one) ↦ absurd (
          ground (
            arith,
            known,
            ready.cooldown,
            cool,
            cooldown_of-interfere (env.others (suc w.tick)) w.disk item.ref,
          ))
    ]

-- Once `completeSuccessfulReset` has written its state for an account, no run of `processAccount` on
-- the account that starts before the cooldown ends spends a credit, whatever the services answer,
-- whichever disk accesses fail and whatever the web handler writes in between. This holds of a run
-- that starts from that state, and of one that starts once `retryLocalClear` has confirmed the local
-- clear, so that the cooldown alone holds the account back.
pub complete_reset_prevents_spending :
    (env : Env) (config : Config) (trigger' trigger : String) (item : Account) (attempt : Attempt)
    (outcome : String) (at until cleared_at : Time) (s s' : State) (w : World)
    → complete_reset item.ref item.auth_index trigger' attempt outcome at until s ≡ some s'
    → (w.disk ≡ s') ⊎ (w.disk ≡ clear_succeeded item.ref trigger' cleared_at s')
    → env.clock w.tick < until
    → spends (process_account env config trigger item w).1.calls ≡ spends w.calls
complete_reset_prevents_spending env config trigger' trigger item attempt outcome at until
      cleared_at s s' w h start early =
    let cools =
      complete_reset_cools item.ref item.auth_index trigger' attempt outcome at until s s' h in
    let cools_still =
      cooldown_of-clear_succeeded item.ref trigger' cleared_at s' item.ref ∙ cools in
    elim start [
      | inl same ↦
          no_spend_while_cooling env config trigger item w _
            (ap (λ x. cooldown_of x item.ref) same ∙ cools) early
      | inr cleared ↦
          no_spend_while_cooling env config trigger item w _
            (ap (λ x. cooldown_of x item.ref) cleared ∙ cools_still) early
    ]
