-- ===== src/Examples/Ambiguous.antt =====
-- An attempt whose answer stays unclear (internal/reset/engine.go: `resolvePending`).
use cpa_codex_auto_reset.Prelude.{◌≤◌, ℕ, ◌≡◌, refl, none, [], ◌∷◌, lookup, modify}
use cpa_codex_auto_reset.Codex.{CodexError, plain, err}
use cpa_codex_auto_reset.Reset.Exec.{Env, World, ◌>>=◌, on_result, branch, try_update, interfere}
use cpa_codex_auto_reset.State.{append_log}
use cpa_codex_auto_reset.Reset.Updates.{mark_ambiguous}
use cpa_codex_auto_reset.Reset.Engine.{mark_as_ambiguous, fail_attempt, spend, answer_spend}
use cpa_codex_auto_reset.Reset.Process.{resolve_pending}
use cpa_codex_auto_reset.Reset.Updates.Pending.{pending_of}
use cpa_codex_auto_reset.Reset.Gate.{spends}
use cpa_codex_auto_reset.Reset.Resolve.{Healthy}
use cpa_codex_auto_reset.Reset.Resolve.Rounds.{again, resolve_rounds, three_rounds_settle}
use cpa_codex_auto_reset.Examples.{
  calm, settings, item, full_usage, one_credit, open_state, attempt, start,
}

abbrev timed_out : CodexError
timed_out = plain "timeout"

-- Every call of `Consume` fails.
abbrev unclear : Env
unclear = record calm { consume = λ _. err timed_out }

unclear-Healthy : Healthy unclear
unclear-Healthy = record {
  readable = λ k. refl;
  writable = λ k. refl;
  active = λ k. refl;
  uncancelled = λ k. refl;
  credits = λ k. (one_credit, refl);
  usage = λ k. (full_usage, refl);
}

abbrev pending : World
pending = record start { disk = open_state }

abbrev resolved : ℕ → World
resolved n =
    resolve_rounds unclear settings "manual" item
      (record { access_token = "token"; account_id = "id" }) n pending

three_rounds_settle_example :
    (pending_of (resolved 3).disk "acct" ≡ none)
    × ((k : ℕ) × (k ≤ 2) × (spends (resolved 3).calls ≡ again "credit-1" k []))
unfolding lookup
three_rounds_settle_example =
    three_rounds_settle unclear settings "manual" item _ unclear-Healthy pending attempt refl

-- The credit is asked for twice, with one key, before the engine gives up.
gives_up : spends (resolved 3).calls ≡ "credit-1" ∷ "credit-1" ∷ []
unfolding resolve_rounds lookup resolve_pending ◌>>=◌ on_result branch spend answer_spend
    mark_as_ambiguous try_update mark_ambiguous interfere append_log modify fail_attempt
gives_up = refl
