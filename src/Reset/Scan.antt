-- ===== src/Reset/Scan.antt =====
-- `Scan` (internal/reset/engine.go): one round over all discovered accounts.
use cpa_codex_auto_reset.Prelude.{
  ℕ, ◌+◌, String, Bool, true, false, not, ◌&&◌, Option, none, some, List, [], ◌∷◌, length,
  if◌then◌else◌,
}
use cpa_codex_auto_reset.Account.{Account}
use cpa_codex_auto_reset.Config.{Config, safe}
use cpa_codex_auto_reset.State.{ScanSummary, no_summary, no_entry}
use cpa_codex_auto_reset.State.Reconcile.{reconcile}
use cpa_codex_auto_reset.Reset.Attempts.{sanitize_trigger}
use cpa_codex_auto_reset.Reset.Housekeeping.{finish_scan}
use cpa_codex_auto_reset.Reset.Exec.{
  Env, Exec, pure, ◌>>=◌, ask, branch, on_option, update, clock, stopped,
}
use cpa_codex_auto_reset.Reset.Engine.{Outcome, log}
use cpa_codex_auto_reset.Reset.Process.{process_account}

-- What `Scan` returns: the summary, and the text of the error if there is one.
pub record ScanResult : Type 0 where
  pub summary : ScanSummary
  pub error : Option String

abbrev count : Bool → ℕ → ℕ
count true n = n + 1
count false n = n

abbrev pub tally : Outcome → ScanSummary → ScanSummary
tally o s = record s {
  eligible = count o.eligible s.eligible;
  reset = count o.reset_done s.reset;
  errors = count o.failed s.errors;
}

abbrev inactive : ScanResult
inactive = record { summary = no_summary; error = some "reset engine is inactive" }

module _ (env : Env) (config : Config) where
  -- The loop over the accounts, which ends early when the scan is stopped.
  unfoldable pub scan_each : String → List Account → ScanSummary → Exec ScanSummary
  scan_each trigger [] summary = pure summary
  scan_each trigger (item ∷ items) summary = do
    halt ← stopped env
    branch halt (pure summary) do
      outcome ← process_account env config trigger item
      scan_each trigger items (tally outcome summary)

  -- `e.finishScan`
  abbrev pub finish : ScanSummary → Exec Bool
  finish summary = update env (finish_scan summary)

  -- A scan that ends with an error before it looks at an account; `save` is the call of
  -- `finishScan` where the code makes it.
  abbrev pub give_up : ScanSummary → String → ℕ → Bool → Exec ScanResult
  give_up summary message errors save = do
    now ← clock env
    let ended = record summary { finished_at = now; errors = errors; error = message }
    saved ← branch save (finish ended) (pure true)
    pure (record { summary = ended; error = some message })

  -- `Scan` once the scan lock is held.
  unfoldable pub scan_locked : String → Exec ScanResult
  scan_locked trigger = do
    live ← ask env.active
    branch (not live) (pure inactive) do
      started ← clock env
      let summary = record no_summary { started_at = started; trigger = sanitize_trigger trigger }
      branch (not (config.enabled && (safe config).complete))
          (give_up summary "plugin configuration is incomplete" 0 false)
          do
            logged ← log env config (record no_entry {
              time = started;
              event = "scan_started";
              trigger = summary.trigger;
            })
            branch (not logged) (give_up summary "persistent state is unavailable" 1 false) do
              discovered ← ask env.discover
              on_option discovered (give_up summary "account discovery failed" 1 true) λ accounts.
                  do
                    let counted = record summary { accounts = length accounts }
                    reconciled ←
                        update env (reconcile accounts config.default_participation started)
                    branch (not reconciled)
                        (give_up counted "persistent state is unavailable" 1 false)
                        do
                          done ← scan_each summary.trigger accounts counted
                          now ← clock env
                          let ended = record done { finished_at = now }
                          saved ← finish ended
                          pure (record {
                            summary = ended;
                            error = if saved then none else some "state update failed";
                          })

  -- `Scan`
  unfoldable pub scan : String → Exec ScanResult
  scan trigger = do
    live ← ask env.active
    branch (not live) (pure inactive) do
      free ← ask env.scan_lock_free
      branch (not free)
          (pure (record { summary = no_summary; error = some "scan already in progress" }))
          (scan_locked trigger)
