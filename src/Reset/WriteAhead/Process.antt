-- ===== src/Reset/WriteAhead/Process.antt =====
-- Write-ahead for `resolvePending`, `processAccount` and `Scan` (internal/reset/engine.go).
use cpa_codex_auto_reset.Prelude.{
  ℕ, suc, String, ◌≡◌, Bool, Option, some, List, [], ◌∷◌, arith, lookup, Bool-cases, Option-cases,
  inl, inr, ap,
}
use cpa_codex_auto_reset.Prelude.Time.{Time}
use cpa_codex_auto_reset.Account.{Account}
use cpa_codex_auto_reset.Config.{Config}
use cpa_codex_auto_reset.Codex.{Credentials, Usage, Result}
use cpa_codex_auto_reset.State.{State, AccountState, Attempt, LogEntry, ScanSummary}
use cpa_codex_auto_reset.Reset.Updates.Pending.{attempt_of, pending_of-update_usage_snapshot}
use cpa_codex_auto_reset.Reset.Exec.{
  Env, World, pure, ◌>>=◌, ◌>>◌, interfere, load_state, on_option,
}
use cpa_codex_auto_reset.Reset.Exec.Triple.{
  Triple, Triple-pure, Triple-branch, Triple-option, Triple-result, Triple-then, Triple-last,
}
use cpa_codex_auto_reset.Reset.Engine.{Outcome, waiting, log}
use cpa_codex_auto_reset.Reset.Process.{
  resolve_pending, guarded, snapshot_usage, process_known, process_account,
}
use cpa_codex_auto_reset.Reset.Scan.{tally, give_up, scan_each, scan_locked, scan}
use cpa_codex_auto_reset.Reset.WriteAhead.{
  AllBacked, Holds, backed_rules, send-Holds, forget-Holds, try_update-Holds,
}
use cpa_codex_auto_reset.Reset.WriteAhead.Actions.{retry_local_clear-AllBacked}
use cpa_codex_auto_reset.Reset.WriteAhead.Steps.{
  resolve_pending-AllBacked, look_for_credit-AllBacked,
}

module _ (env : Env) (config : Config) where
  log_after :
      (ref : String) (p : Option Attempt) (entry : LogEntry) (o : Outcome)
      → Triple (Holds ref p) AllBacked (log env config entry >> pure o)
  log_after ref p entry o = forget-Holds _ (search backed_rules)

  stop_after :
      (ref : String) (p : Option Attempt) (o : Outcome) → Triple (Holds ref p) AllBacked (pure o)
  stop_after ref p o = forget-Holds _ (search backed_rules)

  resolve_after :
      (trigger : String) (item : Account) (credentials : Credentials) (attempt : Attempt)
      (p : Option Attempt)
      → p ≡ some attempt
      → Triple (Holds item.ref p) AllBacked (
          resolve_pending env config trigger item credentials attempt >>= λ done.
          pure (record waiting { reset_done = done }))
  resolve_after trigger item credentials attempt p e = rw e (
      Triple-last _ _ (resolve_pending-AllBacked env config trigger item credentials attempt)
        λ done. search backed_rules)

  guarded-AllBacked :
      (trigger : String) (item : Account) (credentials : Credentials) (now : Time) (current : State)
      (account : AccountState) (usage : Result Usage)
      → Triple
          (Holds item.ref account.pending_attempt)
          AllBacked
          (guarded env config trigger item credentials now current account usage)
  unfolding guarded
  guarded-AllBacked trigger item credentials now current account usage =
      let at = account.pending_attempt in
      Triple-branch _ _ _ (log_after _ at _ _) (
        Triple-branch _ _ _ (log_after _ at _ _) (
          Triple-branch _ _ _ (stop_after _ at _) (
            Triple-option _ _ _
              (Triple-branch _ _ _ (log_after _ at _ _) (
                Triple-branch _ _ _ (stop_after _ at _) (
                  Triple-option _ _ _
                    (forget-Holds _ (
                      look_for_credit-AllBacked env config trigger item credentials now account
                        usage))
                    λ attempt same. resolve_after trigger item credentials attempt at same)))
              λ pending _. forget-Holds _ (search (backed_rules, retry_local_clear-AllBacked)))))

  snapshot_usage-Holds :
      (ref : String) (p : Option Attempt) (now : Time) (usage : Result Usage)
      → Triple (Holds ref p) (Holds ref p) (snapshot_usage env config ref now usage)
  unfolding snapshot_usage
  snapshot_usage-Holds ref p now usage =
      Triple-result _ _ _
        (λ u.
          try_update-Holds env _
            λ s s' e. ground (arith, pending_of-update_usage_snapshot s ref ref u now))
        λ _. Triple-pure _ λ w h. h

  process_known-AllBacked :
      (trigger : String) (item : Account) (now : Time) (current : State) (account : AccountState)
      → Triple
          (Holds item.ref account.pending_attempt)
          AllBacked
          (process_known env config trigger item now current account)
  unfolding process_known
  process_known-AllBacked trigger item now current account =
      Triple-then _ _ (send-Holds _ _ tt) λ usage.
        Triple-then _ _ (snapshot_usage-Holds _ _ now usage)
          λ _. guarded-AllBacked trigger item _ now current account usage

  -- Whatever the clients answer, whatever fails on disk and whatever the web handler writes in
  -- between, a run of `processAccount` that starts with all spending calls backed ends so: each
  -- `Consume` that it sends names the credit and the idempotency key of the attempt that the state
  -- file holds for the account at that moment.
  pub process_account_write_ahead :
      (trigger : String) (item : Account) (w : World)
      → AllBacked w
      → AllBacked (process_account env config trigger item w).1
  unfolding process_account load_state on_option ◌>>=◌
  process_account_write_ahead trigger item w h =
      let s = interfere (env.others (suc w.tick)) w.disk in
      elim (Bool-cases (env.readable (suc w.tick))) [
        | inr unreadable ↦ rw unreadable h
        | inl readable ↦ elim (Option-cases (lookup item.ref s.accounts)) [
          | inl missing ↦ rw readable (rw missing h)
          | inr (account, known) ↦ rw readable (
              rw known (
                (process_known-AllBacked trigger item (env.clock w.tick) s account).run _
                  (record { backed = h; pending = ap attempt_of known })))
        ]
      ]

  scan_each-AllBacked :
      (trigger : String) (items : List Account) (summary : ScanSummary)
      → Triple AllBacked AllBacked (scan_each env config trigger items summary)
  unfolding scan_each
  scan_each-AllBacked trigger [] summary = search backed_rules
  scan_each-AllBacked trigger (item ∷ items) summary = Triple-then _ _ (search backed_rules) λ halt.
      Triple-branch _ _ _ (search backed_rules) (
        Triple-then _ _ (record { run = process_account_write_ahead trigger item })
          λ outcome. scan_each-AllBacked trigger items (tally outcome summary))

  give_up-AllBacked :
      (summary : ScanSummary) (message : String) (errors : ℕ) (save : Bool)
      → Triple AllBacked AllBacked (give_up env config summary message errors save)
  give_up-AllBacked summary message errors save = search backed_rules depth 12

  scan_locked-AllBacked :
      (trigger : String) → Triple AllBacked AllBacked (scan_locked env config trigger)
  unfolding scan_locked
  scan_locked-AllBacked trigger =
      search (backed_rules, give_up-AllBacked, scan_each-AllBacked) depth 20

  -- A whole `Scan` that starts with all spending calls backed ends so: each `Consume` that it sends,
  -- for whichever account, names the credit and the idempotency key of the attempt that the state file
  -- holds for that account at that moment, whatever the clients answer, whatever fails on disk and
  -- whatever the web handler writes in between.
  pub scan_write_ahead :
      (trigger : String) (w : World) → AllBacked w → AllBacked (scan env config trigger w).1
  unfolding scan
  scan_write_ahead trigger w h =
      let t : Triple AllBacked AllBacked (scan env config trigger) =
        search (backed_rules, scan_locked-AllBacked) depth 12 in
      t.run w h
