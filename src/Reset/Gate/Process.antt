-- ===== src/Reset/Gate/Process.antt =====
-- The calls of `Consume` in a run of `processAccount` (internal/reset/engine.go).
use cpa_codex_auto_reset.Prelude.{
  List, suc, String, ◌≡◌, inl, inr, refl, some, arith, lookup, Bool-cases, Option-cases,
}
use cpa_codex_auto_reset.Prelude.Time.{Time}
use cpa_codex_auto_reset.Account.{Account}
use cpa_codex_auto_reset.Config.{Config}
use cpa_codex_auto_reset.Codex.{Credentials, Usage, Result}
use cpa_codex_auto_reset.State.{State, AccountState}
use cpa_codex_auto_reset.Reset.Exec.{
  Env, World, usage_request, on_option, send, load_state, interfere, ◌>>=◌,
}
use cpa_codex_auto_reset.Reset.Exec.Triple.{
  Triple, Triple-pure, Triple-result, Triple-then, Triple-bind, Triple-decide, Triple-match,
}
use cpa_codex_auto_reset.Reset.Process.{guarded, snapshot_usage, process_known, process_account}
use cpa_codex_auto_reset.Reset.Quiet.{Of, quiet_update, log-quiet, retry_local_clear-quiet}
use cpa_codex_auto_reset.Reset.Gate.Steps.{
  AtMostOne, stop, then_stop, with_reason, resolve_pending-AtMostOne, look_for_credit-AtMostOne,
}
use cpa_codex_auto_reset.Reset.Gate.{spends, Spent, Spent-Steady, IsReady, HasReason}

module _ (env : Env) (config : Config) (n : List String) (trigger : String) (item : Account)
    (now : Time) where
  guarded-AtMostOne :
      (credentials : Credentials) (current : State) (account : AccountState) (usage : Result Usage)
      → Triple
          (Of (Spent n))
          (AtMostOne
            (λ id. IsReady now item current account × HasReason env config now account usage id)
            n)
          (guarded env config trigger item credentials now current account usage)
  unfolding guarded
  guarded-AtMostOne credentials current account usage =
      let steady = Spent-Steady n in
      Triple-decide _ _ _ (λ _. then_stop n _ _ (log-quiet (Spent n) steady env config _))
        λ part.
          Triple-decide _ _ _ (λ _. then_stop n _ _ (log-quiet (Spent n) steady env config _))
            λ able.
              Triple-decide _ _ _ (λ _. stop n _)
                λ managed.
                  Triple-match _ _ _
                    (λ clear.
                      Triple-decide _ _ _
                        (λ _. then_stop n _ _ (log-quiet (Spent n) steady env config _))
                        λ cool.
                          Triple-decide _ _ _ (λ _. stop n _)
                            λ free.
                              let ready : IsReady now item current account = record {
                                participates = ground (arith, part);
                                enabled = able;
                                management = managed;
                                local_clear = clear;
                                cooldown = cool;
                                backoff = free;
                              } in
                              Triple-match _ _ _
                                (λ fresh.
                                  with_reason n _
                                    (λ id why. (
                                      ready,
                                      inr (why.0, why.1, fresh, why.2, why.3, why.4, why.5),
                                    ))
                                    (look_for_credit-AtMostOne env config n trigger item credentials
                                      now account usage))
                                λ attempt open_attempt.
                                  with_reason n _
                                    (λ id few. (ready, inl (attempt, open_attempt, few.0, few.1)))
                                    (Triple-bind _ _ _
                                      (resolve_pending-AtMostOne env config n trigger item
                                        credentials attempt)
                                      λ done. Triple-pure _ λ w h. h))
                    λ pending _.
                      then_stop n _ _ (retry_local_clear-quiet (Spent n) steady env config _ _ _)

  snapshot_usage-Spent :
      (ref : String) (usage : Result Usage)
      → Triple (Of (Spent n)) (Of (Spent n)) (snapshot_usage env config ref now usage)
  unfolding snapshot_usage
  snapshot_usage-Spent ref usage =
      Triple-result _ _ _ (λ u. quiet_update (Spent n) (Spent-Steady n) env _)
        λ _. Triple-pure _ λ w h. h

process_known-AtMostOne :
    (env : Env) (config : Config) (trigger : String) (item : Account) (now : Time) (current : State)
    (account : AccountState) (w : World)
    → AtMostOne
        (λ id.
          IsReady now item current account × HasReason env config now account (env.usage w.tick) id)
        (spends w.calls)
        (process_known env config trigger item now current account w).1
unfolding process_known ◌>>=◌
process_known-AtMostOne env config trigger item now current account w =
    let n = spends w.calls in
    let usage = env.usage w.tick in
    let credentials : Credentials = record {
      access_token = item.access_token;
      account_id = item.account_id;
    } in
    (Triple-then _ _ (snapshot_usage-Spent env config n trigger item now item.ref usage)
        λ _. guarded-AtMostOne env config n trigger item now credentials current account usage).run
      (send (usage_request credentials) env.usage w).1 refl

-- A run of `processAccount` sends at most one `Consume`. When it sends one, then in the state that it
-- loaded the account takes part, is enabled, waits for no local clear and for no cooldown or backoff;
-- and the credit that it is sent for is either that of an open attempt which had been verified less
-- than twice, or, where no attempt was open, the first one without a tombstone in a list that the
-- service returned, and the usage that was read makes it worth spending at that time.
pub process_account-spends :
    (env : Env) (config : Config) (trigger : String) (item : Account) (w : World)
    → let now = env.clock w.tick in
      let current = interfere (env.others (suc w.tick)) w.disk in
      let usage = env.usage (suc (suc w.tick)) in
      AtMostOne
        (λ id.
          (account : AccountState) × (lookup item.ref current.accounts ≡ some account)
          × IsReady now item current account
          × HasReason env config now account usage id)
        (spends w.calls)
        (process_account env config trigger item w).1
unfolding process_account load_state on_option ◌>>=◌
process_account-spends env config trigger item w =
    let now = env.clock w.tick in
    let current = interfere (env.others (suc w.tick)) w.disk in
    let w' = record w { disk = current; tick = suc (suc w.tick) } in
    elim (Bool-cases (env.readable (suc w.tick))) [
      | inr unreadable ↦ rw unreadable (inl refl)
      | inl readable ↦ elim (Option-cases (lookup item.ref current.accounts)) [
        | inl missing ↦ rw readable (rw missing (inl refl))
        | inr (account, known) ↦ rw readable (
            rw known
              (elim (process_known-AtMostOne env config trigger item now current account w') [
                | inl none_sent ↦ inl none_sent
                | inr (id, why, one) ↦ inr (id, (account, refl, why.0, why.1), one)
              ]))
      ]
    ]
