-- ===== src/Reset/Resolve/Rounds.antt =====
-- How an open attempt comes to its end (internal/reset/engine.go: `resolvePending`).
use cpa_codex_auto_reset.Prelude.{
  ◌-◌, ◌<◌, List, ◌∷◌, ℕ, zero, suc, ◌+◌, ◌≤◌, String, ◌≡◌, ◌⊎◌, ◌∙◌, refl, ap, sym, none, some,
  arith, inl, inr,
}
use cpa_codex_auto_reset.Account.{Account}
use cpa_codex_auto_reset.Config.{Config}
use cpa_codex_auto_reset.Codex.{
  Credentials, ConsumeCode, reset, already_redeemed, nothing_to_reset, no_credit,
}
use cpa_codex_auto_reset.State.{Attempt}
use cpa_codex_auto_reset.Reset.Updates.{verified_again}
use cpa_codex_auto_reset.Reset.Updates.Pending.{pending_of}
use cpa_codex_auto_reset.Reset.Exec.{Env, World, consume_request, send, ◌>>=◌}
use cpa_codex_auto_reset.Reset.Exec.Triple.{
  Triple, Triple-pure, Triple-branch, Triple-result, Triple-then, Triple-bind, Triple-decide,
  Triple-ensure, Triple-answer, Triple-answered, Triple-asked,
}
use cpa_codex_auto_reset.Reset.Engine.{
  maximum_verification_tries, complete_successful_reset, handle_consume_result, answer_spend, spend,
}
use cpa_codex_auto_reset.Reset.Process.{resolve_pending}
use cpa_codex_auto_reset.Reset.Gate.{spends}
use cpa_codex_auto_reset.Reset.Gate.Steps.{AtMostOne, resolve_pending-AtMostOne}
use cpa_codex_auto_reset.Reset.Resolve.{
  Healthy, Has, ask-Has, send-Has, pure-Has, try_update-Has, retry_local_clear-Has,
  verify_reset-Has, fail_attempt-Has, mark_as_ambiguous-Has, complete_reset-writes,
}

module _ (env : Env) (config : Config) (healthy : Healthy env) (trigger : String) (item : Account)
    (credentials : Credentials) (attempt : Attempt) where
  abbrev Open : World → Type 0
  Open = Has item.ref (some attempt)

  abbrev Settled : World → Type 0
  Settled = Has item.ref none

  complete_successful_reset-Settled :
      (outcome : String)
      → Triple Open Settled
          (complete_successful_reset env config trigger item credentials attempt outcome)
  unfolding complete_successful_reset
  complete_successful_reset-Settled outcome = Triple-then _ _ (ask-Has _ _ _) λ now.
      Triple-then _ _ (verify_reset-Has _ env config healthy _ _ _) λ verified.
        Triple-bind Settled _ _
          (try_update-Has _ env healthy _ none _
            (complete_reset-writes _ env config healthy attempt _ trigger _ _ _))
          λ persisted. Triple-branch _ _ _ (pure-Has _ _ _) (
            Triple-then _ _ (retry_local_clear-Has _ env config healthy _ _ item _)
              λ _. pure-Has _ _ _)

  handle_consume_result-Settled :
      (code : ConsumeCode)
      → Triple Open Settled (handle_consume_result env config trigger item credentials attempt code)
  unfolding handle_consume_result
  handle_consume_result-Settled reset = complete_successful_reset-Settled _
  handle_consume_result-Settled already_redeemed = complete_successful_reset-Settled _
  handle_consume_result-Settled nothing_to_reset =
      fail_attempt-Has _ env config healthy attempt _ _ _ _ _
  handle_consume_result-Settled no_credit = fail_attempt-Has _ env config healthy attempt _ _ _ _ _

  -- The attempt is gone, or one verification more is counted at it.
  abbrev Moved : World → Type 0
  Moved w =
      Settled w
      ⊎ (Has item.ref (some (verified_again attempt)) w
          × (suc attempt.verification_count ≤ maximum_verification_tries))

  spend-Moved :
      suc attempt.verification_count ≤ maximum_verification_tries
      → Triple Open Moved (spend env config trigger item credentials attempt)
  unfolding spend answer_spend
  spend-Moved few = record {
    run = λ w h.
        let t : Triple Open Moved (
            send (consume_request item.ref attempt.credit_id attempt.idempotency_key w.disk)
              env.consume
            >>= answer_spend env config trigger item credentials attempt) =
          Triple-then _ _ (send-Has _ _ _ _) λ answer.
            Triple-result _ _ _
              (λ r.
                Triple-ensure _
                  (Triple-bind Settled _ _ (handle_consume_result-Settled r.code)
                    λ done. pure-Has _ _ _)
                  λ w h. inl h)
              λ cause.
                Triple-ensure _
                  (Triple-bind (Has item.ref (some (verified_again attempt))) _ _
                    (mark_as_ambiguous-Has _ env config healthy attempt trigger cause)
                    λ _. pure-Has _ _ _)
                  λ w h. inr (h, few) in
        t.run w h;
  }

  resolve_pending-Moved :
      Triple Open Moved (resolve_pending env config trigger item credentials attempt)
  unfolding resolve_pending
  resolve_pending-Moved = Triple-then _ _ (ask-Has _ _ _) λ now.
      Triple-answer _ _ _ (send-Has _ _ _ _) λ k.
        Triple-answered (env.credits k) _ _
          (λ listed _. Triple-answer _ _ _ (send-Has _ _ _ _) λ k.
            Triple-answered (env.usage k) _ _
              (λ _ _.
                Triple-branch _ _ _
                  (Triple-ensure _ (complete_successful_reset-Settled _) λ w h. inl h)
                  (Triple-decide _ _ _
                    (λ _.
                      Triple-ensure _ (fail_attempt-Has _ env config healthy attempt _ _ _ _ _)
                        λ w h. inl h)
                    λ few. Triple-asked _ _ (ask-Has _ _ _) λ k.
                      Triple-decide _ _ _
                        (λ halt. ground (arith, halt, healthy.active k, healthy.uncancelled k))
                        λ _.
                          Triple-bind Moved _ _ (spend-Moved (ground (arith, few)))
                            λ answer. Triple-pure _ λ w h. h))
              λ e failed. ground (arith, failed, (healthy.usage k).1))
          λ e failed. ground (arith, failed, (healthy.credits k).1)

-- The list with an element put before it `k` times.
unfoldable pub again : String → ℕ → List String → List String
again id zero ids = ids
again id (suc k) ids = again id k (id ∷ ids)

module _ (env : Env) (config : Config) (trigger : String) (item : Account)
    (credentials : Credentials) where
  -- `resolvePending` in one scan after another, each with the attempt that the state file then holds.
  unfoldable pub resolve_rounds : ℕ → World → World
  resolve_rounds zero w = w
  resolve_rounds (suc n) w = elim (pending_of w.disk item.ref) [
    | none ↦ w
    | some attempt ↦
        resolve_rounds n (resolve_pending env config trigger item credentials attempt w).1
  ]

  settled_stays : (n : ℕ) (w : World) → pending_of w.disk item.ref ≡ none → resolve_rounds n w ≡ w
  unfolding resolve_rounds
  settled_stays zero w h = refl
  settled_stays (suc n) w h = rw (resolve_rounds, h) refl

  -- The attempt of `w` is gone in `w'`, and the calls between them are for its credit, not more of
  -- them than verifications were left.
  abbrev Resolved : Attempt → World → World → Type 0
  Resolved attempt w w' =
      (pending_of w'.disk item.ref ≡ none)
      × ((k : ℕ) × (k ≤ maximum_verification_tries - attempt.verification_count)
          × (spends w'.calls ≡ again attempt.credit_id k (spends w.calls)))

  settles :
      (n : ℕ) (attempt : Attempt) (w w' : World)
      → pending_of w'.disk item.ref ≡ none
      → (k : ℕ) → k ≤ maximum_verification_tries - attempt.verification_count
      → spends w'.calls ≡ again attempt.credit_id k (spends w.calls)
      → Resolved attempt w (resolve_rounds n w')
  settles n attempt w w' settled k few sent =
      rw (settled_stays n w' settled) (settled, (k, few, sent))

  -- One round, and the rounds after it.
  one_more :
      (attempt : Attempt) (w w' w'' : World)
      → AtMostOne
          (λ id.
            (attempt.credit_id ≡ id) × (attempt.verification_count < maximum_verification_tries))
          (spends w.calls)
          w'
      → Resolved (verified_again attempt) w' w''
      → suc attempt.verification_count ≤ maximum_verification_tries
      → Resolved attempt w w''
  unfolding again
  one_more attempt w w' w'' (inl quiet) (settled, (k, bound, sent)) few =
      (settled, (k, ground arith, sent ∙ ap (again attempt.credit_id k) quiet))
  one_more attempt w w' w'' (inr (id, (same, _), one)) (settled, (k, bound, sent)) few = (
    settled,
    (
      suc k,
      ground arith,
      sent ∙ ap (again attempt.credit_id k) (one ∙ ap (λ i. i ∷ spends w.calls) (sym same)),
    ),
  )

  rounds-Resolved :
      Healthy env
      → (n : ℕ) (w : World) (attempt : Attempt) → pending_of w.disk item.ref ≡ some attempt
      → 3 ≤ n + attempt.verification_count
      → 1 ≤ n
      → Resolved attempt w (resolve_rounds n w)
  unfolding resolve_rounds again
  rounds-Resolved healthy zero w attempt h enough one = ground arith
  rounds-Resolved healthy (suc n) w attempt h enough one =
      let w' = (resolve_pending env config trigger item credentials attempt w).1 in
      let sent =
        (resolve_pending-AtMostOne env config (spends w.calls) trigger item credentials attempt).run
          w refl in
      rw (resolve_rounds, h)
        (elim ((resolve_pending-Moved env config healthy trigger item credentials attempt).run w
          h) [
            | inl settled ↦ elim sent [
              | inl quiet ↦ settles n attempt w w' settled 0 (ground arith) quiet
              | inr (id, (same, few), one) ↦
                  settles n attempt w w' settled 1 (ground (arith, few))
                    (one ∙ ap (λ i. i ∷ spends w.calls) (sym same))
            ]
            | inr (pending, few) ↦
                one_more attempt w w' (resolve_rounds n w') sent
                  (rounds-Resolved healthy n w' (verified_again attempt) pending (ground arith)
                    (ground arith))
                  few
          ])

  -- Where the state file and both lists can be read and written and the engine runs on, three scans
  -- of `resolvePending` leave an account with no pending attempt, whatever `Consume`, the local clear
  -- and the other goroutines answer; and the attempt's credit is asked for at most as often as
  -- verifications were left, and no other credit.
  pub three_rounds_settle :
      Healthy env
      → (w : World) (attempt : Attempt) → pending_of w.disk item.ref ≡ some attempt
      → (pending_of (resolve_rounds 3 w).disk item.ref ≡ none)
        × ((k : ℕ) × (k ≤ maximum_verification_tries - attempt.verification_count)
            × (spends (resolve_rounds 3 w).calls ≡ again attempt.credit_id k (spends w.calls)))
  three_rounds_settle healthy w attempt h =
      rounds-Resolved healthy 3 w attempt h (ground arith) (ground arith)
