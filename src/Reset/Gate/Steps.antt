-- ===== src/Reset/Gate/Steps.antt =====
-- The calls of `Consume` in the stages of `processAccount` and `resolvePending`
-- (internal/reset/engine.go).
use cpa_codex_auto_reset.Prelude.{
  List, ◌∷◌, refl, ℕ, String, ◌≡◌, ◌⊎◌, ◌<◌, inl, inr, refl, Bool, arith,
}
use cpa_codex_auto_reset.Prelude.Time.{Time}
use cpa_codex_auto_reset.Account.{Account}
use cpa_codex_auto_reset.Config.{Config}
use cpa_codex_auto_reset.Codex.{Credentials, Usage, Credit, Result, ok, err}
use cpa_codex_auto_reset.State.{AccountState, Attempt}
use cpa_codex_auto_reset.Reset.Exec.{Env, Exec, World, pure, on_result, ◌>>=◌, ◌>>◌}
use cpa_codex_auto_reset.Reset.Exec.Triple.{
  Triple, Triple-answer, Triple-answered, Triple-pure, Triple-branch, Triple-option, Triple-result,
  Triple-then, Triple-last, Triple-decide, Triple-ensure,
}
use cpa_codex_auto_reset.Reset.Attempts.{new_attempt}
use cpa_codex_auto_reset.Reset.Engine.{spend}
use cpa_codex_auto_reset.Reset.Process.{
  resolve_pending, persist_and_spend, start_attempt, recheck, weigh, look_for_credit,
}
use cpa_codex_auto_reset.Reset.Quiet.{
  Of, quiet_ask, quiet_send, quiet_update, log-quiet, bump_verification-quiet, fail_attempt-quiet,
  note_transient_failure-quiet, complete_successful_reset-quiet, answer_spend-quiet, persist-quiet,
}
use cpa_codex_auto_reset.Reset.Gate.{
  IsOffered, spends, Spent, Spent-Steady, WorthSpending, tests_iff_WorthSpending,
}

-- No call of `Consume` beyond the first ones, `n`, or one more with `reason`.
abbrev pub AtMostOne : (String → Type 0) → List String → World → Type 0
AtMostOne reason n w =
    (spends w.calls ≡ n) ⊎ ((id : String) × reason id × (spends w.calls ≡ id ∷ n))

module _ {A : Type 0} {reason : String → Type 0} (n : List String) where
  pub nothing_sent :
      (m : Exec A)
      → Triple (Of (Spent n)) (Of (Spent n)) m
      → Triple (Of (Spent n)) (AtMostOne reason n) m
  nothing_sent m t = Triple-ensure m t λ w h. inl h

  pub sent_once :
      (id : String) (m : Exec A)
      → reason id
      → Triple (Of (Spent n)) (Of (Spent (id ∷ n))) m
      → Triple (Of (Spent n)) (AtMostOne reason n) m
  sent_once id m r t = Triple-ensure m t λ w h. inr (id, r, h)

  pub stop : (a : A) → Triple (Of (Spent n)) (AtMostOne reason n) (pure a)
  stop a = Triple-pure a λ w h. inl h

  pub then_stop :
      {B : Type 0} (m : Exec B) (a : A)
      → Triple (Of (Spent n)) (Of (Spent n)) m
      → Triple (Of (Spent n)) (AtMostOne reason n) (m >> pure a)
  then_stop m a t = Triple-then _ _ t λ _. stop a

  pub with_reason :
      {why : String → Type 0} (m : Exec A)
      → ((id : String) → why id → reason id)
      → Triple (Of (Spent n)) (AtMostOne why n) m
      → Triple (Of (Spent n)) (AtMostOne reason n) m
  with_reason m f t = Triple-ensure m t λ w h. elim h [
    | inl none_sent ↦ inl none_sent
    | inr (id, why', one) ↦ inr (id, f id why', one)
  ]

module _ (env : Env) (config : Config) (n : List String) where
  spend-Spent :
      (trigger : String) (item : Account) (credentials : Credentials) (attempt : Attempt)
      → Triple
          (Of (Spent n))
          (Of (Spent (attempt.credit_id ∷ n)))
          (spend env config trigger item credentials attempt)
  unfolding spend ◌>>=◌
  spend-Spent trigger item credentials attempt = record {
    run = λ w h.
        (answer_spend-quiet (Spent (attempt.credit_id ∷ n)) (Spent-Steady (attempt.credit_id ∷ n))
            env config trigger item credentials attempt (env.consume w.tick)).run
          _ (ground (arith, h));
  }

  spend_then :
      {A : Type 0} {reason : String → Type 0} (trigger : String) (item : Account)
      (credentials : Credentials) (attempt : Attempt) (f : Bool × Bool → A)
      → reason attempt.credit_id
      → Triple
          (Of (Spent n))
          (AtMostOne reason n)
          (spend env config trigger item credentials attempt >>= λ answer. pure (f answer))
  spend_then trigger item credentials attempt f r = sent_once n attempt.credit_id _ r (
      Triple-last _ _ (spend-Spent trigger item credentials attempt)
        λ answer. Triple-pure _ λ w h. h)

  pub resolve_pending-AtMostOne :
      (trigger : String) (item : Account) (credentials : Credentials) (attempt : Attempt)
      → Triple
          (Of (Spent n))
          (AtMostOne (λ id. (attempt.credit_id ≡ id) × (attempt.verification_count < 2)) n)
          (resolve_pending env config trigger item credentials attempt)
  unfolding resolve_pending
  resolve_pending-AtMostOne trigger item credentials attempt =
      let P = Spent n in
      let steady = Spent-Steady n in
      let bump = bump_verification-quiet P steady env config item.ref attempt in
      Triple-then _ _ (quiet_ask P steady _) λ now.
        Triple-then _ _ (quiet_send P steady _ _ tt) λ credits.
          Triple-result _ _ _
            (λ listed. Triple-then _ _ (quiet_send P steady _ _ tt) λ usage.
              Triple-result _ _ _
                (λ _.
                  Triple-branch _ _ _
                    (nothing_sent n _ (
                      complete_successful_reset-quiet P steady env config trigger item credentials
                        attempt "verified_credit_consumed"))
                    (Triple-decide _ _ _
                      (λ _. then_stop n _ _ (fail_attempt-quiet P steady env config _ _ _ _ _ _))
                      λ few. Triple-then _ _ (quiet_ask P steady _) λ halt.
                        Triple-branch _ _ _ (stop n _) (
                          spend_then trigger item credentials attempt _
                            (refl, ground (arith, few)))))
                (λ _. then_stop n _ _ (bump _)))
            (λ _. then_stop n _ _ (bump _))

  module _ (trigger : String) (item : Account) (credentials : Credentials) (now : Time) where
    persist_and_spend-AtMostOne :
        (attempt : Attempt)
        → Triple
            (Of (Spent n))
            (AtMostOne (λ id. attempt.credit_id ≡ id) n)
            (persist_and_spend env config trigger item credentials now attempt)
    unfolding persist_and_spend
    persist_and_spend-AtMostOne attempt =
        Triple-then _ _ (persist-quiet (Spent n) (Spent-Steady n) env config _ _ attempt now)
          λ persisted.
            Triple-branch _ _ _ (stop n _) (spend_then trigger item credentials attempt _ refl)

    start_attempt-AtMostOne :
        (usage : Usage) (credit : Credit) (mark : String) (available_count : ℕ)
        → Triple (Of (Spent n)) (AtMostOne (λ id. credit.id ≡ id) n) (
            start_attempt env config trigger item credentials now usage credit mark available_count)
    unfolding start_attempt new_attempt
    start_attempt-AtMostOne usage credit mark available_count =
        let steady = Spent-Steady n in
        Triple-then _ _ (quiet_ask (Spent n) steady _) λ halt. Triple-branch _ _ _ (stop n _) (
          Triple-then _ _ (quiet_ask (Spent n) steady _)
            λ random. Triple-option _ _ _ (stop n _) λ raw _. persist_and_spend-AtMostOne _)

    recheck-AtMostOne :
        (account : AccountState) (usage : Usage) (credit : Credit)
        → Triple
            (Of (Spent n))
            (AtMostOne (λ id. credit.id ≡ id) n)
            (recheck env config trigger item credentials now account usage credit)
    unfolding recheck
    recheck-AtMostOne account usage credit =
        let steady = Spent-Steady n in
        Triple-then _ _ (quiet_send (Spent n) steady _ _ tt) λ rechecked.
          Triple-result _ _ _
            (λ listed. Triple-option _ _ _ (stop n _) λ again _.
              Triple-branch _ _ _ (stop n _)
                (Triple-branch _ _ _ (stop n _) (start_attempt-AtMostOne usage credit _ _)))
            λ cause.
              then_stop n _ _
                (note_transient_failure-quiet (Spent n) steady env config _ _ _ _ cause)

    weigh-AtMostOne :
        (account : AccountState) (usage : Result Usage) (credit : Credit)
        → Triple
            (Of (Spent n))
            (AtMostOne
              (λ id.
                (u : Usage) × (credit.id ≡ id) × (usage ≡ ok u) × WorthSpending config credit u now)
              n)
            (weigh env config trigger item credentials now account usage credit)
    unfolding weigh on_result
    weigh-AtMostOne account (err cause) credit =
        let steady = Spent-Steady n in
        Triple-then _ _ (log-quiet (Spent n) steady env config _) λ _.
          Triple-branch _ _ _ (stop n _) (
            then_stop n _ _
              (note_transient_failure-quiet (Spent n) steady env config _ _ _ _ cause))
    weigh-AtMostOne account (ok u) credit =
        let steady = Spent-Steady n in
        Triple-then _ _ (log-quiet (Spent n) steady env config _) λ _.
          Triple-decide _ _ _ (λ _. stop n _)
            λ inside.
              Triple-decide _ _ _ (λ _. then_stop n _ _ (log-quiet (Spent n) steady env config _))
                λ keep.
                  with_reason n _
                    (λ id same. (
                      u,
                      same,
                      refl,
                      (tests_iff_WorthSpending config credit u now).0 (inside, keep),
                    ))
                    (recheck-AtMostOne account u credit)

    pub look_for_credit-AtMostOne :
        (account : AccountState) (usage : Result Usage)
        → Triple
            (Of (Spent n))
            (AtMostOne
              (λ id.
                (c : Credit) × (u : Usage) × (c.id ≡ id)
                × IsOffered env account c
                × (usage ≡ ok u)
                × WorthSpending config c u now)
              n)
            (look_for_credit env config trigger item credentials now account usage)
    unfolding look_for_credit
    look_for_credit-AtMostOne account usage =
        let steady = Spent-Steady n in
        Triple-answer _ _ _ (quiet_send (Spent n) steady _ _ tt) λ k.
          Triple-answered _ _ _
            (λ listed came. Triple-then _ _ (quiet_update (Spent n) steady env _) λ _.
              Triple-option _ _ _ (stop n _) λ credit first.
                with_reason n _
                  (λ id why. (credit, why.0, why.1, (k, listed, came, first), why.2, why.3))
                  (weigh-AtMostOne account usage credit))
            λ cause _.
              then_stop n _ _
                (note_transient_failure-quiet (Spent n) steady env config _ _ _ _ cause)
