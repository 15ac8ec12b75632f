-- ===== src/Reset/Attempts/Tombstones.antt =====
-- Which credit the engine chooses, and what a tombstone does to the choice
-- (internal/reset/engine.go: `firstUsableCredit`, `applyFailure`).
use cpa_codex_auto_reset.Prelude.{
  String, ◌≡◌, ◌≢◌, refl, Bool, true, false, Option, none, some, List, [], ◌∷◌, ◌++◌, Dict, All,
  lookup, is_some, arith, eq_iff, ap, lookup-insert, lookup-modify, Bool-cases, inl, inr,
}
use cpa_codex_auto_reset.Prelude.Text.{is_empty}
use cpa_codex_auto_reset.Prelude.Time.{Time, Duration}
use cpa_codex_auto_reset.Codex.{Credit}
use cpa_codex_auto_reset.State.{State, AccountState, append_log}
use cpa_codex_auto_reset.Reset.Attempts.{hash_credit_id, first_usable_credit}
use cpa_codex_auto_reset.Reset.Updates.{apply_failure}

module _ (sha256_hex : String → String) where
  abbrev pub is_tombstoned : Dict Time → Credit → Bool
  is_tombstoned tombstones c = is_some (lookup (hash_credit_id sha256_hex c.id) tombstones)

  -- What the search answers about a list of credits.
  abbrev pub Chosen : Dict Time → List Credit → Option Credit → Type 0
  Chosen tombstones credits none = All (λ c. is_tombstoned tombstones c ≡ true) credits
  Chosen tombstones credits (some c) =
      (before : List Credit) × (behind : List Credit) × (credits ≡ before ++ c ∷ behind)
      × All (λ b. is_tombstoned tombstones b ≡ true) before
      × (is_tombstoned tombstones c ≡ false)

  skip :
      (tombstones : Dict Time) (b : Credit) (credits : List Credit) (o : Option Credit)
      → is_tombstoned tombstones b ≡ true
      → Chosen tombstones credits o
      → Chosen tombstones (b ∷ credits) o
  skip tombstones b credits none h r = (h, r)
  skip tombstones b credits (some c) h (before, behind, e, all, free) =
      (b ∷ before, behind, ap (λ cs. b ∷ cs) e, (h, all), free)

  -- The chosen credit is the first of the list that has no tombstone, and when there is no choice all
  -- of them have one.
  pub first_usable_credit_lem :
      (credits : List Credit) (tombstones : Dict Time)
      → Chosen tombstones credits (first_usable_credit sha256_hex credits tombstones)
  unfolding first_usable_credit
  first_usable_credit_lem [] tombstones = tt
  first_usable_credit_lem (credit ∷ credits) tombstones =
      elim (Bool-cases (is_tombstoned tombstones credit)) [
        | inl h ↦
            rw h (skip tombstones credit credits _ h (first_usable_credit_lem credits tombstones))
        | inr h ↦ rw h ([], credits, refl, tt, h)
      ]

  chosen_free :
      (credits : List Credit) (tombstones : Dict Time) (c : Credit)
      → first_usable_credit sha256_hex credits tombstones ≡ some c
      → is_tombstoned tombstones c ≡ false
  unfolding first_usable_credit
  chosen_free [] tombstones c h = ground arith
  chosen_free (credit ∷ credits) tombstones c h = ground (arith, chosen_free credits tombstones c)

  apply_failure_writes :
      (ref trigger mark outcome credit_id : String) (now : Time) (delay : Duration) (s : State)
      (account : AccountState)
      → is_empty credit_id ≡ false
      → lookup ref
          (apply_failure sha256_hex ref trigger mark outcome true credit_id now delay s).accounts
        ≡ some account
      → lookup (hash_credit_id sha256_hex credit_id) account.tombstones ≡ some now
  unfolding apply_failure append_log
  apply_failure_writes ref trigger mark outcome credit_id now delay s account named known = grind (
    arith,
    lookup-modify,
    lookup-insert,
    eq_iff ref ref,
    eq_iff (hash_credit_id sha256_hex credit_id) (hash_credit_id sha256_hex credit_id),
  )

  -- Once `applyFailure` has set a tombstone for a credit of an account, no list of credits makes the
  -- engine choose that credit from the tombstones that the account then has.
  pub apply_failure_buries :
      (ref trigger mark outcome credit_id : String) (now : Time) (delay : Duration) (s : State)
      (account : AccountState) (credits : List Credit)
      → is_empty credit_id ≡ false
      → lookup ref
          (apply_failure sha256_hex ref trigger mark outcome true credit_id now delay s).accounts
        ≡ some account
      → (c : Credit) → first_usable_credit sha256_hex credits account.tombstones ≡ some c
      → c.id ≢ credit_id
  apply_failure_buries ref trigger mark outcome credit_id now delay s account credits named known c
        chosen =
      λ same. ground (
        arith,
        same,
        chosen_free credits account.tombstones c chosen,
        ap (λ id. lookup (hash_credit_id sha256_hex id) account.tombstones) same,
        apply_failure_writes ref trigger mark outcome credit_id now delay s account named known,
      )
