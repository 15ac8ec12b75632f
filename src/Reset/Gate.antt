-- ===== src/Reset/Gate.antt =====
-- When the engine spends a reset credit (internal/reset/engine.go): the conditions, independent of
-- the order and the form in which the code tests them.
pub mod Steps
pub mod Process
pub mod Cooldown
use cpa_codex_auto_reset.Prelude.{
  String, ℕ, suc, ◌+◌, ◌*◌, ◌≤◌, ◌<◌, ◌≡◌, ◌⊎◌, ◌↔◌, refl, inl, inr, Bool, true, false, Option,
  none, some, List, [], ◌∷◌, arith,
}
use cpa_codex_auto_reset.Prelude.Int.{ℤ, pos, negsuc}
use cpa_codex_auto_reset.Prelude.Time.{Time, second, minute, hour}
use cpa_codex_auto_reset.Account.{Account}
use cpa_codex_auto_reset.Config.{Config}
use cpa_codex_auto_reset.Codex.{Usage, Credit, CreditList, Result, ok, percent}
use cpa_codex_auto_reset.State.{State, AccountState, Attempt}
use cpa_codex_auto_reset.Reset.Attempts.{first_usable_credit}
use cpa_codex_auto_reset.Reset.Exec.{
  Env, World, Call, usage_request, credits_request, consume_request, clear_request,
}
use cpa_codex_auto_reset.Reset.Engine.{cooling, backing_off, is_outside, is_deferred}
use cpa_codex_auto_reset.Reset.Quiet.{Steady, IsRead}

-- The credits that `Consume` was called for, the latest first.
abbrev pub spends : List Call → List String
spends [] = []
spends (consume_request _ credit_id _ _ ∷ cs) = credit_id ∷ spends cs
spends (usage_request _ ∷ cs) = spends cs
spends (credits_request _ ∷ cs) = spends cs
spends (clear_request _ ∷ cs) = spends cs

abbrev pub Spent : List String → List Call → Type 0
Spent n cs = spends cs ≡ n

pub Spent-Steady : (n : List String) → Steady (Spent n)
Spent-Steady n = record { keep = keeps }
  where
    keeps : (c : Call) (cs : List Call) → IsRead c → Spent n cs → Spent n (c ∷ cs)
    keeps (usage_request _) cs r h = h
    keeps (credits_request _) cs r h = h
    keeps (consume_request _ _ _ _) cs r h = elim r [ ]
    keeps (clear_request _) cs r h = h

-- The account takes part, and nothing holds it back at `now`.
pub record IsReady (now : Time) (item : Account) (current : State) (account : AccountState)
    : Type 0 where
  pub participates : account.participating ≡ true
  pub enabled : item.disabled ≡ false
  pub management : cooling current.management_cooldown now ≡ false
  pub local_clear : account.pending_local_clear ≡ none
  pub cooldown : cooling account.post_reset_cooldown now ≡ false
  pub backoff : backing_off account.failure_backoff now ≡ false

abbrev pub Reaches : ℕ → ℤ → Type 0
Reaches used (pos threshold) = percent threshold ≤ used
Reaches used (negsuc _) = Unit

-- The account is blocked; or the credit expires within six hours and the threshold is reached; or
-- it expires within thirty minutes and something has been used.
abbrev pub WorthSpending : Config → Credit → Usage → Time → Type 0
WorthSpending config credit usage now =
    (usage.blocked ≡ true)
    ⊎ ((credit.expires_at ≤ now + 6 * hour) × Reaches usage.used_percent config.reset_threshold)
    ⊎ ((credit.expires_at ≤ now + 30 * minute) × (0 < usage.used_percent))

-- The credit is the first without a tombstone in a list that the service has returned.
abbrev pub IsOffered : Env → AccountState → Credit → Type 0
IsOffered env account c =
    (k : ℕ) × (l : CreditList) × (env.credits k ≡ ok l)
    × (first_usable_credit env.sha256_hex l.available account.tombstones ≡ some c)

-- Why the credit with this id may be spent: an earlier attempt for it is open and has been verified
-- less than twice, or there is none and the credit is offered and worth it.
abbrev pub HasReason : Env → Config → Time → AccountState → Result Usage → String → Type 0
HasReason env config now account usage id =
    ((p : Attempt) × (account.pending_attempt ≡ some p)
      × (p.credit_id ≡ id)
      × (p.verification_count < 2))
    ⊎ ((c : Credit) × (u : Usage) × (account.pending_attempt ≡ none)
        × (c.id ≡ id)
        × IsOffered env account c
        × (usage ≡ ok u)
        × WorthSpending config c u now)

-- The test of the candidate window and the test of the threshold both let a credit through exactly if
-- the account is blocked, or the credit expires within six hours and the threshold is reached, or it
-- expires within thirty minutes and something has been used.
pub tests_iff_WorthSpending :
    (config : Config) (credit : Credit) (usage : Usage) (now : Time)
    → ((is_outside credit usage.blocked now ≡ false)
        × (is_deferred config credit usage now ≡ false))
      ↔ WorthSpending config credit usage now
tests_iff_WorthSpending config credit usage now = go config.reset_threshold refl
  where
    go :
        (t : ℤ)
        → config.reset_threshold ≡ t
        → ((is_outside credit usage.blocked now ≡ false)
            × (is_deferred config credit usage now ≡ false))
          ↔ WorthSpending config credit usage now
    go (pos t) e = rw e (ground arith)
    go (negsuc t) e = rw e (ground arith)
