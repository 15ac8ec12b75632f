-- ===== src/Reset/WriteAhead.antt =====
-- Write-ahead: what the state file holds when `Consume` is sent (internal/reset/engine.go).
pub mod Actions
pub mod Steps
pub mod Process
use cpa_codex_auto_reset.Prelude.{
  ℕ, String, ◌==◌, ◌≡◌, ◌≢◌, refl, sym, ◌∙◌, Bool, true, false, not, Option, none, some, List, [],
  ◌∷◌, arith, eq_iff, lookup, All, if◌then◌else◌, Bool-cases, Option-cases, inl, inr,
}
use cpa_codex_auto_reset.Prelude.Time.{Time}
use cpa_codex_auto_reset.Account.{Account}
use cpa_codex_auto_reset.Config.{Config}
use cpa_codex_auto_reset.Codex.{
  Credentials, Usage, Credit, CreditList, CodexError, ConsumeCode, Result, ok, err,
}
use cpa_codex_auto_reset.State.{State, AccountState, Attempt, LogEntry, append_log}
use cpa_codex_auto_reset.State.Participation.{lookup-set_participation, set_participation}
use cpa_codex_auto_reset.Reset.Updates.{persist_attempt}
use cpa_codex_auto_reset.Reset.Updates.Pending.{pending_of, attempt_of}
use cpa_codex_auto_reset.Reset.Exec.{
  Env, Request, World, Exec, Call, usage_request, credits_request, consume_request, clear_request,
  pure, ask, send, ◌>>=◌, ◌>>◌, interfere, saved, load_state, try_update, no_fault, before_rename,
  after_rename,
}
use cpa_codex_auto_reset.Reset.Exec.Triple.{
  Triple, Triple-pure, Triple-branch, Triple-option, Triple-result, Triple-weaken, Triple-bind,
  Triple-then, Triple-last,
}

-- The call spends a credit only for the attempt that the state file holds for the account.
abbrev pub Backed : Call → Type 0
Backed (consume_request ref credit_id key s) =
    (p : Attempt) × (pending_of s ref ≡ some p)
    × (p.credit_id ≡ credit_id)
    × (p.idempotency_key ≡ key)
Backed _ = Unit

abbrev pub AllBacked : World → Type 0
AllBacked w = All Backed w.calls

-- The account's pending attempt in the state file.
pub record Holds (ref : String) (p : Option Attempt) (w : World) : Type 0 where
  pub backed : AllBacked w
  pub pending : pending_of w.disk ref ≡ p

pub pending_of-interfere :
    (rs : List Request) (s : State) (j : String) → pending_of (interfere rs s) j ≡ pending_of s j
unfolding interfere
pending_of-interfere [] s j = refl
pending_of-interfere (r ∷ rs) s j = ground (
  arith,
  pending_of-interfere rs (set_participation r.refs r.participating r.at s).0 j,
  lookup-set_participation r.refs r.participating r.at j s,
)

module _ {A : Type 0} where
  pub ask-AllBacked : (f : ℕ → A) → Triple AllBacked AllBacked (ask f)
  unfolding ◌>>=◌
  ask-AllBacked f = record { run = λ w h. h }

  pub ask-Holds :
      {ref : String} {p : Option Attempt} (f : ℕ → A) → Triple (Holds ref p) (Holds ref p) (ask f)
  unfolding ◌>>=◌
  ask-Holds f = record { run = λ w h. record { backed = h.backed; pending = h.pending } }

  pub send-AllBacked : (c : Call) (f : ℕ → A) → Backed c → Triple AllBacked AllBacked (send c f)
  unfolding ◌>>=◌
  send-AllBacked c f b = record { run = λ w h. (b, h) }

  pub send-Holds :
      {ref : String} {p : Option Attempt} (c : Call) (f : ℕ → A)
      → Backed c
      → Triple (Holds ref p) (Holds ref p) (send c f)
  unfolding ◌>>=◌
  send-Holds c f b = record { run = λ w h. record { backed = (b, h.backed); pending = h.pending } }

  pub forget-Holds :
      {ref : String} {p : Option Attempt} (m : Exec A)
      → Triple AllBacked AllBacked m
      → Triple (Holds ref p) AllBacked m
  forget-Holds m t = record { run = λ w h. t.run w h.backed }

abbrev pub Keeps : String → (State → Option State) → Type 0
Keeps ref change = (s s' : State) → change s ≡ some s' → pending_of s' ref ≡ pending_of s ref

module _ (env : Env) where
  pub try_update-AllBacked :
      (change : State → Option State) → Triple AllBacked AllBacked (try_update env change)
  unfolding try_update
  try_update-AllBacked change = record { run = λ w h. h }

  pub load_state-AllBacked : Triple AllBacked AllBacked (load_state env)
  unfolding load_state
  load_state-AllBacked = record { run = λ w h. h }

  pub try_update-Holds :
      {ref : String} {p : Option Attempt} (change : State → Option State)
      → Keeps ref change
      → Triple (Holds ref p) (Holds ref p) (try_update env change)
  unfolding try_update
  try_update-Holds {ref} change keeps = record {
    run = λ w h. record {
      backed = h.backed;
      pending = grind (
        arith,
        h.pending,
        pending_of-interfere (env.others w.tick) w.disk ref,
        keeps (interfere (env.others w.tick) w.disk),
      );
    };
  }

  -- An update that reports no error has put the new state on disk.
  pub try_update_done :
      (change : State → Option State) (w : World)
      → (try_update env change w).0 ≡ true
      → change (interfere (env.others w.tick) w.disk) ≡ some (try_update env change w).1.disk
  unfolding try_update
  try_update_done change w h = ground arith

pub ruleset backed_rules = (
  Triple-branch, Triple-option, Triple-result, Triple-then, Triple-pure, ask-AllBacked,
  send-AllBacked, try_update-AllBacked,
)
