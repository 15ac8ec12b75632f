-- ===== src/Web/NextAllowed.antt =====
-- What the time that the account page shows promises (internal/web/handler.go: `nextAllowedAt`,
-- internal/reset/engine.go: `processAccount`).
use cpa_codex_auto_reset.Prelude.{
  suc, String, ◌≡◌, ◌<◌, ◌≤◌, ◌⊎◌, refl, inl, inr, Option, none, some, List, [], ◌∷◌, arith, lookup,
}
use cpa_codex_auto_reset.Prelude.Time
use cpa_codex_auto_reset.Prelude.Time.{Time}
use cpa_codex_auto_reset.Account.{Account}
use cpa_codex_auto_reset.Config.{Config}
use cpa_codex_auto_reset.State.{State, AccountState}
use cpa_codex_auto_reset.State.Participation.{set_participation, lookup-set_participation}
use cpa_codex_auto_reset.Reset.Exec.{Env, World, Request, interfere}
use cpa_codex_auto_reset.Reset.Process.{process_account}
use cpa_codex_auto_reset.Reset.Gate.{spends, IsReady}
use cpa_codex_auto_reset.Reset.Gate.Process.{process_account-spends}
use cpa_codex_auto_reset.Web.{next_allowed_at}

abbrev next_of : Option AccountState → Time
next_of none = Time.zero_time
next_of (some a) = next_allowed_at a

next_of-interfere :
    (rs : List Request) (s : State) (j : String)
    → next_of (lookup j (interfere rs s).accounts) ≡ next_of (lookup j s.accounts)
unfolding interfere next_allowed_at
next_of-interfere [] s j = refl
next_of-interfere (r ∷ rs) s j = ground (
  arith,
  next_of-interfere rs (set_participation r.refs r.participating r.at s).0 j,
  lookup-set_participation r.refs r.participating r.at j s,
)

ready_is_allowed :
    (now : Time) (item : Account) (current : State) (a : AccountState)
    → IsReady now item current a
    → (next_allowed_at a ≡ Time.zero_time) ⊎ (next_allowed_at a ≤ now)
unfolding next_allowed_at
ready_is_allowed now item current a r = ground (arith, r.cooldown, r.backoff, r.local_clear)

-- Before the time that the account page shows for an account, no run of `processAccount` spends a
-- credit of it, whatever the services answer, whichever disk accesses fail and whatever the web
-- handler writes in between.
pub next_allowed_at_holds :
    (env : Env) (config : Config) (trigger : String) (item : Account) (w : World) (a : AccountState)
    → lookup item.ref w.disk.accounts ≡ some a
    → Time.zero_time < next_allowed_at a
    → env.clock w.tick < next_allowed_at a
    → spends (process_account env config trigger item w).1.calls ≡ spends w.calls
next_allowed_at_holds env config trigger item w a known set early =
    elim (process_account-spends env config trigger item w) [
      | inl none_sent ↦ none_sent
      | inr (id, (b, loaded, ready, why), one) ↦
          let current = interfere (env.others (suc w.tick)) w.disk in
          absurd (
            ground (
              arith,
              ready_is_allowed (env.clock w.tick) item current b ready,
              next_of-interfere (env.others (suc w.tick)) w.disk item.ref,
              known,
              loaded,
              set,
              early,
            ))
    ]
