-- ===== src/Reset/Exec.antt =====
-- How the engine runs (internal/reset/engine.go): a state monad over the state file and the record of
-- the calls that went out. What the engine does not decide is an environment that answers by the
-- number of the interaction: the clock, the context, the clients, the disk, the random source, and
-- what other goroutines write to the state file between two accesses of the engine.
pub mod Triple
use cpa_codex_auto_reset.Prelude.{
  ℕ, suc, String, Bool, true, false, not, ◌||◌, Option, none, some, List, [], ◌∷◌, if◌then◌else◌,
}
use cpa_codex_auto_reset.Prelude.Int.{ℤ}
use cpa_codex_auto_reset.Prelude.Time.{Time, Duration}
use cpa_codex_auto_reset.Account.{Account}
use cpa_codex_auto_reset.Codex.{
  Credentials, Usage, CreditList, ConsumeResult, CodexError, Result, ok, err,
}
use cpa_codex_auto_reset.Management.{ManagementError}
use cpa_codex_auto_reset.State.{State}
use cpa_codex_auto_reset.State.Participation.{set_participation}
use cpa_codex_auto_reset.Reset.Backoff.{transient_backoff}

-- The disk during one `Store.Update`: all well, an error before the file is replaced, or one after.
pub data Fault : Type 0 where
  no_fault before_rename after_rename : Fault

-- One call of `SetParticipation` by the web handler.
pub record Request : Type 0 where
  pub refs : List String
  pub participating : Bool
  pub at : Time

pub record Env : Type 0 where
  pub clock : ℕ → Time
  pub active : ℕ → Bool
  pub cancelled : ℕ → Bool
  pub scan_lock_free : ℕ → Bool
  pub discover : ℕ → Option (List Account)
  pub usage : ℕ → Result Usage
  pub credits : ℕ → Result CreditList
  pub consume : ℕ → Result ConsumeResult
  pub clear : ℕ → Option ManagementError
  pub readable : ℕ → Bool
  pub fault : ℕ → Fault
  pub others : ℕ → List Request
  -- 16 random bytes, or an error
  pub random : ℕ → Option (ℕ → ℕ)
  -- the result of `jitterFor` at a base
  pub jitter : ℕ → ℕ → ℕ
  -- the platform's conversion of a float64 of 2^63 or more
  pub convert : ℕ → ℤ
  pub sha256_hex : String → String

-- A call to a service. `consume_request` also shows whose account it is for and what the state file
-- held when it was sent.
pub data Call : Type 0 where
  usage_request : Credentials → Call
  credits_request : Credentials → Call
  consume_request : String → String → String → State → Call
  clear_request : String → Call

-- `calls` has the latest call first.
pub record World : Type 0 where
  pub disk : State
  pub tick : ℕ
  pub calls : List Call

abbrev pub Exec : Type 0 → Type 0
Exec A = World → A × World

abbrev pub next : World → World
next w = record w { tick = suc w.tick }

pub pure : {A : Type 0} → A → Exec A
pure a w = (a, w)

pub ask : {A : Type 0} → (ℕ → A) → Exec A
ask answer w = (answer w.tick, next w)

pub send : {A : Type 0} → Call → (ℕ → A) → Exec A
send call answer w = (answer w.tick, record (next w) { calls = call ∷ w.calls })

infixl 5 ◌>>=◌ ◌>>◌
-- Opening this opens `pure`, `ask` and `send` too.
unfoldable pub ◌>>=◌ : {A B : Type 0} → Exec A → (A → Exec B) → Exec B
unfolding pure ask send
◌>>=◌ m f w = let (a, w') = m w in f a w'

abbrev pub ◌>>◌ : {A B : Type 0} → Exec A → Exec B → Exec B
m >> k = m >>= λ _. k

-- A test.
unfoldable pub branch : {A : Type 0} → Bool → Exec A → Exec A → Exec A
branch true m n = m
branch false m n = n

-- A match on an option, and on an answer with its error.
unfoldable pub on_option : {A B : Type 0} → Option B → Exec A → (B → Exec A) → Exec A
on_option none m f = m
on_option (some b) m f = f b

unfoldable pub on_result : {A B : Type 0} → Result B → (CodexError → Exec A) → (B → Exec A) → Exec A
on_result (ok b) g f = f b
on_result (err e) g f = g e

-- What other goroutines have written since the last access.
unfoldable pub interfere : List Request → State → State
interfere [] s = s
interfere (r ∷ rs) s = interfere rs (set_participation r.refs r.participating r.at s).0

-- The end of `Store.Update`: whether it returned nil, and the state file.
abbrev pub saved : Fault → State → Option State → Bool × State
saved fault old none = (false, old)
saved no_fault old (some new) = (true, new)
saved before_rename old (some new) = (false, old)
saved after_rename old (some new) = (false, new)

module _ (env : Env) where
  -- `e.store.Load()`
  unfoldable pub load_state : Exec (Option State)
  load_state w =
      let s = interfere (env.others w.tick) w.disk in
      (if env.readable w.tick then some s else none, record (next w) { disk = s })

  -- `e.store.Update`; a state file that cannot be read ends it before the closure runs.
  unfoldable pub try_update : (State → Option State) → Exec Bool
  try_update change w =
      let s = interfere (env.others w.tick) w.disk in
      let (done, s') =
        saved (env.fault w.tick) s (if env.readable w.tick then change s else none) in
      (done, record (next w) { disk = s' })

  -- An update whose closure returns nil.
  abbrev pub update : (State → State) → Exec Bool
  update change = try_update λ s. some (change s)

  abbrev pub clock : Exec Time
  clock = ask env.clock

  -- `ctx.Err() != nil || !e.active.Load()`
  abbrev pub stopped : Exec Bool
  stopped = ask λ t. env.cancelled t || not (env.active t)

  -- `transientBackoff`, with its random jitter
  abbrev pub delay_after : Option CodexError → ℕ → Duration → Exec Duration
  delay_after cause level base =
      ask λ t. transient_backoff env.convert (env.jitter t) cause level base
