-- ===== src/Codex.antt =====
-- The data that the Codex client returns (internal/codex/client.go).
pub mod Http
pub mod ReadUsage
pub mod ReadCredits
pub mod ReadConsume
pub mod Requests
use cpa_codex_auto_reset.Prelude.{ℕ, ◌*◌, ◌^◌, String, Bool, Option, List}
use cpa_codex_auto_reset.Prelude.Int.{ℤ}
use cpa_codex_auto_reset.Prelude.Time.{Time, Duration}

-- A float64 is counted in units of 2^-1074: every finite one is a whole number of them, so the
-- program's comparisons are exact. `percent n` is the float64 `n`.
unfoldable pub percent : ℕ → ℕ
percent n = n * 2 ^ 1074

pub record Credentials : Type 0 where
  pub access_token : String
  pub account_id : String

pub record Window : Type 0 where
  pub used_percent : ℕ
  pub reset_at : Time

pub record Usage : Type 0 where
  pub allowed : Bool
  pub blocked : Bool
  pub used_percent : ℕ
  pub primary : Option Window
  pub secondary : Option Window
  pub available_count : ℕ

pub record Credit : Type 0 where
  pub id : String
  pub ref : String
  pub expires_at : Time

pub record CreditList : Type 0 where
  pub available_count : ℕ
  pub available : List Credit

-- The four values that `Consume` lets through.
pub data ConsumeCode : Type 0 where
  reset already_redeemed nothing_to_reset no_credit : ConsumeCode

pub record ConsumeResult : Type 0 where
  pub code : ConsumeCode
  pub windows_reset : ℤ

pub record HttpError : Type 0 where
  pub status_code : ℕ
  pub retry_after : Duration
  pub ambiguous : Bool

-- An `error`: an `*HTTPError`, or one with a text alone.
pub data CodexError : Type 0 where
  http : HttpError → CodexError
  plain : String → CodexError

pub data Result {ℓ} (A : Type ℓ) : Type ℓ where
  ok : A → Result A
  err : CodexError → Result A

-- The predicate holds of what is returned without an error.
abbrev pub Succeeds {ℓ κ} : {A : Type ℓ} → (A → Type κ) → Result A → Type κ
Succeeds P (ok a) = P a
Succeeds P (err _) = Unit
