-- ===== src/Codex/ReadConsume.antt =====
-- `Consume` (internal/codex/client.go), from the decoded response on.
use cpa_codex_auto_reset.Prelude.{
  ◌≡◌, refl, String, ◌==◌, Bool, true, false, ◌||◌, ◌↔◌, arith, eq_iff, Option, none, some,
  if◌then◌else◌,
}
use cpa_codex_auto_reset.Prelude.Int.{ℤ}
use cpa_codex_auto_reset.Prelude.Text.{trim_space, is_empty}
use cpa_codex_auto_reset.Codex.{
  ConsumeCode, ConsumeResult, reset, already_redeemed, nothing_to_reset, no_credit, Result, ok, err,
  plain,
}

pub record ConsumeResponse : Type 0 where
  pub code : String
  pub windows_reset : ℤ

-- The text of a code.
abbrev pub code_text : ConsumeCode → String
code_text reset = "reset"
code_text already_redeemed = "already_redeemed"
code_text nothing_to_reset = "nothing_to_reset"
code_text no_credit = "no_credit"

-- The `switch` on the code.
unfoldable pub read_code : String → Option ConsumeCode
read_code text =
    if text == "reset"
    then some reset
    else if text == "already_redeemed"
    then some already_redeemed
    else if text == "nothing_to_reset"
    then some nothing_to_reset
    else if text == "no_credit"
    then some no_credit
    else none

-- `Consume` once `do` has returned; `response` is what decoding the body gives, none for an error.
unfoldable pub read_consume : Option ConsumeResponse → Result ConsumeResult
read_consume none = err (plain "invalid reset consume response")
read_consume (some response) = elim (read_code response.code) [
  | none ↦ err (plain "unknown reset consume result")
  | some code ↦ ok (record { code = code; windows_reset = response.windows_reset })
]

-- `Consume` before the request: whether the two arguments may be sent.
abbrev pub may_consume : String → String → Bool
may_consume credit_id idempotency_key =
    if is_empty (trim_space credit_id) || is_empty (trim_space idempotency_key) then false else true

-- The client lets through exactly the four codes, each as what it names.
pub read_code_iff :
    (text : String) (code : ConsumeCode) → (read_code text ≡ some code) ↔ (text ≡ code_text code)
unfolding read_code
read_code_iff text reset = (λ h. ground (arith, h, eq_iff text "reset"), λ e. rw e refl)
read_code_iff text already_redeemed =
    (λ h. ground (arith, h, eq_iff text "already_redeemed"), λ e. rw e refl)
read_code_iff text nothing_to_reset =
    (λ h. ground (arith, h, eq_iff text "nothing_to_reset"), λ e. rw e refl)
read_code_iff text no_credit = (λ h. ground (arith, h, eq_iff text "no_credit"), λ e. rw e refl)
