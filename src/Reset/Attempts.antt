-- ===== src/Reset/Attempts.antt =====
-- Attempts, credits and fingerprints (internal/reset/engine.go).
pub mod Tombstones
use Prim.Native.Nat.{bit_and, bit_or}
use cpa_codex_auto_reset.Prelude.{
  ℕ, zero, suc, ◌+◌, ◌/◌, ◌%◌, String, ◌||◌, ◌==◌, starts_with, Option, none, some, List, [], ◌∷◌,
  Dict, lookup, eqb, is_some, if◌then◌else◌,
}
use Prim.Native.String.{slice}
use cpa_codex_auto_reset.Prelude.Int.{ℤ, pos}
use cpa_codex_auto_reset.Prelude.Time.{Time, unix}
use cpa_codex_auto_reset.Prelude.Text.{concat, join, format_int, short_hash, trim_space}
use cpa_codex_auto_reset.Codex.{Usage, Window, Credit}
use cpa_codex_auto_reset.State.{Attempt}

-- The lower-case hexadecimal digit of a number below 16.
hex_digit : ℕ → String
hex_digit n = slice "0123456789abcdef" n (n + 1)

-- `hex.EncodeToString` of `count` bytes from an index on
hex_bytes : (ℕ → ℕ) → ℕ → ℕ → String
unfolding hex_digit
hex_bytes raw from zero = ""
hex_bytes raw from (suc count) =
    concat (hex_digit (raw from / 16))
      (concat (hex_digit (raw from % 16)) (hex_bytes raw (from + 1) count))

-- The two assignments to `raw[6]` and `raw[8]`.
abbrev stamped : (ℕ → ℕ) → ℕ → ℕ
stamped raw i =
    if eqb i 6
    then bit_or (bit_and (raw 6) 0x0f) 0x40
    else if eqb i 8
    then bit_or (bit_and (raw 8) 0x3f) 0x80
    else raw i

-- `uuidV4` from 16 random bytes, `raw` at 0 to 15
unfoldable pub uuid_v4 : (ℕ → ℕ) → String
unfolding hex_bytes
uuid_v4 raw =
    let bytes = stamped raw in
    join
      (hex_bytes bytes 0 4
        ∷ hex_bytes bytes 4 2
        ∷ hex_bytes bytes 6 2
        ∷ hex_bytes bytes 8 2
        ∷ hex_bytes bytes 10 6
        ∷ [])
      "-"

abbrev reset_at : Option Window → ℤ
reset_at none = pos 0
reset_at (some w) = unix w.reset_at

-- `fingerprint`
unfoldable pub fingerprint : String → String → Usage → ℕ → String
fingerprint account_ref credit_ref usage available_count =
    join
      (account_ref
        ∷ credit_ref
        ∷ concat (format_int (reset_at usage.primary))
            (concat ":" (format_int (reset_at usage.secondary)))
        ∷ format_int (pos available_count)
        ∷ [])
      "+"

-- `eventForSuccess`
unfoldable pub event_for_success : String → String
event_for_success outcome =
    if starts_with outcome "already_redeemed" then "reset_already_redeemed" else "reset_succeeded"

-- `sanitizeTrigger`
unfoldable pub sanitize_trigger : String → String
sanitize_trigger trigger =
    let t = trim_space trigger in
    if t == "startup" || t == "scheduled" || t == "manual" || t == "usage" then t else "manual"

module _ (sha256_hex : String → String) where
  -- `hashCreditID`
  unfoldable pub hash_credit_id : String → String
  hash_credit_id value = short_hash sha256_hex "ref" value

  -- `firstUsableCredit`
  unfoldable pub first_usable_credit : List Credit → Dict Time → Option Credit
  first_usable_credit [] tombstones = none
  first_usable_credit (credit ∷ credits) tombstones =
      if is_some (lookup (hash_credit_id credit.id) tombstones)
      then first_usable_credit credits tombstones
      else some credit

  -- `newAttempt`, with the key that `uuidV4` made
  unfoldable pub new_attempt : String → Credit → String → Usage → ℕ → Time → Attempt
  new_attempt idempotency_key credit fingerprint usage available_count now = record {
    attempt_id_ref = hash_credit_id idempotency_key;
    credit_id = credit.id;
    credit_ref = credit.ref;
    idempotency_key = idempotency_key;
    created_at = now;
    expires_at = credit.expires_at;
    phase = "persisted";
    fingerprint = fingerprint;
    verification_count = 0;
    pre_available_count = available_count;
    pre_used_percent = usage.used_percent;
    pre_blocked = usage.blocked;
  }
