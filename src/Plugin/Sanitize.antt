-- ===== src/Plugin/Sanitize.antt =====
-- `SanitizeError` (internal/plugin/runtime.go).
use cpa_codex_auto_reset.Prelude.{
  ℕ, zero, suc, ◌-◌, ◌≤◌, ◌≡◌, refl, ap, inl, inr, String, false, Option, none, some, leb, ltb,
  if◌then◌else◌, arith, Bool-cases,
}
use Prim.Native.Char.{Char, code}
use cpa_codex_auto_reset.Prelude.Text.{trim_space, is_empty, byte_length, rune_length}

abbrev replacement : Char
replacement = "�"

-- What a reader of UTF-8 sees of the first bytes of a character: one replacement character for each.
abbrev replaced : ℕ → String
replaced zero = String.[]
replaced (suc n) = String.◌∷◌ replacement (replaced n)

-- `text[:n]` as it is read again, for a text of more than `n` bytes.
unfoldable pub cut : ℕ → String → String
cut n String.[] = String.[]
cut n (String.◌∷◌ c s) =
    let rest = cut (n - rune_length (code c)) s in
    if leb (rune_length (code c)) n then String.◌∷◌ c rest else replaced n

abbrev pub limit : ℕ
limit = 240

abbrev sanitized : String → String
sanitized text =
    if is_empty text
    then "plugin error"
    else if ltb limit (byte_length text)
    then cut limit text
    else text

-- `SanitizeError`, at the text of the error, none for a nil error
unfoldable pub sanitize_error : Option String → String
sanitize_error none = ""
sanitize_error (some message) = sanitized (trim_space message)

-- The number of characters.
abbrev pub size : String → ℕ
size String.[] = 0
size (String.◌∷◌ c s) = suc (size s)

replaced-size : (n : ℕ) → size (replaced n) ≡ n
replaced-size zero = refl
replaced-size (suc n) = ap suc (replaced-size n)

rune_length_pos : (c : ℕ) → (1 ≤ rune_length c) × (rune_length c ≤ 4)
rune_length_pos c = ground arith

size-cut : (n : ℕ) (s : String) → size (cut n s) ≤ n
unfolding cut
size-cut n String.[] = omega arith
size-cut n (String.◌∷◌ c s) =
    ground (arith, rune_length_pos (code c), size-cut (n - rune_length (code c)) s, replaced-size n)

size-le-byte_length : (s : String) → size s ≤ byte_length s
unfolding byte_length
size-le-byte_length String.[] = omega arith
size-le-byte_length (String.◌∷◌ c s) =
    omega (arith, rune_length_pos (code c), size-le-byte_length s)

size-cut_pos : (s : String) → is_empty s ≡ false → 1 ≤ size (cut limit s)
unfolding cut
size-cut_pos String.[] h = cc
size-cut_pos (String.◌∷◌ c s) h = ground (arith, rune_length_pos (code c))

size_pos : (s : String) → is_empty s ≡ false → 1 ≤ size s
size_pos String.[] h = cc
size_pos (String.◌∷◌ c s) h = omega arith

-- The text of an error that goes to the host has 1 to 240 characters, whatever the error says; an
-- error whose text, less the white space around it, is not empty and has at most 240 bytes is passed
-- on as it is.
pub sanitize_error_bounds :
    (message : String)
    → let text = sanitize_error (some message) in
      (1 ≤ size text)
      × (size text ≤ limit)
      × (is_empty (trim_space message) ≡ false
          → byte_length (trim_space message) ≤ limit
          → text ≡ trim_space message)
unfolding sanitize_error
sanitize_error_bounds message =
    let text = trim_space message in
    elim (Bool-cases (is_empty text)) [
      | inl blank ↦ rw blank (omega arith, omega arith, λ h. cc)
      | inr filled ↦ elim (Bool-cases (ltb limit (byte_length text))) [
        | inl long ↦
            rw (filled, long)
              (size-cut_pos text filled, size-cut limit text, λ h short. absurd (ground arith))
        | inr short ↦
            rw (filled, short)
              (size_pos text filled, ground (arith, short, size-le-byte_length text), λ h s. refl)
      ]
    ]
