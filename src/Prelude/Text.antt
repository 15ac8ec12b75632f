-- ===== src/Prelude/Text.antt =====
-- Go's `strings` and `strconv`, as far as the program uses them, over texts of Unicode characters.
use Prim.Native.Nat.{ℕ, zero, suc, ◌<◌, ◌+◌, ◌/◌, ◌%◌}
use Prim.Native.Char.{code, nul}
use Prim.Native.String
use Prim.Native.String.{String, slice}
use mathlib.Core.Path.{◌≡◌, refl}
use mathlib.Core.Bool.{Bool, true, false, ◌||◌, ◌&&◌}
use mathlib.Core.Logic.{dite}
use mathlib.Core.WellFounded.{Acc}
use mathlib.Core.List.{List}
use mathlib.Core.Option.{Option, none, some}
use text.Mathlib.Text.{is_lt}
use native.Mathlib.Decide.{dec_lt}
use native.Mathlib.Omega.{arith}
use cpa_codex_auto_reset.Prelude.Tests.{ltb, leb, eqb, is_some, if◌then◌else◌}
use cpa_codex_auto_reset.Prelude.Int.{ℤ, pos, negsuc}

abbrev pub concat : String → String → String
concat s t = String.◌++◌ s t

abbrev pub is_empty : String → Bool
is_empty String.[] = true
is_empty (String.◌∷◌ _ _) = false

-- `a < b` on texts
abbrev pub text_less : String → String → Bool
text_less a b = is_lt (String.compare a b)

pub text_less_asym : (s t : String) → text_less s t ≡ true → text_less t s ≡ false
text_less_asym String.[] String.[] h = ground arith
text_less_asym String.[] (String.◌∷◌ d t) h = rw (String.compare.cons-nil d t) refl
text_less_asym (String.◌∷◌ c s) String.[] h = ground (arith, String.compare.cons-nil c s)
text_less_asym (String.◌∷◌ c s) (String.◌∷◌ d t) h =
    ground (
      arith,
      String.compare.cons-cons c d s t,
      String.compare.cons-cons d c t s,
      text_less_asym s t,
    )

pub text_less_trans :
    (r s t : String) → text_less r s ≡ true → text_less s t ≡ true → text_less r t ≡ true
text_less_trans String.[] String.[] t h k = k
text_less_trans String.[] (String.◌∷◌ d s) String.[] h k =
    ground (arith, k, String.compare.cons-nil d s)
text_less_trans String.[] (String.◌∷◌ d s) (String.◌∷◌ e t) h k =
    rw (String.compare.nil-cons e t) refl
text_less_trans (String.◌∷◌ c r) String.[] t h k = ground (arith, h, String.compare.cons-nil c r)
text_less_trans (String.◌∷◌ c r) (String.◌∷◌ d s) String.[] h k =
    ground (arith, k, String.compare.cons-nil d s)
text_less_trans (String.◌∷◌ c r) (String.◌∷◌ d s) (String.◌∷◌ e t) h k = ground (
  arith,
  String.compare.cons-cons c d r s,
  String.compare.cons-cons d e s t,
  String.compare.cons-cons c e r t,
  text_less_trans r s t,
)

-- `strings.Join`
unfoldable pub join : List String → String → String
join List.[] separator = ""
join (List.◌∷◌ s List.[]) separator = s
join (List.◌∷◌ s rest) separator = concat s (concat separator (join rest separator))

-- `unicode.IsSpace`
pub is_space : ℕ → Bool
is_space c =
    (leb 9 c && leb c 13)
    || eqb c 32
    || eqb c 0x85
    || eqb c 0xA0
    || eqb c 0x1680
    || (leb 0x2000 c && leb c 0x200a)
    || eqb c 0x2028
    || eqb c 0x2029
    || eqb c 0x202f
    || eqb c 0x205f
    || eqb c 0x3000

pub trim_left : String → String
trim_left String.[] = String.[]
trim_left (String.◌∷◌ c s) = if is_space (code c) then trim_left s else String.◌∷◌ c s

pub trim_right : String → String
trim_right String.[] = String.[]
trim_right (String.◌∷◌ c s) =
    let r = trim_right s in if is_empty r && is_space (code c) then String.[] else String.◌∷◌ c r

-- `strings.TrimSpace`
unfoldable pub trim_space : String → String
unfolding trim_left trim_right is_space
trim_space s = trim_right (trim_left s)

-- The length of a text in UTF-8.
abbrev pub rune_length : ℕ → ℕ
rune_length c = if ltb c 0x80 then 1 else if ltb c 0x800 then 2 else if ltb c 0x10000 then 3 else 4

unfoldable pub byte_length : String → ℕ
byte_length String.[] = 0
byte_length (String.◌∷◌ c s) = rune_length (code c) + byte_length s

-- What follows a prefix, none where the text does not begin with it.
unfoldable pub strip_prefix : String → String → Option String
strip_prefix String.[] s = some s
strip_prefix (String.◌∷◌ c p) String.[] = none
strip_prefix (String.◌∷◌ c p) (String.◌∷◌ d s) =
    let rest = strip_prefix p s in if eqb (code c) (code d) then rest else none

-- `strings.HasPrefix(s, p)`
abbrev pub has_prefix : String → String → Bool
has_prefix s p = is_some (strip_prefix p s)

-- `strings.TrimPrefix(s, p)`
abbrev pub trim_prefix : String → String → String
trim_prefix s p = elim (strip_prefix p s) [ some rest ↦ rest | none ↦ s ]

digit : ℕ → String
digit n =
    if eqb n 0
    then "0"
    else if eqb n 1
    then "1"
    else if eqb n 2
    then "2"
    else if eqb n 3
    then "3"
    else if eqb n 4
    then "4"
    else if eqb n 5
    then "5"
    else if eqb n 6
    then "6"
    else if eqb n 7
    then "7"
    else if eqb n 8
    then "8"
    else "9"

Acc-below : (k n : ℕ) → n < k → Acc ◌<◌ n
Acc-below zero n h = absurd (omega arith)
Acc-below (suc k) n h = Acc.intro n λ m hm. Acc-below k m (omega arith)

abbrev tenth_lt : (n : ℕ) → 9 < n → n / 10 < n
tenth_lt n h = omega arith

emit : (n : ℕ) → Acc ◌<◌ n → String → String
emit n (Acc.intro _ smaller) out =
    dite (dec_lt 9 n)
      (λ h. emit (n / 10) (smaller (n / 10) (tenth_lt n h)) (concat (digit (n % 10)) out))
      (λ _. concat (digit n) out)

abbrev self_lt : (n : ℕ) → n < suc n
self_lt n = omega arith

-- `strconv.FormatInt(n, 10)`
unfoldable pub format_int : ℤ → String
unfolding emit digit Acc-below dec_lt
format_int (pos n) = emit n (Acc-below (suc n) n (self_lt n)) ""
format_int (negsuc n) =
    concat "-" (emit (suc n) (Acc-below (suc (suc n)) (suc n) (self_lt (suc n))) "")

format_int-negative : format_int (negsuc 1249) ≡ "-1250"
unfolding format_int
format_int-negative = refl

-- The 24 hexadecimal digits that stand for the first 12 bytes of a SHA-256 sum over
-- `namespace`, a zero byte and `value`. The sum itself, in hexadecimal, is the parameter.
unfoldable pub short_hash : (String → String) → String → String → String
short_hash sha256_hex namespace value =
    slice (sha256_hex (concat namespace (String.◌∷◌ nul value))) 0 24
