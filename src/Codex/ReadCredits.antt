-- ===== src/Codex/ReadCredits.antt =====
-- `Credits` (internal/codex/client.go), from the decoded response on. The format of RFC 3339 is read
-- by an argument, `parse_date`, which is `time.Parse(time.RFC3339, …)`.
pub mod Order
use cpa_codex_auto_reset.Prelude.{
  ℕ, ◌+◌, ◌≤◌, ◌<◌, ◌≡◌, refl, String, ◌==◌, Bool, true, false, not, ◌&&◌, ◌||◌, Option, none, some,
  List, [], ◌∷◌, ◌++◌, All, contains, length, ltb, eqb, if◌then◌else◌, arith, eq_iff, Bool-cases,
  Option-cases, inl, inr,
}
use cpa_codex_auto_reset.Prelude.Int.{ℤ, pos, negsuc}
use cpa_codex_auto_reset.Prelude.Time.{Time, after}
use cpa_codex_auto_reset.Prelude.Text.{trim_space, is_empty, text_less, text_less_asym, short_hash}
use cpa_codex_auto_reset.Prelude.Sort.{sort_by, Sorted, sort_by-Sorted, sort_by-All, sort_by-length}
use cpa_codex_auto_reset.Codex.{Credit, CreditList, Result, ok, err, plain}

pub record CreditItem : Type 0 where
  pub id : String
  pub reset_type : String
  pub status : String
  pub expires_at : Option String

pub record CreditResponse : Type 0 where
  pub credits : List CreditItem
  pub available_count : Option ℤ

-- The variables of the loop.
pub record Gathered : Type 0 where
  pub details : ℕ
  pub available : List Credit
  pub seen : List String

abbrev pub nothing_gathered : Gathered
nothing_gathered = record { details = 0; available = []; seen = [] }

abbrev pub is_known_status : String → Bool
is_known_status status = status == "available" || status == "redeeming" || status == "redeemed"

abbrev pub date_text : Option String → String
date_text none = ""
date_text (some s) = trim_space s

-- The order of the list: by expiry, then by id.
abbrev pub sooner : Credit → Credit → Bool
sooner a b =
    if eqb a.expires_at b.expires_at then text_less a.id b.id else ltb a.expires_at b.expires_at

module _ (sha256_hex : String → String) (parse_date : String → Option Time) (now : Time) where
  abbrev pub add_credit : CreditItem → String → Time → Gathered → Gathered
  add_credit item id expires_at g = record {
    details = g.details + 1;
    available =
        if trim_space item.reset_type == "codex_rate_limits"
        then g.available
          ++ record { id = id; ref = short_hash sha256_hex "credit" id; expires_at = expires_at }
            ∷ []
        else g.available;
    seen = id ∷ g.seen;
  }

  abbrev pub add_dated : CreditItem → String → Option Time → Gathered → Result Gathered
  add_dated item id none g = err (plain "invalid reset credit expiration")
  add_dated item id (some expires_at) g =
      if not (after expires_at now)
      then err (plain "reset credit is expired")
      else ok (add_credit item id expires_at g)

  -- One round of the loop.
  unfoldable pub gather_one : CreditItem → Gathered → Result Gathered
  gather_one item g =
      let status = trim_space item.status in
      let id = trim_space item.id in
      let date = date_text item.expires_at in
      if not (is_known_status status)
      then err (plain "unknown reset credit status")
      else if not (status == "available")
      then ok g
      else if is_empty id || is_empty date
      then err (plain "available reset credit is incomplete")
      else if contains g.seen id
      then err (plain "duplicate reset credit ID")
      else add_dated item id (parse_date date) g

  unfoldable pub gather : List CreditItem → Gathered → Result Gathered
  gather [] g = ok g
  gather (item ∷ items) g = elim (gather_one item g) [ err e ↦ err e | ok g' ↦ gather items g' ]

  abbrev pub listed : ℕ → Result Gathered → Result CreditList
  listed count (err e) = err e
  listed count (ok g) =
      if not (eqb count g.details)
      then err (plain "reset credit list is incomplete")
      else ok (record { available_count = count; available = sort_by sooner g.available })

  -- `Credits` once `do` has returned; `response` is what decoding the body gives, none for an error.
  unfoldable pub read_credits : Option CreditResponse → Result CreditList
  read_credits none = err (plain "invalid reset credit response")
  read_credits (some response) = elim response.available_count [
    | some (pos count) ↦ listed count (gather response.credits nothing_gathered)
    | _ ↦ err (plain "invalid reset credit response")
  ]
