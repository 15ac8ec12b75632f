-- ===== src/Codex/Http.antt =====
-- One request of the Codex client (internal/codex/client.go: `do`, `parseRetryAfter`).
-- What the network does is an argument: no reply, or one whose body may not be readable. JSON and
-- the date formats of HTTP are read by functions that are arguments too.
pub mod RetryAfter
use cpa_codex_auto_reset.Prelude.{
  ℕ, ◌+◌, ◌*◌, ◌-◌, ◌^◌, String, Bool, true, false, not, ◌&&◌, ◌||◌, Option, none, some, ltb, leb,
  eqb, if◌then◌else◌,
}
use Prim.Native.Char.{code}
use Prim.Native.String.{[], ◌∷◌}
use cpa_codex_auto_reset.Prelude.Int.{ℤ, pos, negsuc, sub_ℕ, ltb_ℤ}
use cpa_codex_auto_reset.Prelude.Time
use cpa_codex_auto_reset.Prelude.Time.{Time, Duration, after, of_seconds}
use cpa_codex_auto_reset.Prelude.Text.{trim_space, is_empty, byte_length}
use cpa_codex_auto_reset.Codex.{Credentials, CodexError, http, plain, Result, ok, err}

-- The value of a text of decimal digits, read after some of them.
pub digits_after : ℕ → String → Option ℕ
digits_after n [] = some n
digits_after n (c ∷ s) =
    let d = code c in
    let rest = digits_after (n * 10 + (d - 48)) s in if leb 48 d && leb d 57 then rest else none

pub digits : String → Option ℕ
unfolding digits_after
digits [] = none
digits (c ∷ s) = digits_after 0 (c ∷ s)

abbrev in_int64 : Bool → Option ℕ → Option ℤ
in_int64 negative none = none
in_int64 false (some n) = if ltb n (2 ^ 63) then some (pos n) else none
in_int64 true (some n) = if leb n (2 ^ 63) then some (sub_ℕ 0 n) else none

-- `strconv.Atoi`: an optional sign and decimal digits, within int64
unfoldable pub atoi : String → Option ℤ
unfolding digits digits_after
atoi [] = none
atoi (c ∷ s) =
    let unsigned = digits s in
    let all = digits (c ∷ s) in
    if eqb (code c) 45
    then in_int64 true unsigned
    else if eqb (code c) 43
    then in_int64 false unsigned
    else in_int64 false all

module _ (parse_time : String → Option Time) where
  abbrev until_date : Option Time → Time → Duration
  until_date none now = pos 0
  until_date (some t) now = if after t now then Time.sub t now else pos 0

  -- `parseRetryAfter`; `parse_time` is `http.ParseTime`.
  unfoldable pub parse_retry_after : String → Time → Duration
  parse_retry_after header now =
      let value = trim_space header in
      if is_empty value then pos 0 else elim (atoi value) [
        | none ↦ until_date (parse_time value) now
        | some seconds ↦
            if ltb_ℤ (pos 0) seconds then of_seconds seconds else until_date (parse_time value) now
      ]

-- A reply; `body` is none where reading it fails.
pub record Reply : Type 0 where
  pub status_code : ℕ
  pub retry_after : String
  pub body : Option String

abbrev pub max_response_body : ℕ
max_response_body = 2 ^ 20

abbrev is_success : ℕ → Bool
is_success status = leb 200 status && ltb status 300

abbrev pub complete : Credentials → Bool
complete c = not (is_empty (trim_space c.access_token)) && not (is_empty (trim_space c.account_id))

module _ (parse_time : String → Option Time) where
  abbrev read_reply : Bool → Time → Reply → Result String
  read_reply write now reply = elim reply.body [
    | none ↦ err (plain "read Codex response")
    | some raw ↦
        if ltb max_response_body (byte_length raw)
        then err (plain "Codex response is too large")
        else if is_success reply.status_code
        then ok raw
        else err (
            http (record {
              status_code = reply.status_code;
              retry_after = parse_retry_after parse_time reply.retry_after now;
              ambiguous = write && leb 500 reply.status_code;
            }))
  ]

  -- `do`, on a client that is not nil, at what the network makes of the request; `now` is the time
  -- at which a status outside 2xx is seen.
  unfoldable pub do_request : Credentials → Bool → Option Reply → Time → Result String
  do_request credentials write network now =
      if not (complete credentials)
      then err (plain "Codex credentials are incomplete")
      else elim network [
        | none ↦
            if write
            then err (http (record { status_code = 0; retry_after = pos 0; ambiguous = true }))
            else err (plain "Codex request failed")
        | some reply ↦ read_reply write now reply
      ]
