-- ===== src/Web/Pages.antt =====
-- The requests that the management pages answer (internal/web/handler.go: `load`, `status`,
-- `accounts`, `logs`, `participation`, `scan`, `resource`, `jsonResponse`). JSON is read and written
-- by arguments: a body is the value that is encoded.
use cpa_codex_auto_reset.Prelude.{
  ℕ, ◌^◌, String, ◌==◌, Bool, true, false, not, ◌&&◌, ◌||◌, Option, none, some, List, [], ltb, eqb,
  length, if◌then◌else◌,
}
use cpa_codex_auto_reset.Prelude.Time.{Time}
use cpa_codex_auto_reset.Prelude.Text.{concat, trim_space, is_empty, byte_length, trim_prefix}
use cpa_codex_auto_reset.Config.{Config}
use cpa_codex_auto_reset.State.{State, LogEntry, ScanSummary}
use cpa_codex_auto_reset.State.Participation.{ParticipationResult, set_participation}
use cpa_codex_auto_reset.State.Store.{Io, Disk, Loaded, loaded, unreadable, corrupt}
use cpa_codex_auto_reset.State.Store
use cpa_codex_auto_reset.Reset.Scan.{ScanResult}
use cpa_codex_auto_reset.Web.{StatusResponse, AccountView, account_list, status}
use cpa_codex_auto_reset.Web.Origin.{Web}
use cpa_codex_auto_reset.Web.Newest.{newest_first}

abbrev pub api_prefix : String
api_prefix = "/plugins/cpa-codex-auto-reset"

abbrev pub resource_prefix : String
resource_prefix = "/v0/resource/plugins/cpa-codex-auto-reset"

abbrev pub max_request_body : ℕ
max_request_body = 2 ^ 20

-- What is encoded into the body of a response.
pub data Payload : Type 0 where
  error_body : String → Payload
  status_body : StatusResponse → Payload
  accounts_body : List AccountView → Payload
  logs_body : List LogEntry → Payload
  updated_body : ℕ → List String → List AccountView → Payload
  scan_refused_body scan_body : ScanSummary → Payload
  asset_body : String → Payload

pub record Response : Type 0 where
  pub status_code : ℕ
  pub content_type : String
  pub body : Payload

-- The request of `participation`; `participating` may be missing.
pub record ParticipationRequest : Type 0 where
  pub auth_ids : List String
  pub participating : Option Bool

-- What a handler reads: the interface `Runtime`, the operating system during its first and its second
-- access to the state file, the time, and JSON. `scan` is the engine's `Scan`; `decode_participation`
-- and `decode_empty` refuse unknown fields and anything behind the value.
pub record Site : Type 0 where
  pub web : Web
  pub config : Config
  pub has_store : Bool
  pub io : Io
  pub io_again : Io
  pub scan : Disk → ScanResult × Disk
  pub now : Time
  pub encodable : Payload → Bool
  pub decode_participation : String → Option ParticipationRequest
  pub decode_empty : String → Bool
  pub asset : String → Option String

-- `jsonError`, whose payload always encodes
abbrev pub json_error : ℕ → String → Response
json_error status_code code = record {
  status_code = status_code;
  content_type = "application/json; charset=utf-8";
  body = error_body code;
}

module _ (site : Site) where
  -- `jsonResponse`
  abbrev pub json_response : ℕ → Payload → Response
  json_response status_code payload =
      if not (site.encodable payload) then json_error 500 "response_encode_failed" else record {
        status_code = status_code;
        content_type = "application/json; charset=utf-8";
        body = payload;
      }

  abbrev state_of : Loaded → Option State
  state_of (loaded s) = some s
  state_of unreadable = none
  state_of corrupt = none

  -- `load`
  abbrev pub load : Io → Disk → Option State
  load io d = if site.has_store then state_of (Store.load io d.target) else none

  abbrev pub answer : Option State → (State → Payload) → Response
  answer none page = json_error 503 "state_unavailable"
  answer (some s) page = json_response 200 (page s)

  -- `status`
  abbrev pub status_page : Disk → Response
  status_page d = answer (load site.io d) λ s. status_body (status site.config s)

  -- `accounts`
  abbrev pub accounts_page : Io → Disk → Response
  accounts_page io d = answer (load io d) λ s. accounts_body (account_list site.web.to_lower s)

  -- `logs`
  unfoldable pub logs_page : Disk → Response
  logs_page d = answer (load site.io d) λ s. logs_body (newest_first s.logs)

  -- What `participation` reads back from the body of `accounts`.
  abbrev accounts_of : Payload → List AccountView
  accounts_of (accounts_body views) = views
  accounts_of _ = []

  -- `SetParticipation`: whether it returned nil, its result, and the disk.
  abbrev pub result_of : Loaded → (State → ParticipationResult) → ParticipationResult
  result_of (loaded s) f = f s
  result_of _ f = record { updated = 0; unknown = [] }

  abbrev pub set_on_disk : List String → Bool → Disk → Bool × ParticipationResult × Disk
  set_on_disk refs participating d =
      let change = set_participation refs participating site.now in
      let run = Store.update site.io (λ s. some (change s).0) d in
      let result = result_of (Store.load site.io d.target) (λ s. (change s).1) in
      if site.has_store
      then (run.done, result, run.disk)
      else (false, record { updated = 0; unknown = [] }, d)

  -- The checks of `participation` on the decoded request.
  abbrev pub is_complete : ParticipationRequest → Bool → Bool
  is_complete r given =
      given && not (eqb (length r.auth_ids) 0) && not (ltb 1000 (length r.auth_ids))

  abbrev pub set_and_list : List String → Bool → Disk → Response × Disk
  set_and_list refs participating d =
      let (done, result, d') = set_on_disk refs participating d in
      if not done then (json_error 503 "state_update_failed", d') else (
        json_response 200 (
            updated_body result.updated result.unknown
              (accounts_of (accounts_page site.io_again d').body)),
        d',
      )

  abbrev invalid : Disk → Response × Disk
  invalid d = (json_error 400 "invalid_request_body", d)

  abbrev pub checked : Option ParticipationRequest → Disk → Response × Disk
  checked none d = invalid d
  checked (some r) d = elim r.participating [
    | none ↦ invalid d
    | some participating ↦
        if is_complete r true then set_and_list r.auth_ids participating d else invalid d
  ]

  -- `participation`
  unfoldable pub participation_page : String → Disk → Response × Disk
  participation_page raw d =
      if eqb (byte_length raw) 0 || ltb max_request_body (byte_length raw)
      then invalid d
      else checked (site.decode_participation raw) d

  abbrev scanned : ScanResult × Disk → Response × Disk
  scanned (r, d) = elim r.error [
    | none ↦ (json_response 202 (scan_body r.summary), d)
    | some _ ↦ (json_response 409 (scan_refused_body r.summary), d)
  ]

  -- `scan`
  unfoldable pub scan_page : String → Disk → Response × Disk
  scan_page raw d =
      if ltb max_request_body (byte_length raw)
      then invalid d
      else if not (is_empty (trim_space raw)) && not (site.decode_empty raw)
      then invalid d
      else scanned (site.scan d)

  abbrev serve_asset : String → String → Response
  serve_asset name content_type = elim (site.asset name) [
    | none ↦ json_error 500 "resource_unavailable"
    | some raw ↦ record { status_code = 200; content_type = content_type; body = asset_body raw }
  ]

  -- `resource`
  unfoldable pub resource : String → Response
  resource path =
      let name = trim_prefix path (concat resource_prefix "/") in
      if name == "status"
      then serve_asset "assets/index.html" "text/html; charset=utf-8"
      else if name == "app.css"
      then serve_asset "assets/app.css" "text/css; charset=utf-8"
      else if name == "app.js"
      then serve_asset "assets/app.js" "text/javascript; charset=utf-8"
      else json_error 404 "resource_not_found"
