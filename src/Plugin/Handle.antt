-- ===== src/Plugin/Handle.antt =====
-- `Handle` for the methods that are no life cycle calls, and the runtime as the pages see it
-- (internal/plugin/runtime.go: `Handle`, `Config`, `Store`, `Scan`, `Registration`).
use cpa_codex_auto_reset.Prelude.{
  ℕ, ◌≡◌, refl, String, Bool, false, Option, none, some, List, [], ◌∷◌, is_some, arith,
  Option-cases, inl, inr,
}
use cpa_codex_auto_reset.Prelude.Time.{Time}
use cpa_codex_auto_reset.State.{no_summary}
use cpa_codex_auto_reset.State.Store.{Io, Disk}
use cpa_codex_auto_reset.Reset.Scan.{ScanResult}
use cpa_codex_auto_reset.Web.Origin.{Web}
use cpa_codex_auto_reset.Web.Pages.{
  Site, Response, Payload, ParticipationRequest, participation_page, scan_page,
}
use cpa_codex_auto_reset.Web
use cpa_codex_auto_reset.Web.Routes.{Request, route, handle}
use cpa_codex_auto_reset.Web.Routes.Guarded.{route_guarded}
use cpa_codex_auto_reset.Plugin.Runtime.{Runtime}

-- What the pages use besides the runtime: the fields of `Site`, and the scan of an engine.
pub record Outside : Type 0 where
  pub web : Web
  pub io : Io
  pub io_again : Io
  pub scan_of : ℕ → Disk → ScanResult × Disk
  pub now : Time
  pub encodable : Payload → Bool
  pub decode_request : String → Option Request
  pub decode_participation : String → Option ParticipationRequest
  pub decode_empty : String → Bool
  pub asset : String → Option String

pub data FieldType : Type 0 where
  text integer boolean : FieldType

-- `configFields`, without the descriptions
abbrev pub config_fields : List (String × FieldType)
config_fields =
    ("management-url", text)
    ∷ ("management-key", text)
    ∷ ("management-key-env", text)
    ∷ ("scan-interval-seconds", integer)
    ∷ ("post-reset-cooldown-seconds", integer)
    ∷ ("failure-backoff-seconds", integer)
    ∷ ("state-dir", text)
    ∷ ("default-participation", boolean)
    ∷ ("reset_thresh", integer)
    ∷ []

-- The methods of the host's interface other than the two of the life cycle.
pub data Method : Type 0 where
  usage_handle management_register management_handle unknown : Method

-- What `Handle` answers to them.
pub data Reply : Type 0 where
  usage_done : Reply
  routes : Web.Routes.Registration → Reply
  page : Response → Reply
  unknown_method : Reply
  go_error : String → Reply

module _ (outside : Outside) (r : Runtime) where
  -- `Scan` of the runtime
  abbrev pub scan : Disk → ScanResult × Disk
  scan d = elim r.engine [
    | none ↦ (record { summary = no_summary; error = some "reset engine is unavailable" }, d)
    | some i ↦ outside.scan_of i d
  ]

  -- The runtime as the interface `Runtime` of the pages.
  abbrev pub site : Site
  site = record {
    web = outside.web;
    config = r.config;
    has_store = is_some r.store;
    io = outside.io;
    io_again = outside.io_again;
    scan = scan;
    now = outside.now;
    encodable = outside.encodable;
    decode_participation = outside.decode_participation;
    decode_empty = outside.decode_empty;
    asset = outside.asset;
  }

  abbrev paged : Option Response × Disk → Reply × Disk
  paged (none, d) = (go_error "invalid management request", d)
  paged (some response, d) = (page response, d)

  -- `Handle`
  unfoldable pub serve : Method → String → Disk → Reply × Disk
  serve usage_handle raw d = (usage_done, d)
  serve management_register raw d = (routes Web.Routes.registration, d)
  serve management_handle raw d = paged (handle site outside.decode_request raw d)
  serve unknown raw d = (unknown_method, d)

participation_kept :
    (s : Site) (raw : String) (d : Disk) → s.has_store ≡ false → (participation_page s raw d).1 ≡ d
unfolding participation_page
participation_kept s raw d bare = ground arith

scan_kept : (s : Site) (raw : String) (d : Disk) → (s.scan d).1 ≡ d → (scan_page s raw d).1 ≡ d
unfolding scan_page
scan_kept s raw d kept = ground arith

route_kept :
    (s : Site) (request : Request) (d : Disk)
    → s.has_store ≡ false
    → (s.scan d).1 ≡ d
    → (route s request d).1 ≡ d
route_kept s request d bare kept = elim (route_guarded s request d) [
  | inl same ↦ same
  | inr (_, inl (_, is)) ↦ rw is (participation_kept s request.body d bare)
  | inr (_, inr (_, is)) ↦ rw is (scan_kept s request.body d kept)
]

-- A runtime that has no engine and no store, as it is before its first configuration and while it is
-- being configured, changes nothing on the disk, whatever request it is given by any method other
-- than `plugin.register` and `plugin.reconfigure`, which are to configure it.
pub unconfigured_changes_nothing :
    (outside : Outside) (r : Runtime) (m : Method) (raw : String) (d : Disk)
    → r.engine ≡ none
    → r.store ≡ none
    → (serve outside r m raw d).1 ≡ d
unfolding serve
unconfigured_changes_nothing outside r usage_handle raw d e s = refl
unconfigured_changes_nothing outside r management_register raw d e s = refl
unconfigured_changes_nothing outside r management_handle raw d e s =
    elim (Option-cases (outside.decode_request raw)) [
      | inl bad ↦ ground (arith, bad)
      | inr (request, good) ↦
          ground (arith, good, route_kept (site outside r) request d (ground arith) (ground arith))
    ]
unconfigured_changes_nothing outside r unknown raw d e s = refl
