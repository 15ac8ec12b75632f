-- ===== src/Web/Routes.antt =====
-- Which request goes where (internal/web/handler.go: `Registration`, `Handle`, `route`).
pub mod Guarded
pub mod Served
use cpa_codex_auto_reset.Prelude.{
  String, ◌==◌, Bool, not, ◌&&◌, Option, none, some, List, [], ◌∷◌, if◌then◌else◌,
}
use cpa_codex_auto_reset.Prelude.Text.{concat, trim_space, has_prefix, trim_prefix}
use cpa_codex_auto_reset.State.Store.{Disk}
use cpa_codex_auto_reset.Web.Origin.{Headers, same_origin}
use cpa_codex_auto_reset.Web.Pages.{
  Site, Response, api_prefix, resource_prefix, json_error, status_page, accounts_page, logs_page,
  participation_page, scan_page, resource,
}

-- The interface of the routes, without their descriptions and the menu's label.
pub record Route : Type 0 where
  pub method : String
  pub path : String

pub record Registration : Type 0 where
  pub routes : List Route
  pub resources : List String

abbrev route_at : String → String → Route
route_at method path = record { method = method; path = concat api_prefix path }

-- `Registration`
abbrev pub registration : Registration
registration = record {
  routes =
      route_at "GET" "/status"
      ∷ route_at "GET" "/accounts"
      ∷ route_at "PUT" "/accounts/participation"
      ∷ route_at "GET" "/logs"
      ∷ route_at "POST" "/scan"
      ∷ [];
  resources = "/status" ∷ "/app.css" ∷ "/app.js" ∷ [];
}

-- `pluginapi.ManagementRequest`, as far as it is read
pub record Request : Type 0 where
  pub method : String
  pub path : String
  pub headers : Headers
  pub body : String

abbrev pub management_prefix : String
management_prefix = "/v0/management"

-- `request.Method == method && path == apiPrefix+suffix`
abbrev pub is_at : Request → String → String → String → Bool
is_at request path method suffix = request.method == method && path == concat api_prefix suffix

module _ (site : Site) where
  abbrev pub from_same_origin : Request → Bool
  from_same_origin request = same_origin site.web site.config.management_url request.headers

  abbrev pub cross_origin : Response
  cross_origin = json_error 403 "cross_origin_rejected"

  -- The `switch` of `route`.
  unfoldable pub dispatch : Request → String → Disk → Response × Disk
  dispatch request path d =
      if is_at request path "GET" "/status"
      then (status_page site d, d)
      else if is_at request path "GET" "/accounts"
      then (accounts_page site site.io d, d)
      else if is_at request path "GET" "/logs"
      then (logs_page site d, d)
      else if is_at request path "PUT" "/accounts/participation"
      then (if not (from_same_origin request)
          then (cross_origin, d)
          else participation_page site request.body d)
      else if is_at request path "POST" "/scan"
      then (if not (from_same_origin request)
          then (cross_origin, d)
          else scan_page site request.body d)
      else (json_error 404 "route_not_found", d)

  -- `route`
  unfoldable pub route : Request → Disk → Response × Disk
  route request d =
      let path = trim_space request.path in
      if has_prefix path resource_prefix
      then (resource site path, d)
      else dispatch request (trim_prefix path management_prefix) d

  -- `Handle`; `decode` reads the request, none is an error.
  abbrev pub handle : (String → Option Request) → String → Disk → Option Response × Disk
  handle decode raw d = elim (decode raw) [
    | none ↦ (none, d)
    | some request ↦ let (response, d') = route request d in (some response, d')
  ]
