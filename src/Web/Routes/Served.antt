-- ===== src/Web/Routes/Served.antt =====
-- The registered routes and resources reach their handlers (internal/web/handler.go: `Registration`,
-- `route`, `resource`).
use cpa_codex_auto_reset.Prelude.{
  ◌≡◌, ◌≢◌, refl, not, if◌then◌else◌, String, ◌==◌, ◌||◌, ◌&&◌, ◌↔◌, Bool, true, false, Option,
  none, some, List, [], ◌∷◌, All, arith, map,
}
use cpa_codex_auto_reset.Prelude.Text.{concat, trim_space, has_prefix, strip_prefix}
use cpa_codex_auto_reset.State.Store.{Disk}
use cpa_codex_auto_reset.Web.Pages.{
  Site, Response, json_error, asset_body, resource_prefix, status_page, accounts_page, logs_page,
  participation_page, scan_page, resource,
}
use cpa_codex_auto_reset.Web.Routes.{
  Route, Request, registration, is_at, from_same_origin, cross_origin, dispatch, route,
}
use cpa_codex_auto_reset.Web.Routes.Guarded.{path_of}

module _ (site : Site) (d : Disk) where
  participation_status : (raw : String) → (participation_page site raw d).0.status_code ≢ 404
  unfolding participation_page
  participation_status raw = ground arith

  scan_status : (raw : String) → (scan_page site raw d).0.status_code ≢ 404
  unfolding scan_page
  scan_status raw = ground arith

  logs_status : (logs_page site d).status_code ≢ 404
  unfolding logs_page
  logs_status = ground arith

-- A registered route has this method and this path.
abbrev pub is_registered : List Route → String → String → Bool
is_registered [] method path = false
is_registered (r ∷ rs) method path =
    (method == r.method && path == r.path) || is_registered rs method path

-- The response has the text of the file, or is an internal error where it cannot be read.
abbrev pub IsAnswered : Option String → String → Response → Type 0
IsAnswered (some raw) content_type r =
    (r.status_code ≡ 200) × (r.content_type ≡ content_type) × (r.body ≡ asset_body raw)
IsAnswered none content_type r = r.status_code ≡ 500

served :
    (asset : Option String) (content_type : String)
    → IsAnswered asset content_type (elim asset [
      | none ↦ json_error 500 "resource_unavailable"
      | some raw ↦ record { status_code = 200; content_type = content_type; body = asset_body raw }
    ])
served none content_type = refl
served (some raw) content_type = (refl, refl, refl)

-- A resource's path, its file and the file's content type.
pub record Resource : Type 0 where
  pub path : String
  pub file : String
  pub content_type : String

abbrev pub resources : List Resource
resources =
    record {
      path = "/v0/resource/plugins/cpa-codex-auto-reset/status";
      file = "assets/index.html";
      content_type = "text/html; charset=utf-8";
    }
    ∷ record {
      path = "/v0/resource/plugins/cpa-codex-auto-reset/app.css";
      file = "assets/app.css";
      content_type = "text/css; charset=utf-8";
    }
    ∷ record {
      path = "/v0/resource/plugins/cpa-codex-auto-reset/app.js";
      file = "assets/app.js";
      content_type = "text/javascript; charset=utf-8";
    }
    ∷ []

abbrev IsMissing : Response × Disk → Type 0
IsMissing r = r.0.status_code ≡ 404

-- A chain of five tests whose last branch alone is "not found"; the routes are listed in another
-- order.
chosen :
    (a b c d e : Bool) (ra rb rc rd re other : Response × Disk)
    → ¬ IsMissing ra
    → ¬ IsMissing rb
    → ¬ IsMissing rc
    → ¬ IsMissing rd
    → ¬ IsMissing re
    → IsMissing other
    → IsMissing (
        if a
        then ra
        else if b
        then rb
        else if c
        then rc
        else if d
        then rd
        else if e
        then re
        else other)
      ↔ ((a || (b || (d || (c || (e || false))))) ≡ false)
chosen true b c d e ra rb rc rd re other na nb nc nd ne m = (λ h. absurd (na h), λ h. cc)
chosen false true c d e ra rb rc rd re other na nb nc nd ne m = (λ h. absurd (nb h), λ h. cc)
chosen false false true d e ra rb rc rd re other na nb nc nd ne m =
    (λ h. absurd (nc h), λ h. ground (arith, h))
chosen false false false true e ra rb rc rd re other na nb nc nd ne m =
    (λ h. absurd (nd h), λ h. cc)
chosen false false false false true ra rb rc rd re other na nb nc nd ne m =
    (λ h. absurd (ne h), λ h. cc)
chosen false false false false false ra rb rc rd re other na nb nc nd ne m = (λ h. refl, λ h. m)

module _ (site : Site) (request : Request) (d : Disk) where
  dispatch_404 :
      (path : String)
      → ((dispatch site request path d).0.status_code ≡ 404)
        ↔ (is_registered registration.routes request.method path ≡ false)
  unfolding dispatch
  dispatch_404 path =
      chosen (is_at request path "GET" "/status") (is_at request path "GET" "/accounts")
        (is_at request path "GET" "/logs") (is_at request path "PUT" "/accounts/participation")
        (is_at request path "POST" "/scan") (status_page site d, d)
        (accounts_page site site.io d, d) (logs_page site d, d) guarded_participation guarded_scan
        (json_error 404 "route_not_found", d) (λ h. ground arith) (λ h. ground arith)
        (logs_status site d) (λ h. ground (arith, participation_status site d request.body))
        (λ h. ground (arith, scan_status site d request.body)) refl
    where
      guarded_participation : Response × Disk
      guarded_participation =
          if not (from_same_origin site request)
          then (cross_origin site, d)
          else participation_page site request.body d

      guarded_scan : Response × Disk
      guarded_scan =
          if not (from_same_origin site request)
          then (cross_origin site, d)
          else scan_page site request.body d

  -- Outside the resources the answer is "not found" exactly if no registered route has the request's
  -- method and its path, with or without "/v0/management" before it. The registered resources are the
  -- page and its two files, app.css and app.js, below "/v0/resource/plugins/cpa-codex-auto-reset", and
  -- each is answered with the text of its file and its content type, or with an internal error where
  -- the file cannot be read.
  pub route_404_iff :
      (has_prefix (trim_space request.path) resource_prefix ≡ false
        → ((route site request d).0.status_code ≡ 404)
          ↔ (is_registered registration.routes request.method (path_of request) ≡ false))
      × (map (concat resource_prefix) registration.resources ≡ map (λ r. r.path) resources)
      × All
          (λ r.
            trim_space request.path ≡ r.path
            → IsAnswered (site.asset r.file) r.content_type (route site request d).0)
          resources
  unfolding route resource strip_prefix
  route_404_iff = (
    λ api. rw api (dispatch_404 (path_of request)),
    refl,
    (
      λ at. rw at (served (site.asset "assets/index.html") "text/html; charset=utf-8"),
      (
        λ at. rw at (served (site.asset "assets/app.css") "text/css; charset=utf-8"),
        (λ at. rw at (served (site.asset "assets/app.js") "text/javascript; charset=utf-8"), tt),
      ),
    ),
  )
