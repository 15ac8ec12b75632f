-- ===== src/Web/Routes/Guarded.antt =====
-- Which requests may change anything (internal/web/handler.go: `route`).
use cpa_codex_auto_reset.Prelude.{◌≡◌, ◌⊎◌, refl, inl, inr, String, true, arith, eq_iff, Bool-cases}
use cpa_codex_auto_reset.Prelude.Text.{concat, trim_space, has_prefix, trim_prefix}
use cpa_codex_auto_reset.State.Store.{Disk}
use cpa_codex_auto_reset.Web.Pages.{
  Site, Response, api_prefix, resource_prefix, participation_page, scan_page,
}
use cpa_codex_auto_reset.Web.Routes.{
  Request, management_prefix, is_at, from_same_origin, dispatch, route,
}

abbrev pub path_of : Request → String
path_of request = trim_prefix (trim_space request.path) management_prefix

module _ (site : Site) (request : Request) (d : Disk) where
  -- The request is one of the two that change state, by its method and its path.
  abbrev pub IsWrite : String → String → Type 0
  IsWrite method suffix = (request.method ≡ method) × (path_of request ≡ concat api_prefix suffix)

  -- The two handlers that change state.
  abbrev pub Writes : Response × Disk → Type 0
  Writes r =
      (IsWrite "PUT" "/accounts/participation" × (r ≡ participation_page site request.body d))
      ⊎ (IsWrite "POST" "/scan" × (r ≡ scan_page site request.body d))

  dispatch_guarded :
      (path : String)
      → let r = dispatch site request path d in
        (r.1 ≡ d)
        ⊎ ((from_same_origin site request ≡ true)
            × (((is_at request path "PUT" "/accounts/participation" ≡ true)
                  × (r ≡ participation_page site request.body d))
                ⊎ ((is_at request path "POST" "/scan" ≡ true)
                    × (r ≡ scan_page site request.body d))))
  unfolding dispatch
  dispatch_guarded path = ground arith

  is_at-IsWrite :
      (method suffix : String)
      → is_at request (path_of request) method suffix ≡ true
      → IsWrite method suffix
  is_at-IsWrite method suffix h = (
    ground (arith, h, eq_iff request.method method),
    ground (arith, h, eq_iff (path_of request) (concat api_prefix suffix)),
  )

  -- A request changes nothing on the disk, unless it comes from the same origin and is either a PUT
  -- to the participation path, which is then the work of `participation`, or a POST to the scan path,
  -- which is then the work of `scan`.
  pub route_guarded :
      ((route site request d).1 ≡ d)
      ⊎ ((from_same_origin site request ≡ true) × Writes (route site request d))
  unfolding route
  route_guarded = elim (Bool-cases (has_prefix (trim_space request.path) resource_prefix)) [
    | inl static ↦ rw static (inl refl)
    | inr other ↦ rw other (elim (dispatch_guarded (path_of request)) [
      | inl kept ↦ inl kept
      | inr (same, inl (at, is)) ↦
          inr (same, inl (is_at-IsWrite _ "/accounts/participation" at, is))
      | inr (same, inr (at, is)) ↦ inr (same, inr (is_at-IsWrite _ "/scan" at, is))
    ])
  ]
