-- ===== src/Web/Origin.antt =====
-- The check against requests from other sites (internal/web/handler.go: `sameOrigin`,
-- `equivalentHost`, `normalizedPort`, `isLoopback`). URLs, IP addresses and letter case are arguments.
use cpa_codex_auto_reset.Prelude.{
  String, ◌==◌, ◌≡◌, ◌⊎◌, refl, Bool, true, false, not, ◌&&◌, ◌||◌, Option, none, some, arith,
  eq_iff, if◌then◌else◌,
}
use cpa_codex_auto_reset.Prelude.Text.{trim_space, is_empty}

pub record Link : Type 0 where
  pub scheme : String
  pub hostname : String
  pub port : String

pub record Web : Type 0 where
  pub parse_url : String → Option Link
  pub to_lower : String → String
  -- `IsLoopback` of what `net.ParseIP` reads, false where it reads nothing
  pub is_loopback_ip : String → Bool
  -- `strings.HasSuffix(host, ".localhost")`
  pub under_localhost : String → Bool

pub record Headers : Type 0 where
  pub sec_fetch_site : String
  pub origin : String
  pub referer : String

-- `normalizedPort`
unfoldable pub normalized_port : Link → String
normalized_port l =
    if not (is_empty l.port) then l.port else if l.scheme == "https" then "443" else "80"

module _ (web : Web) where
  -- `isLoopback`
  unfoldable pub is_loopback : String → Bool
  is_loopback host =
      if host == "localhost" || web.under_localhost host then true else web.is_loopback_ip host

  -- `equivalentHost`
  unfoldable pub equivalent_host : Link → Link → Bool
  equivalent_host left right =
      let left_host = web.to_lower left.hostname in
      let right_host = web.to_lower right.hostname in
      if not (normalized_port left == normalized_port right)
      then false
      else if left_host == right_host
      then true
      else is_loopback left_host && is_loopback right_host

  abbrev both_parsed : Option Link → Option Link → Bool
  both_parsed (some source) (some target) =
      if is_empty source.hostname || is_empty target.hostname
      then false
      else equivalent_host source target
  both_parsed _ _ = false

  abbrev pub site_of : Headers → String
  site_of h = web.to_lower (trim_space h.sec_fetch_site)

  -- `Origin`, or else `Referer`
  abbrev pub source_of : Headers → String
  source_of h = if is_empty (trim_space h.origin) then trim_space h.referer else trim_space h.origin

  -- `sameOrigin`, with the configured management URL
  unfoldable pub same_origin : String → Headers → Bool
  same_origin management_url h =
      let site = site_of h in
      if not (is_empty site)
      then site == "same-origin" || site == "none"
      else if is_empty (source_of h)
      then true
      else both_parsed (web.parse_url (source_of h)) (web.parse_url management_url)

  -- The two URLs have a host and the same port, and their hosts are the same or both this machine.
  pub record SamePlace (source target : Link) : Type 0 where
    pub source_host : is_empty source.hostname ≡ false
    pub target_host : is_empty target.hostname ≡ false
    pub port : normalized_port source ≡ normalized_port target
    pub host :
        (web.to_lower source.hostname ≡ web.to_lower target.hostname)
        ⊎ ((is_loopback (web.to_lower source.hostname) ≡ true)
            × (is_loopback (web.to_lower target.hostname) ≡ true))

  both_parsed-SamePlace :
      (a b : Option Link)
      → both_parsed a b ≡ true
      → (source : Link) × (target : Link) × (a ≡ some source)
        × (b ≡ some target)
        × SamePlace source target
  unfolding equivalent_host
  both_parsed-SamePlace (some s) (some t) h = (
    s,
    t,
    refl,
    refl,
    record {
      source_host = ground arith;
      target_host = ground arith;
      port = ground (arith, eq_iff (normalized_port s) (normalized_port t));
      host = ground (arith, eq_iff (web.to_lower s.hostname) (web.to_lower t.hostname));
    },
  )
  both_parsed-SamePlace (some s) none h = absurd (ground arith)
  both_parsed-SamePlace none b h = absurd (ground arith)

  -- A request that names no site of its own by `Sec-Fetch-Site` but an origin or a referrer is accepted
  -- only if that URL and the management URL have the same port and name the same host, or both this
  -- machine.
  pub same_origin_lem :
      (management_url : String) (h : Headers)
      → is_empty (site_of h) ≡ true
      → is_empty (source_of h) ≡ false
      → same_origin management_url h ≡ true
      → (source : Link) × (target : Link) × (web.parse_url (source_of h) ≡ some source)
        × (web.parse_url management_url ≡ some target)
        × SamePlace source target
  unfolding same_origin
  same_origin_lem management_url h no_site some_source accepted =
      both_parsed-SamePlace _ _ (ground (arith, no_site, some_source, accepted))
