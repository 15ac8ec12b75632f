-- ===== src/Config/Valid.antt =====
-- What a configuration that `Parse` accepts satisfies (internal/config/config.go).
use mathlib.Core.Path.{subst}
use cpa_codex_auto_reset.Prelude.{
  ◌*◌, ◌^◌, ◌≡◌, ◌⊎◌, ◌↔◌, inl, inr, refl, String, ◌==◌, true, false, not, ◌||◌, some, arith,
  eq_iff, Option-cases, Dict,
}
use cpa_codex_auto_reset.Prelude.Int.{ℤ, pos, negsuc, pos_part, ◌≤ℤ◌}
use cpa_codex_auto_reset.Prelude.Time.{of_seconds}
use cpa_codex_auto_reset.Prelude.Text.{is_empty}
use cpa_codex_auto_reset.Config.{Config, safe}
use cpa_codex_auto_reset.Config.Parse.{
  Platform, Url, Node, Checked, valid, refused, ◌>>=◌, is_loopback_host, with_default_threshold,
  check_numbers, check_url, validate, decode_mapping, decode_fields, default_config, trimmed,
  with_key, parse,
}

-- The numbers and the directory are in range.
pub record InRange (c : Config) : Type 0 where
  pub scan_low : pos 60 ≤ℤ c.scan_interval_seconds
  pub scan_high : c.scan_interval_seconds ≤ℤ pos 604800
  pub cooldown_low : pos 60 ≤ℤ c.post_reset_cooldown_seconds
  pub cooldown_high : c.post_reset_cooldown_seconds ≤ℤ pos 604800
  pub backoff_low : pos 60 ≤ℤ c.failure_backoff_seconds
  pub backoff_high : c.failure_backoff_seconds ≤ℤ pos 604800
  pub threshold_low : pos 80 ≤ℤ c.reset_threshold
  pub threshold_high : c.reset_threshold ≤ℤ pos 100
  pub directory : is_empty c.state_dir || c.state_dir == "." ≡ false

-- The management URL is absolute, over HTTP or HTTPS, without user and fragment, and the remote flag
-- says whether its host is another one.
pub record HasUrl (platform : Platform) (c : Config) (url : Url) : Type 0 where
  pub parsed : platform.parse_url c.management_url ≡ some url
  pub host : is_empty url.host ≡ false
  pub scheme : (url.scheme ≡ "http") ⊎ (url.scheme ≡ "https")
  pub no_user : url.user ≡ false
  pub no_fragment : is_empty url.fragment ≡ true
  pub hostname : is_empty url.hostname ≡ false
  pub remote : c.remote_management ≡ not (is_loopback_host platform url.hostname)

abbrev pub IsValid : Platform → Config → Type 0
IsValid platform c = InRange c × ((url : Url) × HasUrl platform c url)

abbrev pub Passes {ℓ κ} : {A : Type ℓ} → (A → Type κ) → Checked A → Type κ
Passes P (valid a) = P a
Passes P (refused _) = Unit

check_numbers_ok :
    (platform : Platform) (c c' : Config)
    → pos 80 ≤ℤ c.reset_threshold
    → check_numbers platform c ≡ valid c'
    → (c ≡ c') × InRange c
unfolding check_numbers
check_numbers_ok platform c c' low h = (
  ground (arith, h),
  record {
    scan_low = ground arith;
    scan_high = ground arith;
    cooldown_low = ground arith;
    cooldown_high = ground arith;
    backoff_low = ground arith;
    backoff_high = ground arith;
    threshold_low = low;
    threshold_high = ground arith;
    directory = ground arith;
  },
)

module _ (platform : Platform) where
  validate_ok : (c c' : Config) → validate platform c ≡ valid c' → IsValid platform c'
  unfolding validate check_url
  validate_ok c c' h = elim (Option-cases (platform.parse_url c.management_url)) [
    | inl unparsed ↦ absurd (ground (arith, h, unparsed))
    | inr (url, parsed) ↦
        let d = with_default_threshold platform c in
        let remote = not (is_loopback_host platform url.hostname) in
        let e = record d { remote_management = remote } in
        let checked : check_numbers platform e ≡ valid c' = ground (arith, h, parsed) in
        let done = check_numbers_ok platform e c' (ground arith) checked in
        (
          subst InRange done.0 done.1,
          (
            url,
            record {
              parsed = ground (arith, parsed, done.0);
              host = ground (arith, h, parsed);
              scheme =
                  ground (arith, h, parsed, eq_iff url.scheme "http", eq_iff url.scheme "https");
              no_user = ground (arith, h, parsed);
              no_fragment = ground (arith, h, parsed);
              hostname = ground (arith, h, parsed);
              remote = ground (arith, done.0);
            },
          ),
        )
  ]

  -- A valid configuration passes unchanged.
  validate_keeps : (c : Config) → IsValid platform c → validate platform c ≡ valid c
  unfolding validate check_url check_numbers
  validate_keeps c (range, (url, has)) = rw has.parsed (
      ground (
        arith,
        range.scan_low,
        range.scan_high,
        range.cooldown_low,
        range.cooldown_high,
        range.backoff_low,
        range.backoff_high,
        range.threshold_low,
        range.threshold_high,
        range.directory,
        has.host,
        has.scheme,
        has.no_user,
        has.no_fragment,
        has.hostname,
        has.remote,
        eq_iff url.scheme "http",
        eq_iff url.scheme "https",
      ))

  -- `Validate` accepts a configuration without changing it exactly if the configuration is valid; and
  -- whatever it returns is valid.
  pub validate_iff_IsValid :
      (c : Config)
      → Passes (IsValid platform) (validate platform c)
        × ((validate platform c ≡ valid c) ↔ IsValid platform c)
  validate_iff_IsValid c =
      (passes (validate platform c) refl, (λ h. validate_ok c c h, validate_keeps c))
    where
      passes : (r : Checked Config) → validate platform c ≡ r → Passes (IsValid platform) r
      passes (valid c') h = validate_ok c c' h
      passes (refused _) h = tt

  validated :
      (r : Checked Config)
      → Passes
          (IsValid platform)
          (r >>= λ c. validate platform (with_key platform (trimmed platform c)))
  validated (refused _) = tt
  validated (valid c) = (validate_iff_IsValid (with_key platform (trimmed platform c))).0

  -- Every configuration that `Parse` returns is valid, whatever the text and the environment hold.
  pub parse-IsValid : (raw : String) → Passes (IsValid platform) (parse platform raw)
  unfolding parse
  parse-IsValid raw = from_values (decode_mapping platform raw)
    where
      from_values :
          (values : Checked (Dict Node))
          → Passes (IsValid platform) (
              values >>= λ v. decode_fields v (default_config platform.default_state_dir) >>= λ c.
              validate platform (with_key platform (trimmed platform c)))
      from_values (refused _) = tt
      from_values (valid v) =
          validated (decode_fields v (default_config platform.default_state_dir))

seconds_exact : (n : ℤ) → pos 60 ≤ℤ n → n ≤ℤ pos 604800 → of_seconds n ≡ pos (pos_part n * 10 ^ 9)
seconds_exact (pos n) low high = ground (arith, high)
seconds_exact (negsuc n) low high = absurd (omega (arith, low))

-- The delays of a valid configuration are the configured seconds, exactly, in int64 nanoseconds.
pub InRange-exact :
    (c : Config)
    → InRange c
    → (of_seconds c.failure_backoff_seconds ≡ pos (pos_part c.failure_backoff_seconds * 10 ^ 9))
      × (of_seconds c.post_reset_cooldown_seconds
          ≡ pos (pos_part c.post_reset_cooldown_seconds * 10 ^ 9))
      × (of_seconds c.scan_interval_seconds ≡ pos (pos_part c.scan_interval_seconds * 10 ^ 9))
InRange-exact c r = (
  seconds_exact _ r.backoff_low r.backoff_high,
  seconds_exact _ r.cooldown_low r.cooldown_high,
  seconds_exact _ r.scan_low r.scan_high,
)

-- The view of the settings that leaves the plugin tells nothing about the key but whether there is one.
pub safe_hides_key :
    (c : Config) (key : String)
    → is_empty key ≡ is_empty c.management_key
    → safe (record c { management_key = key }) ≡ safe c
safe_hides_key c key same = rw same refl
