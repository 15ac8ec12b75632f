-- ===== src/Config/Parse.antt =====
-- `Parse` and `Validate` (internal/config/config.go). YAML, URLs, paths, IP addresses, letter case and
-- the environment are read by functions that are arguments, together in `Platform`.
use cpa_codex_auto_reset.Prelude.{
  ℕ, ◌*◌, String, ◌==◌, Bool, true, false, not, ◌&&◌, ◌||◌, Option, none, some, List, [], ◌∷◌, ◌++◌,
  Dict, lookup, is_some, if◌then◌else◌,
}
use Prim.Native.Char.{code}
use cpa_codex_auto_reset.Prelude.{eqb}
use cpa_codex_auto_reset.Prelude.Int.{ℤ, pos, ltb_ℤ}
use cpa_codex_auto_reset.Prelude.Text.{concat, trim_space, is_empty}
use cpa_codex_auto_reset.Config.{Config}

abbrev pub default_config : String → Config
default_config state_dir = record {
  enabled = false;
  priority = pos 0;
  management_url = "http://127.0.0.1:8317";
  management_key = "";
  management_key_env = "CPA_MANAGEMENT_KEY";
  scan_interval_seconds = pos 300;
  post_reset_cooldown_seconds = pos 1800;
  failure_backoff_seconds = pos 300;
  state_dir = state_dir;
  default_participation = false;
  reset_threshold = pos 95;
  remote_management = false;
}

abbrev pub minimum_scan_interval_seconds : ℕ
minimum_scan_interval_seconds = 60

abbrev pub minimum_cooldown_seconds : ℕ
minimum_cooldown_seconds = 60

abbrev pub maximum_interval_seconds : ℕ
maximum_interval_seconds = 7 * 24 * 60 * 60

abbrev pub minimum_reset_threshold : ℕ
minimum_reset_threshold = 80

abbrev pub maximum_reset_threshold : ℕ
maximum_reset_threshold = 100

-- `*url.URL`, as far as it is read
pub record Url : Type 0 where
  pub scheme : String
  pub host : String
  pub hostname : String
  pub user : Bool
  pub fragment : String

-- A YAML node: whether it is a scalar, and what decoding it into each type gives.
pub record Node : Type 0 where
  pub scalar : Bool
  pub as_string : Option String
  pub as_bool : Option Bool
  pub as_int : Option ℤ

-- What `yaml.Unmarshal` finds: no document, a root that is no mapping, or a mapping.
pub data Document : Type 0 where
  invalid_yaml empty_document other_root : Document
  mapping : List (String × Node) → Document

pub record Platform : Type 0 where
  pub read_yaml : String → Document
  pub parse_url : String → Option Url
  pub clean_path : String → String
  -- `ip.IsLoopback()` of what `net.ParseIP` reads
  pub loopback_ip : String → Option Bool
  pub equal_fold : String → String → Bool
  pub has_suffix_of_lower : String → String → Bool
  pub to_lower : String → String
  pub getenv : String → String
  pub default_state_dir : String

pub data Checked {ℓ} (A : Type ℓ) : Type ℓ where
  valid : A → Checked A
  refused : String → Checked A

infixl 5 ◌>>=◌
abbrev pub ◌>>=◌ {ℓ} : {A B : Type ℓ} → Checked A → (A → Checked B) → Checked B
valid a >>= f = f a
refused e >>= f = refused e

-- `strings.TrimRight(s, "/")`
pub trim_slashes : String → String
trim_slashes String.[] = String.[]
trim_slashes (String.◌∷◌ c s) =
    let r = trim_slashes s in if is_empty r && eqb (code c) 47 then String.[] else String.◌∷◌ c r

abbrev pub is_outside_range : ℤ → ℕ → ℕ → Bool
is_outside_range n low high = ltb_ℤ n (pos low) || ltb_ℤ (pos high) n

-- `strings.ReplaceAll(s, "_", "-")`
pub dashed : String → String
dashed String.[] = String.[]
dashed (String.◌∷◌ c s) = concat (if eqb (code c) 95 then "-" else String.◌∷◌ c "") (dashed s)

-- `normalizeKey`; `to_lower` is `strings.ToLower`.
unfoldable pub normalize_key : (String → String) → String → String
unfolding dashed
normalize_key to_lower key = dashed (to_lower (trim_space key))

module _ (platform : Platform) where
  -- `isLoopbackHost`
  unfoldable pub is_loopback_host : String → Bool
  is_loopback_host host =
      if platform.equal_fold host "localhost" then true else elim (platform.loopback_ip host) [
        | some b ↦ b
        | none ↦ platform.has_suffix_of_lower host ".localhost"
      ]

  abbrev pub with_default_threshold : Config → Config
  with_default_threshold c =
      if ltb_ℤ c.reset_threshold (pos minimum_reset_threshold)
      then record c { reset_threshold = pos 95 }
      else c

  -- The checks of `Validate` that follow the URL.
  unfoldable pub check_numbers : Config → Checked Config
  check_numbers c =
      if is_outside_range c.scan_interval_seconds minimum_scan_interval_seconds
        maximum_interval_seconds
      then refused "scan-interval-seconds must be between 60 and 604800"
      else if is_outside_range c.post_reset_cooldown_seconds minimum_cooldown_seconds
          maximum_interval_seconds
      then refused "post-reset-cooldown-seconds must be between 60 and 604800"
      else if is_outside_range c.failure_backoff_seconds minimum_cooldown_seconds
          maximum_interval_seconds
      then refused "failure-backoff-seconds must be between 60 and 604800"
      else if ltb_ℤ (pos maximum_reset_threshold) c.reset_threshold
      then refused "reset-thresh must not exceed 100"
      else if is_empty c.state_dir || c.state_dir == "."
      then refused "state-dir must not be empty"
      else valid c

  unfoldable pub check_url : Option Url → Config → Checked Config
  check_url none c = refused "management-url must be an absolute HTTP(S) URL"
  check_url (some url) c =
      if is_empty url.host
      then refused "management-url must be an absolute HTTP(S) URL"
      else if not (url.scheme == "http") && not (url.scheme == "https")
      then refused "management-url must use HTTP or HTTPS"
      else if url.user || not (is_empty url.fragment)
      then refused "management-url must not contain userinfo or fragment"
      else if is_empty url.hostname
      then refused "management-url host is required"
      else check_numbers (record c { remote_management = not (is_loopback_host url.hostname) })

  -- `Validate`
  unfoldable pub validate : Config → Checked Config
  validate c = check_url (platform.parse_url c.management_url) (with_default_threshold c)

  -- The loop of `decodeMapping`.
  pub gather_fields : List (String × Node) → Dict Node → Checked (Dict Node)
  gather_fields [] values = valid values
  gather_fields ((name, node) ∷ rest) values =
      let key = normalize_key platform.to_lower name in
      let others = gather_fields rest (values ++ (key, node) ∷ []) in
      if is_some (lookup key values) then refused "duplicate configuration field" else others

  -- `decodeMapping`
  unfoldable pub decode_mapping : String → Checked (Dict Node)
  unfolding gather_fields
  decode_mapping raw =
      if is_empty (trim_space raw) then valid [] else elim (platform.read_yaml raw) [
        | invalid_yaml ↦ refused "invalid plugin configuration YAML"
        | empty_document ↦ valid []
        | other_root ↦ refused "plugin configuration must be a mapping"
        | mapping fields ↦ gather_fields fields []
      ]

abbrev decoded {ℓ} : {A : Type ℓ} → Option A → String → Checked A
decoded (some a) message = valid a
decoded none message = refused message

-- `decodeString`, `decodeBool`, `decodeInt`: the old value stays where the key is missing.
abbrev pub decode_string : Dict Node → String → String → Checked String
decode_string values key old = elim (lookup key values) [
  | none ↦ valid old
  | some node ↦
      if node.scalar then decoded node.as_string "must be a string" else refused "must be a string"
]

abbrev pub decode_bool : Dict Node → String → Bool → Checked Bool
decode_bool values key old = elim (lookup key values) [
  | none ↦ valid old
  | some node ↦ decoded node.as_bool "must be a boolean"
]

abbrev pub decode_int : Dict Node → String → ℤ → Checked ℤ
decode_int values key old = elim (lookup key values) [
  | none ↦ valid old
  | some node ↦ decoded node.as_int "must be an integer"
]

-- The fields of `Parse`, over the defaults.
unfoldable pub decode_fields : Dict Node → Config → Checked Config
decode_fields values c = decode_bool values "enabled" c.enabled >>= λ enabled.
    decode_int values "priority" c.priority >>= λ priority.
    decode_string values "management-url" c.management_url >>= λ management_url.
    decode_string values "management-key" c.management_key >>= λ management_key.
    decode_string values "management-key-env" c.management_key_env >>= λ management_key_env.
    decode_int values "scan-interval-seconds" c.scan_interval_seconds >>= λ scan.
    decode_int values "post-reset-cooldown-seconds" c.post_reset_cooldown_seconds >>= λ cooldown.
    decode_int values "failure-backoff-seconds" c.failure_backoff_seconds >>= λ backoff.
    decode_string values "state-dir" c.state_dir >>= λ state_dir.
    decode_bool values "default-participation" c.default_participation >>= λ participation.
    decode_int values "reset-thresh" c.reset_threshold >>= λ threshold. valid (record c {
      enabled = enabled;
      priority = priority;
      management_url = management_url;
      management_key = management_key;
      management_key_env = management_key_env;
      scan_interval_seconds = scan;
      post_reset_cooldown_seconds = cooldown;
      failure_backoff_seconds = backoff;
      state_dir = state_dir;
      default_participation = participation;
      reset_threshold = threshold;
    })

module _ (platform : Platform) where
  -- The trimming of `Parse`.
  abbrev pub trimmed : Config → Config
  trimmed c = record c {
    management_url = trim_slashes (trim_space c.management_url);
    management_key = trim_space c.management_key;
    management_key_env = trim_space c.management_key_env;
    state_dir = platform.clean_path (trim_space c.state_dir);
  }

  -- The key from the environment, where none is configured.
  abbrev pub with_key : Config → Config
  with_key c =
      if is_empty c.management_key && not (is_empty c.management_key_env)
      then record c { management_key = trim_space (platform.getenv c.management_key_env) }
      else c

  -- `Parse`
  unfoldable pub parse : String → Checked Config
  parse raw = decode_mapping platform raw >>= λ values.
      decode_fields values (default_config platform.default_state_dir) >>= λ c.
      validate platform (with_key (trimmed c))
