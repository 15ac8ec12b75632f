-- ===== src/Config.antt =====
-- The plugin's configuration (internal/config/config.go).
pub mod Parse
pub mod Valid
use cpa_codex_auto_reset.Prelude.{String, Bool, ◌&&◌, not}
use cpa_codex_auto_reset.Prelude.Int.{ℤ}
use cpa_codex_auto_reset.Prelude.Text.{is_empty}

pub record Config : Type 0 where
  pub enabled : Bool
  pub priority : ℤ
  pub management_url : String
  pub management_key : String
  pub management_key_env : String
  pub scan_interval_seconds : ℤ
  pub post_reset_cooldown_seconds : ℤ
  pub failure_backoff_seconds : ℤ
  pub state_dir : String
  pub default_participation : Bool
  pub reset_threshold : ℤ
  pub remote_management : Bool

pub record SafeView : Type 0 where
  pub enabled : Bool
  pub management_url : String
  pub management_key_configured : Bool
  pub scan_interval_seconds : ℤ
  pub post_reset_cooldown_seconds : ℤ
  pub failure_backoff_seconds : ℤ
  pub state_dir : String
  pub default_participation : Bool
  pub reset_threshold : ℤ
  pub remote_management_warning : Bool
  pub complete : Bool

-- `Safe`
abbrev pub safe : Config → SafeView
safe c = record {
  enabled = c.enabled;
  management_url = c.management_url;
  management_key_configured = not (is_empty c.management_key);
  scan_interval_seconds = c.scan_interval_seconds;
  post_reset_cooldown_seconds = c.post_reset_cooldown_seconds;
  failure_backoff_seconds = c.failure_backoff_seconds;
  state_dir = c.state_dir;
  default_participation = c.default_participation;
  reset_threshold = c.reset_threshold;
  remote_management_warning = c.remote_management;
  complete = not (is_empty c.management_url) && not (is_empty c.management_key);
}
