-- ===== src/Examples.antt =====
-- Data that the examples run the definitions on: one account, one credit that expires within the
-- hour, and services that answer without a fault. The code is that of internal/reset/engine.go.
pub mod Engine
pub mod Persistence
pub mod Codex
pub mod Setup
pub mod Delays
pub mod Pages
pub mod Lifecycle
pub mod Requests
pub mod Ambiguous
pub mod Locks
use cpa_codex_auto_reset.Prelude.{ℕ, ◌+◌, ◌*◌, ◌^◌, ◌-◌, String, true, false, none, some, [], ◌∷◌}
use cpa_codex_auto_reset.Prelude.Int.{pos, negsuc}
use cpa_codex_auto_reset.Prelude.Time.{Time, hour, second, unix_epoch, zero_time}
use cpa_codex_auto_reset.Account.{Account}
use cpa_codex_auto_reset.Config.{Config}
use cpa_codex_auto_reset.Codex.{Usage, Window, Credit, CreditList, ok, reset, percent}
use cpa_codex_auto_reset.State.{State, AccountState, Attempt, new_state, no_account}
use cpa_codex_auto_reset.Reset.Exec.{Env, World, no_fault}

abbrev pub noon : Time
noon = unix_epoch + 43200 * second

abbrev pub item : Account
item = record {
  ref = "acct";
  auth_index = "1";
  auth_id = "auth";
  label = "Main";
  email = "a@example.org";
  file_name = "a.json";
  access_token = "token";
  account_id = "id";
  disabled = false;
}

abbrev pub settings : Config
settings = record {
  enabled = true;
  priority = pos 0;
  management_url = "http://127.0.0.1:8317";
  management_key = "key";
  management_key_env = "";
  scan_interval_seconds = pos 300;
  post_reset_cooldown_seconds = pos 1800;
  failure_backoff_seconds = pos 300;
  state_dir = "/var/lib/plugin";
  default_participation = true;
  reset_threshold = pos 95;
  remote_management = false;
}

abbrev pub full_usage : Usage
full_usage = record {
  allowed = true;
  blocked = false;
  used_percent = percent 99;
  primary = some (record { used_percent = percent 99; reset_at = noon + hour });
  secondary = none;
  available_count = 1;
}

abbrev pub credit : Credit
credit = record { id = "credit-1"; ref = "ref-1"; expires_at = noon + hour }

abbrev pub one_credit : CreditList
one_credit = record { available_count = 1; available = credit ∷ [] }

-- Services that answer, and a disk that works.
abbrev pub calm : Env
calm = record {
  clock = λ t. noon + t * second;
  active = λ _. true;
  cancelled = λ _. false;
  scan_lock_free = λ _. true;
  discover = λ _. some (item ∷ []);
  usage = λ _. ok full_usage;
  credits = λ _. ok one_credit;
  consume = λ _. ok (record { code = reset; windows_reset = pos 1 });
  clear = λ _. none;
  readable = λ _. true;
  fault = λ _. no_fault;
  others = λ _. [];
  random = λ _. some λ i. i;
  jitter = λ _ _. 0;
  convert = λ _. negsuc (2 ^ 63 - 1);
  sha256_hex = λ s. s;
}

abbrev pub ready : AccountState
ready = record no_account { participating = true; present = some true }

abbrev pub fresh : State
fresh = record new_state { accounts = ("acct", ready) ∷ [] }

abbrev pub start : World
start = record { disk = fresh; tick = 0; calls = [] }

abbrev pub attempt : Attempt
attempt = record {
  attempt_id_ref = "a-1";
  credit_id = "credit-1";
  credit_ref = "ref-1";
  idempotency_key = "key-1";
  created_at = noon;
  expires_at = noon + hour;
  phase = "persisted";
  fingerprint = "mark";
  verification_count = 0;
  pre_available_count = 1;
  pre_used_percent = percent 99;
  pre_blocked = false;
}

-- The account with an attempt open.
abbrev pub open_account : AccountState
open_account = record ready { pending_attempt = some attempt }

abbrev pub open_state : State
open_state = record new_state { accounts = ("acct", open_account) ∷ [] }

-- An account that cools down for an hour.
abbrev pub cooling_account : AccountState
cooling_account = record ready {
  post_reset_cooldown = some (record { until = noon + hour; reason = "reset_verified" });
}

abbrev pub cooling_state : State
cooling_state = record new_state { accounts = ("acct", cooling_account) ∷ [] }
