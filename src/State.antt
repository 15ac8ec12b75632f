-- ===== src/State.antt =====
-- The persistent state of the plugin (internal/state/model.go).
-- A map is an association list with text keys. A nil entry of `Accounts` is read by every operation
-- as a missing one, so the map holds no such entries; a nil and an empty map are not told apart.
pub mod Logs
pub mod Participation
pub mod Reconcile
pub mod Store
pub mod Shared
use cpa_codex_auto_reset.Prelude.{
  ℕ, ◌+◌, ◌-◌, String, Bool, true, false, Option, none, some, List, [], ◌∷◌, ◌++◌, Dict, ltb,
  length, drop, if◌then◌else◌,
}
use cpa_codex_auto_reset.Prelude.Int.{ℤ, pos}
use cpa_codex_auto_reset.Prelude.Time
use cpa_codex_auto_reset.Prelude.Time.{Time}

abbrev pub schema_version : ℕ
schema_version = 1

abbrev pub max_logs : ℕ
max_logs = 500

pub record AccountDisplay : Type 0 where
  pub label : String
  pub email : String
  pub file_name : String
  pub auth_id : String

-- `pre_used_percent` counts units of 2^-1074, of which every finite float64 is a multiple.
pub record Attempt : Type 0 where
  pub attempt_id_ref : String
  pub credit_id : String
  pub credit_ref : String
  pub idempotency_key : String
  pub created_at : Time
  pub expires_at : Time
  pub phase : String
  pub fingerprint : String
  pub verification_count : ℕ
  pub pre_available_count : ℕ
  pub pre_used_percent : ℕ
  pub pre_blocked : Bool

pub record Cooldown : Type 0 where
  pub until : Time
  pub reason : String

pub record Backoff : Type 0 where
  pub until : Time
  pub fingerprint : String
  pub level : ℕ
  pub reason : String

pub record PendingLocalClear : Type 0 where
  pub auth_index : String
  pub created_at : Time
  pub next_retry_at : Time
  pub attempts : ℕ

pub record AccountState : Type 0 where
  pub participating : Bool
  pub participation_set_at : Time
  pub last_seen_at : Time
  pub present : Option Bool
  pub display : AccountDisplay
  pub pending_attempt : Option Attempt
  pub tombstones : Dict Time
  pub post_reset_cooldown : Option Cooldown
  pub failure_backoff : Option Backoff
  pub pending_local_clear : Option PendingLocalClear
  pub last_fingerprint : String
  pub last_result : String
  pub available_credits : ℕ
  pub earliest_expires_at : Time
  pub used_percent : ℕ
  pub blocked : Bool
  pub last_scanned_at : Time
  pub last_error_code : String

pub record ScanSummary : Type 0 where
  pub started_at : Time
  pub finished_at : Time
  pub trigger : String
  pub accounts : ℕ
  pub eligible : ℕ
  pub reset : ℕ
  pub errors : ℕ
  pub error : String

pub record LogEntry : Type 0 where
  pub time : Time
  pub event : String
  pub trigger : String
  pub account_ref : String
  pub participating : Bool
  pub credit_ref : String
  pub decision : String
  pub outcome : String
  pub attempt_id_ref : String
  pub next_attempt_at : Time
  pub duration_ms : ℤ
  pub error_code : String

-- The fields that a composite literal leaves out are zero values.
abbrev pub no_entry : LogEntry
no_entry = record {
  time = Time.zero_time;
  event = "";
  trigger = "";
  account_ref = "";
  participating = false;
  credit_ref = "";
  decision = "";
  outcome = "";
  attempt_id_ref = "";
  next_attempt_at = Time.zero_time;
  duration_ms = pos 0;
  error_code = "";
}

abbrev pub no_summary : ScanSummary
no_summary = record {
  started_at = Time.zero_time;
  finished_at = Time.zero_time;
  trigger = "";
  accounts = 0;
  eligible = 0;
  reset = 0;
  errors = 0;
  error = "";
}

abbrev pub no_display : AccountDisplay
no_display = record { label = ""; email = ""; file_name = ""; auth_id = "" }

abbrev pub no_account : AccountState
no_account = record {
  participating = false;
  participation_set_at = Time.zero_time;
  last_seen_at = Time.zero_time;
  present = none;
  display = no_display;
  pending_attempt = none;
  tombstones = [];
  post_reset_cooldown = none;
  failure_backoff = none;
  pending_local_clear = none;
  last_fingerprint = "";
  last_result = "";
  available_credits = 0;
  earliest_expires_at = Time.zero_time;
  used_percent = 0;
  blocked = false;
  last_scanned_at = Time.zero_time;
  last_error_code = "";
}

pub record State : Type 0 where
  pub version : ℕ
  pub accounts : Dict AccountState
  pub management_cooldown : Option Cooldown
  pub last_scan : ScanSummary
  pub logs : List LogEntry

-- `state.New`
abbrev pub new_state : State
new_state = record {
  version = schema_version;
  accounts = [];
  management_cooldown = none;
  last_scan = no_summary;
  logs = [];
}

-- `IsPresent`, at an account that is not nil
abbrev pub is_present : AccountState → Bool
is_present a = elim a.present [ none ↦ true | some p ↦ p ]

abbrev keep_last : List LogEntry → List LogEntry
keep_last logs = if ltb max_logs (length logs) then drop (length logs - max_logs) logs else logs

-- `AppendLog`
unfoldable pub append_log : LogEntry → State → State
append_log entry s = record s { logs = keep_last (s.logs ++ entry ∷ []) }
