-- ===== src/Web.antt =====
-- The management pages (internal/web/handler.go): the status page, the account list and
-- `nextAllowedAt`, as functions of the loaded state. Letter case is an argument.
pub mod Origin
pub mod Status
pub mod NextAllowed
pub mod Newest
pub mod Pages
pub mod Accepted
pub mod Routes
use cpa_codex_auto_reset.Prelude.{
  ℕ, ◌+◌, ◌*◌, String, ◌==◌, starts_with, Bool, true, false, not, ◌&&◌, ◌||◌, Option, none, some,
  List, [], ◌∷◌, Dict, ltb, leb, eqb, length, if◌then◌else◌,
}
use cpa_codex_auto_reset.Prelude.Time
use cpa_codex_auto_reset.Prelude.Time.{Time, after, add, is_zero, of_seconds}
use cpa_codex_auto_reset.Prelude.Text.{concat, is_empty, text_less}
use cpa_codex_auto_reset.Prelude.Sort.{sort_by}
use cpa_codex_auto_reset.Config.{Config, SafeView, safe}
use cpa_codex_auto_reset.State.{
  State, AccountState, Cooldown, Backoff, PendingLocalClear, ScanSummary, is_present,
}

abbrev pub cooldown_until : Option Cooldown → Time
cooldown_until none = Time.zero_time
cooldown_until (some c) = c.until

abbrev pub backoff_until : Option Backoff → Time
backoff_until none = Time.zero_time
backoff_until (some b) = b.until

abbrev pub pending_clear_until : Option PendingLocalClear → Time
pending_clear_until none = Time.zero_time
pending_clear_until (some p) = p.next_retry_at

abbrev latest : List Time → Time → Time
latest [] next = next
latest (candidate ∷ candidates) next =
    latest candidates (if after candidate next then candidate else next)

-- `nextAllowedAt`
unfoldable pub next_allowed_at : AccountState → Time
next_allowed_at item =
    latest
      (cooldown_until item.post_reset_cooldown
        ∷ backoff_until item.failure_backoff
        ∷ pending_clear_until item.pending_local_clear
        ∷ [])
      Time.zero_time

pub record StatusCounts : Type 0 where
  pub total : ℕ
  pub participating : ℕ
  pub not_participating : ℕ
  pub with_credits : ℕ
  pub cooling_or_backoff : ℕ
  pub errors : ℕ

abbrev pub no_counts : StatusCounts
no_counts = record {
  total = 0;
  participating = 0;
  not_participating = 0;
  with_credits = 0;
  cooling_or_backoff = 0;
  errors = 0;
}

abbrev pub one_if : Bool → ℕ
one_if true = 1
one_if false = 0

-- One round of the loop of `status`.
unfoldable pub count_account : AccountState → StatusCounts → StatusCounts
count_account item c = if not (is_present item) then c else record {
  total = c.total + 1;
  participating = c.participating + one_if item.participating;
  not_participating = c.not_participating + one_if (not item.participating);
  with_credits = c.with_credits + one_if (ltb 0 item.available_credits);
  cooling_or_backoff = c.cooling_or_backoff + one_if (not (is_zero (next_allowed_at item)));
  errors = c.errors + one_if (not (is_empty item.last_error_code));
}

unfoldable pub count_accounts : Dict AccountState → StatusCounts → StatusCounts
count_accounts [] c = c
count_accounts ((_, item) ∷ accounts) c = count_accounts accounts (count_account item c)

pub record StatusResponse : Type 0 where
  pub plugin_id : String
  pub version : String
  pub config : SafeView
  pub last_scan : ScanSummary
  pub next_scan : Time
  pub counts : StatusCounts

-- The body of `status` on a state that was loaded.
abbrev pub status : Config → State → StatusResponse
status cfg current = record {
  plugin_id = "cpa-codex-auto-reset";
  version = "0.1.7";
  config = safe cfg;
  last_scan = current.last_scan;
  next_scan =
      if is_zero current.last_scan.finished_at
      then Time.zero_time
      else add current.last_scan.finished_at (of_seconds cfg.scan_interval_seconds);
  counts = count_accounts current.accounts no_counts;
}

abbrev pub optional_time : Time → Option Time
optional_time t = if is_zero t then none else some t

pub record AccountView : Type 0 where
  pub id : String
  pub label : String
  pub email : String
  pub file_name : String
  pub participating : Bool
  pub available_credits : ℕ
  pub earliest_expires_at : Option Time
  pub used_percent : ℕ
  pub blocked : Bool
  pub last_result : String
  pub next_allowed_at : Option Time
  pub last_scanned_at : Option Time
  pub error_code : String

abbrev pub view : String → AccountState → AccountView
view ref item = record {
  id = ref;
  label = item.display.label;
  email = item.display.email;
  file_name = item.display.file_name;
  participating = item.participating;
  available_credits = item.available_credits;
  earliest_expires_at = optional_time item.earliest_expires_at;
  used_percent = item.used_percent;
  blocked = item.blocked;
  last_result = item.last_result;
  next_allowed_at = optional_time (next_allowed_at item);
  last_scanned_at = optional_time item.last_scanned_at;
  error_code = item.last_error_code;
}

-- The loop of `accounts`.
unfoldable pub views : Dict AccountState → List AccountView
views [] = []
views ((ref, item) ∷ accounts) =
    let rest = views accounts in if not (is_present item) then rest else view ref item ∷ rest

-- The order of the list; `to_lower` is `strings.ToLower`.
abbrev pub by_name : (String → String) → AccountView → AccountView → Bool
by_name to_lower a b = text_less (concat (to_lower a.label) a.id) (concat (to_lower b.label) b.id)

-- The body of `accounts`
unfoldable pub account_list : (String → String) → State → List AccountView
account_list to_lower current = sort_by (by_name to_lower) (views current.accounts)
