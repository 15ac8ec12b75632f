-- ===== src/Management.antt =====
-- The errors of the Management API client (internal/management/client.go).
pub mod ResetQuota
use cpa_codex_auto_reset.Prelude.{ℕ, String, Bool, false, ◌||◌, eqb}

-- An `*HTTPError` with its status, or an error with a text alone.
pub data ManagementError : Type 0 where
  http : ℕ → ManagementError
  plain : String → ManagementError

-- `errors.As(err, &httpErr)` and a status of 401 or 403
abbrev pub is_auth_failure : ManagementError → Bool
is_auth_failure (http status) = eqb status 401 || eqb status 403
is_auth_failure (plain _) = false
