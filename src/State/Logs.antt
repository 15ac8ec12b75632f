-- ===== src/State/Logs.antt =====
-- The log after `AppendLog` (internal/state/model.go).
use cpa_codex_auto_reset.Prelude.{
  ◌+◌, ◌-◌, ◌≤◌, ◌≡◌, min, [], ◌∷◌, ◌++◌, arith, length, take, length-append, length-drop,
  take-append-drop,
}
use cpa_codex_auto_reset.State.{State, LogEntry, max_logs, append_log}

abbrev pub LogsBounded : State → Type 0
LogsBounded s = length s.logs ≤ max_logs

-- After an append the log is the old log with the new entry at its end, less as many of the oldest
-- entries as exceed 500 in all: whatever its length was, it is then at most 500 entries long.
pub append_log_tail :
    (entry : LogEntry) (s : State)
    → let all = s.logs ++ entry ∷ [] in
      (take (length all - max_logs) all ++ (append_log entry s).logs ≡ all)
      × (length (append_log entry s).logs ≡ min (length s.logs + 1) max_logs)
unfolding append_log
append_log_tail entry s =
    let all = s.logs ++ entry ∷ [] in
    (
      ground (arith, take-append-drop (length all - max_logs) all),
      ground (arith, length-append s.logs (entry ∷ []), length-drop (length all - max_logs) all),
    )

pub append_log-LogsBounded : (entry : LogEntry) (s : State) → LogsBounded (append_log entry s)
append_log-LogsBounded entry s = omega (arith, (append_log_tail entry s).1)
