-- ===== src/Examples/Locks.antt =====
-- Calls that contend for a mutex (internal/reset/engine.go: `accountLock`) and for the state file
-- (internal/state/store.go: `Update`).
use cpa_codex_auto_reset.Prelude.{◌+◌, Option, some, ◌≤◌, ◌≡◌, refl, List, [], ◌∷◌, lookup, insert}
use cpa_codex_auto_reset.State.{State, new_state}
use cpa_codex_auto_reset.State.Shared
use cpa_codex_auto_reset.State.Shared.{updates_are_serial}
use cpa_codex_auto_reset.Reset.AccountLocks.{
  Event, begins, enters, leaves, idle, at_work, account_lock, step, run,
}
use cpa_codex_auto_reset.Reset.AccountLocks.Exclusive.{account_lock_excludes}

-- The last call to begin has the index 0.
abbrev schedule : List Event
schedule = begins "a" ∷ begins "b" ∷ begins "a" ∷ enters 2 ∷ enters 1 ∷ []

account_lock_excludes_example :
    (at_work "a" (run schedule idle).calls ≤ 1)
    × (at_work "a" (step (enters 0) (run schedule idle)).calls ≡ 1)
unfolding run step account_lock lookup insert
account_lock_excludes_example = account_lock_excludes schedule 0 _ refl refl "a"

-- The second call gets in when the first has returned.
enters_later : at_work "a" (run (leaves 2 ∷ enters 0 ∷ []) (run schedule idle)).calls ≡ 1
unfolding run step account_lock lookup insert
enters_later = refl

-- Each update adds one to the version.
abbrev next_version : State → Option State
next_version s = some (record s { version = s.version + 1 })

-- The second call is refused while the first holds the file lock, and tries again.
abbrev contended : List Shared.Event
contended =
    Shared.locks 0 next_version
    ∷ Shared.reads 0
    ∷ Shared.locks 1 next_version
    ∷ Shared.replaces 0
    ∷ Shared.returns 0
    ∷ Shared.locks 1 next_version
    ∷ Shared.reads 1
    ∷ Shared.replaces 1
    ∷ []

updates_are_serial_example :
    let s = Shared.run contended (Shared.untouched new_state) in
    Shared.replay s.committed new_state ≡ some s.file
updates_are_serial_example = updates_are_serial new_state contended

both_written : (Shared.run contended (Shared.untouched new_state)).file.version ≡ 3
unfolding Shared.run Shared.step
both_written = refl
