-- ===== src/Reset/Lifecycle.antt =====
-- The life of an engine (internal/reset/engine.go: `New`, `Start`, its goroutine, `Stop`, and the way
-- in and out of `Scan`), one access of shared memory at a time. Which event comes next is open: the
-- timers, the callers of `Scan`, and the choice of a `select` that has two channels ready.
pub mod Stopped
pub mod Triggers
use cpa_codex_auto_reset.Prelude.{
  ℕ, zero, suc, String, Bool, true, false, not, ◌&&◌, ◌||◌, List, [], ◌∷◌, if◌then◌else◌,
}
use cpa_codex_auto_reset.Config.{Config, safe}

-- Who calls `Scan`: the engine's goroutine, or anyone else.
pub data Caller : Type 0 where
  by_loop : String → Caller
  by_hand : Caller

-- Where the goroutine of `Start` stands; `delaying` and `ready` are its two `select` statements,
-- `admitted` is past the first check of `Scan`, `in_scan` past its `TryLock`.
pub data Phase : Type 0 where
  not_started delaying ready : Phase
  admitted in_scan : String → Phase
  ended : Phase

-- `scanMu`, with what its holder does: `checking` is before the second check.
pub data Lock : Type 0 where
  free : Lock
  checking scanning : Caller → Lock

-- How far the call of `Stop` is that swapped the flag: `passed` is past its wait for `scanMu`, and
-- `returned` says whether the 15 seconds for the goroutine ran out.
pub data Stopping : Type 0 where
  running waiting passed : Stopping
  returned : Bool → Stopping

-- `hands` is the number of other callers past the first check of `Scan`; `begun` has the callers of
-- the scans that got past the second, the latest first.
pub record Engine : Type 0 where
  pub config : Config
  pub active : Bool
  pub started : Bool
  pub cancelled : Bool
  pub loop : Phase
  pub lock : Lock
  pub hands : ℕ
  pub stopping : Stopping
  pub begun : List Caller
  -- the triggers of the goroutine's own calls of `Scan`, the latest first
  pub called : List String

-- `New`
abbrev pub new_engine : Config → Engine
new_engine config = record {
  config = config;
  active = true;
  started = false;
  cancelled = false;
  loop = not_started;
  lock = free;
  hands = 0;
  stopping = running;
  begun = [];
  called = [];
}

abbrev pub can_start : Config → Bool
can_start config = config.enabled && (safe config).complete

-- `Start`
unfoldable pub start : Engine → Engine
start e =
    if not (can_start e.config) || e.started
    then e
    else record e { started = true; loop = delaying }

-- `Stop`, up to its wait for `scanMu`
unfoldable pub stop : Engine → Engine
stop e =
    if not e.active then e else record e { active = false; cancelled = true; stopping = waiting }

abbrev lock_passed : Stopping → Lock → Stopping
lock_passed waiting free = passed
lock_passed s _ = s

abbrev is_over : Phase → Bool
is_over ended = true
is_over _ = false

-- The end of `Stop`: the goroutine is done, or was never started, or the time is up.
abbrev return_from : Stopping → Bool → Engine → Engine
return_from passed timed_out e =
    if not e.started || is_over e.loop || timed_out
    then record e { stopping = returned timed_out }
    else e
return_from _ timed_out e = e

-- The goroutine calls `Scan`, which reads the flag.
abbrev call_scan : String → Engine → Engine
call_scan trigger e = record e {
  loop = if e.active then admitted trigger else ready;
  called = trigger ∷ e.called;
}

-- A timer's channel is chosen by a `select` of the goroutine.
abbrev pub fire_at : Phase → Engine → Engine
fire_at delaying e = call_scan "startup" e
fire_at ready e = call_scan "scheduled" e
fire_at _ e = e

-- `<-e.ctx.Done()` is chosen.
abbrev noticed : Phase → Phase
noticed delaying = ended
noticed ready = ended
noticed p = p

abbrev enter : Caller → Lock → Lock
enter c free = checking c
enter c held = held

abbrev is_free : Lock → Bool
is_free free = true
is_free _ = false

-- `scanMu.TryLock()` of the goroutine's scan; without the lock the scan is over.
abbrev loop_locks : Phase → Engine → Engine
loop_locks (admitted t) e = record e {
  loop = if is_free e.lock then in_scan t else ready;
  lock = enter (by_loop t) e.lock;
}
loop_locks _ e = e

abbrev hand_locks : ℕ → Engine → Engine
hand_locks zero e = e
hand_locks (suc n) e = record e { hands = n; lock = enter by_hand e.lock }

-- The end of a scan that holds the lock.
abbrev release : Caller → Engine → Engine
release (by_loop _) e = record e { lock = free; loop = ready }
release by_hand e = record e { lock = free }

-- The second check of `Scan`.
abbrev pub recheck_at : Lock → Engine → Engine
recheck_at (checking c) e =
    if e.active then record e { lock = scanning c; begun = c ∷ e.begun } else release c e
recheck_at _ e = e

abbrev finish_at : Lock → Engine → Engine
finish_at (scanning c) e = release c e
finish_at _ e = e

pub data Event : Type 0 where
  starts stops passes_lock parent_ends fires notices loop_try_lock hand_calls hand_try_lock rechecks
        finishes :
      Event
  stop_returns : Bool → Event

-- An event that the engine's state does not allow changes nothing.
unfoldable pub step : Event → Engine → Engine
unfolding start stop
step starts e = start e
step stops e = stop e
step passes_lock e = record e { stopping = lock_passed e.stopping e.lock }
step parent_ends e = record e { cancelled = true }
step fires e = fire_at e.loop e
step notices e = if e.cancelled then record e { loop = noticed e.loop } else e
step loop_try_lock e = loop_locks e.loop e
step hand_calls e = if e.active then record e { hands = suc e.hands } else e
step hand_try_lock e = hand_locks e.hands e
step rechecks e = recheck_at e.lock e
step finishes e = finish_at e.lock e
step (stop_returns timed_out) e = return_from e.stopping timed_out e

unfoldable pub run : List Event → Engine → Engine
run [] e = e
run (v ∷ vs) e = run vs (step v e)
