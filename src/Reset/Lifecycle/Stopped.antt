-- ===== src/Reset/Lifecycle/Stopped.antt =====
-- What happens to an engine once `Stop` is called (internal/reset/engine.go).
use cpa_codex_auto_reset.Prelude.{◌≡◌, refl, Bool, true, false, List, [], ◌∷◌, ◌∙◌, arith}
use cpa_codex_auto_reset.Config.{Config}
use cpa_codex_auto_reset.Reset.Lifecycle.{
  Engine, Event, Phase, Stopping, returned, Lock, by_loop, not_started, in_scan, ended, checking,
  scanning, running, waiting, stops, notices, loop_try_lock, rechecks, finishes, new_engine, stop,
  step, run,
}

abbrev pub is_scanning : Lock → Bool
is_scanning (scanning _) = true
is_scanning _ = false

-- The lock is held by the goroutine's own scan.
abbrev holds : Lock → Bool
holds (checking (by_loop _)) = true
holds (scanning (by_loop _)) = true
holds _ = false

abbrev is_in_scan : Phase → Bool
is_in_scan (in_scan _) = true
is_in_scan _ = false

abbrev is_born : Phase → Bool
is_born not_started = false
is_born _ = true

-- `Stop` is past its wait for the scan lock.
abbrev pub is_past : Stopping → Bool
is_past running = false
is_past waiting = false
is_past _ = true

record Inv (e : Engine) : Type 0 where
  stopped_cancelled : e.active ≡ false → e.cancelled ≡ true
  running_active : e.stopping ≡ running → e.active ≡ true
  waiting_inactive : e.stopping ≡ waiting → e.active ≡ false
  passed_inactive : is_past e.stopping ≡ true → e.active ≡ false
  passed_quiet : is_past e.stopping ≡ true → is_scanning e.lock ≡ false
  own_lock : is_in_scan e.loop ≡ holds e.lock
  born : is_born e.loop ≡ e.started

new_engine-Inv : (c : Config) → Inv (new_engine c)
new_engine-Inv c = ground arith

step-Inv : (v : Event) (e : Engine) → Inv e → Inv (step v e)
unfolding step
step-Inv v e h = ground arith

run-Inv : (vs : List Event) (e : Engine) → Inv e → Inv (run vs e)
unfolding run
run-Inv [] e h = h
run-Inv (v ∷ vs) e h = run-Inv vs (step v e) (step-Inv v e h)

-- The goroutine was started before the call of `Stop` that swapped the flag.
record Joined (e : Engine) : Type 0 where
  started : e.started ≡ true
  gone : e.stopping ≡ returned false → e.loop ≡ ended
  swapped : e.stopping ≡ running → e.active ≡ true

step-Joined : (v : Event) (e : Engine) → Inv e → Joined e → Joined (step v e)
unfolding step
step-Joined v e i h = ground arith

run-Joined : (vs : List Event) (e : Engine) → Inv e → Joined e → Joined (run vs e)
unfolding run
run-Joined [] e i h = h
run-Joined (v ∷ vs) e i h = run-Joined vs (step v e) (step-Inv v e i) (step-Joined v e i h)

stop-Joined : (e : Engine) → e.active ≡ true → e.started ≡ true → Joined (stop e)
unfolding stop
stop-Joined e live started = ground arith

step_inactive :
    (v : Event) (e : Engine)
    → e.active ≡ false
    → ((step v e).active ≡ false) × ((step v e).begun ≡ e.begun)
unfolding step
step_inactive v e h = ground arith

run_inactive :
    (vs : List Event) (e : Engine)
    → e.active ≡ false
    → ((run vs e).active ≡ false) × ((run vs e).begun ≡ e.begun)
unfolding run
run_inactive [] e h = (h, refl)
run_inactive (v ∷ vs) e h =
    let one = step_inactive v e h in
    let rest = run_inactive vs (step v e) one.0 in (rest.0, rest.1 ∙ one.1)

stop_inactive : (e : Engine) → (stop e).active ≡ false
unfolding stop
stop_inactive e = ground arith

-- An engine on which `Stop` has been called begins no scan any more, whatever its timers and its
-- callers do, also where a caller had passed the first check of `Scan` before; once that `Stop` is
-- past its wait for the scan lock, no scan is under way; and once the first call of `Stop` returns
-- without running out of its 15 seconds, a goroutine that was started before has ended.
pub stop_is_final :
    (c : Config) (before after : List Event)
    → let e = run before (new_engine c) in
      let e' = run after (stop e) in
      (e'.begun ≡ (stop e).begun)
      × (is_past e'.stopping ≡ true → is_scanning e'.lock ≡ false)
      × (e.active ≡ true → e.started ≡ true → e'.stopping ≡ returned false → e'.loop ≡ ended)
unfolding step
stop_is_final c before after =
    let e = run before (new_engine c) in
    let h = step-Inv stops e (run-Inv before (new_engine c) (new_engine-Inv c)) in
    (
      (run_inactive after (stop e) (stop_inactive e)).1,
      (run-Inv after (stop e) h).passed_quiet,
      λ live started. (run-Joined after (stop e) h (stop-Joined e live started)).gone,
    )

drains :
    (e : Engine)
    → Inv e
    → e.active ≡ false
    → e.started ≡ true
    → (run (finishes ∷ loop_try_lock ∷ rechecks ∷ notices ∷ []) e).loop ≡ ended
unfolding run step
drains e h stopped started = ground arith

-- The goroutine of a started engine on which `Stop` was called has ended as soon as the scan under
-- way is over, its own call of `Scan`, if it is in one, has tried the lock and made the second
-- check, and its `select` has chosen the cancelled context, wherever it stood.
pub stop_ends_loop :
    (c : Config) (events : List Event)
    → let e = run events (new_engine c) in
      e.active ≡ false
      → e.started ≡ true
      → (run (finishes ∷ loop_try_lock ∷ rechecks ∷ notices ∷ []) e).loop ≡ ended
stop_ends_loop c events stopped started =
    drains (run events (new_engine c)) (run-Inv events (new_engine c) (new_engine-Inv c)) stopped
      started
