-- ===== src/Reset/Lifecycle/Triggers.antt =====
-- Which scans the goroutine of `Start` begins (internal/reset/engine.go).
use cpa_codex_auto_reset.Prelude.{
  ◌≡◌, ◌≢◌, Bool, ◌==◌, ◌&&◌, ◌||◌, eq_iff, ◌∙◌, refl, sym, ap, String, true, false, List, [], ◌∷◌,
  arith,
}
use cpa_codex_auto_reset.Config.{Config}
use cpa_codex_auto_reset.Reset.Lifecycle.{
  Engine, Event, Phase, Lock, Caller, by_loop, by_hand, not_started, delaying, ready, admitted,
  in_scan, ended, free, checking, scanning, starts, stops, passes_lock, parent_ends, fires, notices,
  loop_try_lock, hand_calls, hand_try_lock, rechecks, finishes, stop_returns, fire_at, recheck_at,
  can_start, new_engine, step, run,
}

-- The triggers of the goroutine's own scans, the latest first.
abbrev pub own_triggers : List Caller → List String
own_triggers [] = []
own_triggers (by_loop t ∷ cs) = t ∷ own_triggers cs
own_triggers (by_hand ∷ cs) = own_triggers cs

-- The first is for the startup, and all others are scheduled.
abbrev pub StartupFirst : List String → Type 0
StartupFirst [] = Unit {0}
StartupFirst (t ∷ []) = t ≡ "startup"
StartupFirst (t ∷ u ∷ ts) = (t ≡ "scheduled") × StartupFirst (u ∷ ts)

-- The first list has elements of the second, each at most once and in its order.
abbrev pub is_among : List String → List String → Bool
is_among [] us = true
is_among (t ∷ ts) [] = false
is_among (t ∷ ts) (u ∷ us) = let rest = is_among (t ∷ ts) us in t == u && is_among ts us || rest

-- The latest call is for this trigger, and its scan has not begun.
abbrev Called : String → List String → List String → Type 0
Called t ts [] = ⊥
Called t ts (u ∷ us) = (t ≡ u) × (is_among ts us ≡ true)

-- Where the goroutine stands, against the calls that it has made.
abbrev Ahead : Phase → List String → List String → Type 0
Ahead not_started ts us = us ≡ []
Ahead delaying ts us = us ≡ []
Ahead ready ts us = us ≢ []
Ahead (admitted t) ts us = Called t ts us
Ahead (in_scan t) ts us = us ≢ []
Ahead ended ts us = Unit {0}

abbrev Held : Lock → Phase → List String → List String → Type 0
Held (checking (by_loop t)) p ts us = (p ≡ in_scan t) × Called t ts us
Held (scanning (by_loop t)) p ts us = p ≡ in_scan t
Held _ p ts us = Unit {0}

abbrev Allowed : Phase → Config → Type 0
Allowed not_started c = Unit {0}
Allowed _ c = can_start c ≡ true

record Inv (e : Engine) : Type 0 where
  startup_first : StartupFirst e.called
  among : is_among (own_triggers e.begun) e.called ≡ true
  ahead : Ahead e.loop (own_triggers e.begun) e.called
  held : Held e.lock e.loop (own_triggers e.begun) e.called
  allowed : Allowed e.loop e.config
  unborn : e.started ≡ false → e.loop ≡ not_started

is_among-skip :
    (u : String) (ts us : List String) → is_among ts us ≡ true → is_among ts (u ∷ us) ≡ true
is_among-skip u [] us h = refl
is_among-skip u (t ∷ ts) us h = ground (arith, h)

is_among-take : (t : String) (ts us : List String) → Called t ts us → is_among (t ∷ ts) us ≡ true
is_among-take t ts [] h = absurd h
is_among-take t ts (u ∷ us) h = ground (arith, h.0, h.1, eq_iff t u)

fires_among :
    (e : Engine)
    → Inv e
    → let e' = fire_at e.loop e in is_among (own_triggers e'.begun) e'.called ≡ true
fires_among e h =
    let ts = own_triggers e.begun in
    ground (
      arith,
      h.among,
      is_among-skip "startup" ts e.called h.among,
      is_among-skip "scheduled" ts e.called h.among,
    )

recheck_among :
    (l : Lock) (e : Engine)
    → is_among (own_triggers e.begun) e.called ≡ true
    → Held l e.loop (own_triggers e.begun) e.called
    → is_among (own_triggers (recheck_at l e).begun) (recheck_at l e).called ≡ true
recheck_among free e among h = among
recheck_among (checking (by_loop t)) e among h =
    ground (arith, among, is_among-take t (own_triggers e.begun) e.called h.1)
recheck_among (checking by_hand) e among h = ground (arith, among)
recheck_among (scanning c) e among h = among

step_among :
    (v : Event) (e : Engine)
    → Inv e
    → is_among (own_triggers (step v e).begun) (step v e).called ≡ true
unfolding step
step_among fires e h = fires_among e h
step_among rechecks e h = recheck_among e.lock e h.among h.held
step_among starts e h = ground (arith, h.among)
step_among stops e h = ground (arith, h.among)
step_among passes_lock e h = h.among
step_among parent_ends e h = h.among
step_among notices e h = ground (arith, h.among)
step_among loop_try_lock e h = ground (arith, h.among)
step_among hand_calls e h = ground (arith, h.among)
step_among hand_try_lock e h = ground (arith, h.among)
step_among finishes e h = ground (arith, h.among)
step_among (stop_returns timed_out) e h = ground (arith, h.among)

step-Inv : (v : Event) (e : Engine) → Inv e → Inv (step v e)
unfolding step
step-Inv v e h = ground (arith, step_among v e h)

step-config : (v : Event) (e : Engine) → (step v e).config ≡ e.config
unfolding step
step-config v e = ground arith

run-Inv : (vs : List Event) (e : Engine) → Inv e → Inv (run vs e)
unfolding run
run-Inv [] e h = h
run-Inv (v ∷ vs) e h = run-Inv vs (step v e) (step-Inv v e h)

run-config : (vs : List Event) (e : Engine) → (run vs e).config ≡ e.config
unfolding run
run-config [] e = refl
run-config (v ∷ vs) e = run-config vs (step v e) ∙ step-config v e

new_engine-Inv : (c : Config) → Inv (new_engine c)
new_engine-Inv c = ground arith

allowed_of : (e : Engine) → Inv e → own_triggers e.begun ≢ [] → can_start e.config ≡ true
allowed_of e h some_begun = ground arith

-- Whatever the order of events, the goroutine of an engine begins a scan only if the plugin is
-- enabled and its configuration is complete. It calls `Scan` for the startup first and then only as
-- scheduled, and the scans that it begins are among these calls, each once and in their order.
pub loop_scans_begin_with_startup :
    (c : Config) (events : List Event)
    → let e = run events (new_engine c) in
      let ts = own_triggers e.begun in
      StartupFirst e.called × (is_among ts e.called ≡ true) × (ts ≢ [] → can_start c ≡ true)
loop_scans_begin_with_startup c events =
    let e = run events (new_engine c) in
    let h = run-Inv events (new_engine c) (new_engine-Inv c) in
    (
      h.startup_first,
      h.among,
      λ begun. ap can_start (sym (run-config events (new_engine c))) ∙ allowed_of e h begun,
    )
