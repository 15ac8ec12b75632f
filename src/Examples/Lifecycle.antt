-- ===== src/Examples/Lifecycle.antt =====
-- An engine and the runtime around it at concrete schedules (internal/reset/engine.go,
-- internal/plugin/runtime.go, main.go).
use cpa_codex_auto_reset.Prelude.{
  ℕ, ◌≡◌, ◌≢◌, refl, String, true, false, none, some, List, [], ◌∷◌, arith,
}
use cpa_codex_auto_reset.Config.Parse.{
  parse, decode_mapping, decode_fields, validate, check_url, check_numbers,
}
use cpa_codex_auto_reset.Prelude.{lookup}
use cpa_codex_auto_reset.Prelude.Text.{trim_space}
use cpa_codex_auto_reset.Codex.Requests.{new_client}
use cpa_codex_auto_reset.Reset.Lifecycle.{
  Engine, Event, starts, stops, passes_lock, fires, notices, loop_try_lock, rechecks, finishes,
  stop_returns, returned, ended, can_start, new_engine, stop, run, step,
}
use cpa_codex_auto_reset.Reset.Lifecycle.Stopped.{
  is_scanning, is_past, stop_is_final, stop_ends_loop,
}
use cpa_codex_auto_reset.Reset.Lifecycle.Triggers.{
  own_triggers, StartupFirst, is_among, loop_scans_begin_with_startup,
}
use cpa_codex_auto_reset.Plugin.Runtime.{
  Sdk, Shared, answered, registered, new_store, receive, advance,
}
use cpa_codex_auto_reset.Plugin.System
use cpa_codex_auto_reset.Plugin.System.{
  World, Turn, arrives, advances, shuts, stops_taken, connects, is_at_rest, initial,
}
use cpa_codex_auto_reset.Plugin.Owned.{one_active_engine}
use cpa_codex_auto_reset.Plugin.Settled.{runtime_agrees}
use cpa_codex_auto_reset.Plugin.Overlap.{Pair, interleave}
use cpa_codex_auto_reset.Plugin.Overlap.Leftover.{arriving, OneIsLeft, overlap_leaves_engine}
use cpa_codex_auto_reset.Plugin.Entry.{Passed}
use cpa_codex_auto_reset.Examples.{settings}
use cpa_codex_auto_reset.Examples.Setup.{platform}

-- The startup scan begins.
abbrev into_startup_scan : List Event
into_startup_scan = starts ∷ fires ∷ loop_try_lock ∷ rechecks ∷ []

-- It ends, and with it the goroutine and the call of `Stop`.
abbrev winding_down : List Event
winding_down = passes_lock ∷ finishes ∷ passes_lock ∷ fires ∷ notices ∷ stop_returns false ∷ []

abbrev in_startup_scan : Engine
in_startup_scan = run into_startup_scan (new_engine settings)

stop_is_final_example :
    let e = stop in_startup_scan in
    let e' = run winding_down e in
    (e'.begun ≡ e.begun)
    × (is_past e'.stopping ≡ true → is_scanning e'.lock ≡ false)
    × (in_startup_scan.active ≡ true
        → in_startup_scan.started ≡ true
        → e'.stopping ≡ returned false
        → e'.loop ≡ ended)
stop_is_final_example = stop_is_final settings into_startup_scan winding_down

wound_down : (run winding_down (stop in_startup_scan)).stopping ≡ returned false
unfolding run step stop
wound_down = refl

stop_ends_loop_example :
    (run
      (finishes ∷ loop_try_lock ∷ rechecks ∷ notices ∷ [])
      (run (starts ∷ fires ∷ stops ∷ []) (new_engine settings))).loop
    ≡ ended
unfolding run step
stop_ends_loop_example = stop_ends_loop settings (starts ∷ fires ∷ stops ∷ []) refl refl

loop_scans_begin_with_startup_example :
    let ts = own_triggers in_startup_scan.begun in
    StartupFirst in_startup_scan.called
    × (is_among ts in_startup_scan.called ≡ true)
    × (ts ≢ [] → can_start settings ≡ true)
loop_scans_begin_with_startup_example = loop_scans_begin_with_startup settings into_startup_scan

abbrev sdk : Sdk
sdk = record {
  platform = platform;
  decode_lifecycle = λ _. none;
  schema_version = 1;
  parse_url = λ _. some (record {
    scheme = "https";
    host = "chatgpt.com";
    hostname = "chatgpt.com";
    user = false;
    fragment = "";
  });
}

-- A registration, a reconfiguration, and a shutdown during its last step.
abbrev schedule : List Turn
schedule =
    connects
    ∷ arrives false ""
    ∷ advances
    ∷ advances
    ∷ advances
    ∷ advances
    ∷ advances
    ∷ arrives true ""
    ∷ advances
    ∷ advances
    ∷ advances
    ∷ advances
    ∷ shuts
    ∷ advances
    ∷ stops_taken 1
    ∷ []

one_active_engine_example :
    let w = System.run sdk schedule initial in
    ((i : ℕ) → (w.shared.engines i).active ≡ true → w.shared.runtime.engine ≡ some i)
    × (w.shared.runtime.closed ≡ true → (i : ℕ) → (w.shared.engines i).active ≡ false)
unfolding System.run System.turn receive advance parse new_client decode_mapping trim_space
    decode_fields lookup validate check_url check_numbers
one_active_engine_example = one_active_engine sdk schedule refl (λ i. ground arith)

runtime_agrees_example :
    let s = (System.run sdk schedule initial).shared in
    ((i : ℕ) → s.runtime.engine ≡ some i → (s.engines i).config ≡ s.runtime.config)
    × ((dir : String) → s.runtime.store ≡ some dir → dir ≡ new_store sdk s.runtime.config.state_dir)
runtime_agrees_example = runtime_agrees sdk schedule

abbrev connected : Shared
connected = record initial.shared { runtime = record initial.shared.runtime { host_caller = true } }

-- Both build their engines; then the first call goes to its end, and the second after it.
abbrev overlapped : Pair
overlapped =
    interleave sdk (true ∷ true ∷ true ∷ false ∷ false ∷ false ∷ false ∷ [])
      (interleave sdk (true ∷ true ∷ false ∷ []) (arriving sdk connected settings settings))

overlap_leaves_engine_example :
    (overlapped.first ≡ answered registered)
    × (overlapped.second ≡ answered registered)
    × OneIsLeft sdk overlapped.shared settings settings
unfolding new_client trim_space interleave advance
overlap_leaves_engine_example =
    overlap_leaves_engine sdk _ connected settings settings (true ∷ true ∷ false ∷ [])
      (true ∷ true ∷ true ∷ false ∷ false ∷ false ∷ false ∷ []) refl refl refl refl refl refl refl
      refl

abbrev passed : Passed
passed = record {
  method = some "plugin.register";
  request = none;
  has_response = true;
  allocates = true;
}
