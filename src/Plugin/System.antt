-- ===== src/Plugin/System.antt =====
-- The runtime under one life cycle call after another, with any number of calls of `Shutdown` and
-- whatever the engines do in between (internal/plugin/runtime.go). A turn that is not possible changes
-- nothing.
use cpa_codex_auto_reset.Prelude.{ℕ, String, Bool, true, false, none, List, [], ◌∷◌, if◌then◌else◌}
use cpa_codex_auto_reset.Prelude.Int.{pos}
use cpa_codex_auto_reset.Config.{Config}
use cpa_codex_auto_reset.Reset.Lifecycle.{Event, new_engine, stop, step}
use cpa_codex_auto_reset.Plugin.Runtime.{
  Sdk, Shared, Pc, answered, registered, update, receive, advance, shut, stop_taken,
}

pub record World : Type 0 where
  pub shared : Shared
  pub pc : Pc

pub data Turn : Type 0 where
  arrives : Bool → String → Turn
  advances shuts : Turn
  stops_taken : ℕ → Turn
  engine_runs : ℕ → Event → Turn
  connects : Turn

-- A call arrives when the last one is answered.
abbrev pub is_at_rest : Pc → Bool
is_at_rest (answered _) = true
is_at_rest _ = false

abbrev moved : Shared × Pc → World
moved (s, p) = record { shared = s; pc = p }

module _ (sdk : Sdk) where
  unfoldable pub turn : Turn → World → World
  unfolding shut stop_taken
  turn (arrives is_reconfigure raw) w =
      if is_at_rest w.pc then record w { pc = receive sdk is_reconfigure raw } else w
  turn advances w = moved (advance sdk w.pc w.shared)
  turn shuts w = record w { shared = shut w.shared }
  turn (stops_taken i) w = record w { shared = stop_taken i w.shared }
  turn (engine_runs i v) w = record w {
    shared = record w.shared { engines = update w.shared.engines i (step v (w.shared.engines i)) };
  }
  turn connects w = record w {
    shared = record w.shared { runtime = record w.shared.runtime { host_caller = true } };
  }

  unfoldable pub run : List Turn → World → World
  run [] w = w
  run (t ∷ ts) w = run ts (turn t w)

-- The zero value of a configuration.
abbrev pub zero_config : Config
zero_config = record {
  enabled = false;
  priority = pos 0;
  management_url = "";
  management_key = "";
  management_key_env = "";
  scan_interval_seconds = pos 0;
  post_reset_cooldown_seconds = pos 0;
  failure_backoff_seconds = pos 0;
  state_dir = "";
  default_participation = false;
  reset_threshold = pos 0;
  remote_management = false;
}

-- `defaultRuntime`, before the first call: no engine has been built, so none is active.
abbrev pub initial : World
initial = record {
  shared = record {
    runtime = record {
      host_caller = false;
      closed = false;
      configured = false;
      config = zero_config;
      engine = none;
      store = none;
    };
    engines = λ _. stop (new_engine zero_config);
    built = 0;
    closing = λ _. false;
  };
  pc = answered registered;
}
