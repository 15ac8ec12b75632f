-- ===== src/Plugin/Runtime.antt =====
-- The state of `Runtime` and the sections of `Handle` and `Shutdown` that its mutex makes atomic
-- (internal/plugin/runtime.go). `Stop` is the swap of its flag: what its waits give is shown for the
-- engine alone.
use cpa_codex_auto_reset.Prelude.{
  ℕ, suc, String, ◌==◌, Bool, true, false, not, ◌&&◌, Option, none, some, eqb, if◌then◌else◌,
}
use cpa_codex_auto_reset.Prelude.Text.{trim_space, is_empty}
use cpa_codex_auto_reset.Config.{Config}
use cpa_codex_auto_reset.Config.Parse.{Platform, Checked, valid, refused, parse}
use cpa_codex_auto_reset.Codex.Requests.{new_client, default_base_url}
use cpa_codex_auto_reset.Reset.Lifecycle.{Engine, new_engine, start, stop}
use cpa_codex_auto_reset.Plugin.Sanitize.{sanitize_error}

-- `lifecycleRequest`
pub record LifecycleRequest : Type 0 where
  pub config_yaml : String
  pub schema_version : ℕ

-- What the plugin does not implement: configuration formats, JSON, and the schema version of the
-- host's interface.
pub record Sdk : Type 0 where
  pub platform : Platform
  pub decode_lifecycle : String → Option LifecycleRequest
  pub schema_version : ℕ
  pub parse_url : String → Option cpa_codex_auto_reset.Config.Parse.Url

-- What `Handle` answers to a life cycle call: the registration, an error envelope, or a Go error.
pub data Answer : Type 0 where
  registered : Answer
  error_envelope : String → String → Answer
  go_error : String → Answer

-- `engine` is an index of the engines ever built; `store` is the directory of the store, and
-- `host_caller` whether there is one.
pub record Runtime : Type 0 where
  pub host_caller : Bool
  pub closed : Bool
  pub configured : Bool
  pub config : Config
  pub engine : Option ℕ
  pub store : Option String

-- The runtime with all engines ever built; `closing` are those that a `Shutdown` has taken and not
-- yet stopped.
pub record Shared : Type 0 where
  pub runtime : Runtime
  pub engines : ℕ → Engine
  pub built : ℕ
  pub closing : ℕ → Bool

-- Where a life cycle call stands, with the local variables that are live there.
pub data Pc : Type 0 where
  locking : Bool → Config → Pc
  stopping_old : Bool → Option ℕ → Config → Pc
  building : Config → Pc
  installing : ℕ → String → Pc
  discarding starting : ℕ → Pc
  answered : Answer → Pc

abbrev pub update {ℓ} : {A : Type ℓ} → (ℕ → A) → ℕ → A → ℕ → A
update f i x j = if eqb i j then x else f j

module _ (sdk : Sdk) where
  abbrev checked_config : Bool → Checked Config → Pc
  checked_config is_reconfigure (refused e) =
      answered (error_envelope "invalid_config" (sanitize_error (some e)))
  checked_config is_reconfigure (valid cfg) = locking is_reconfigure cfg

  abbrev checked_request : Bool → Option LifecycleRequest → Pc
  checked_request is_reconfigure none = answered (go_error "invalid lifecycle request")
  checked_request is_reconfigure (some r) =
      if not (eqb r.schema_version 0) && not (eqb r.schema_version sdk.schema_version)
      then answered (error_envelope "unsupported_schema" "unsupported plugin schema version")
      else checked_config is_reconfigure (parse sdk.platform r.config_yaml)

  -- `Handle` of a registration or a reconfiguration, up to the lock
  unfoldable pub receive : Bool → String → Pc
  receive is_reconfigure raw = checked_request is_reconfigure (
      if is_empty raw
      then some (record { config_yaml = ""; schema_version = 0 })
      else sdk.decode_lifecycle raw)

  -- The test that refuses another state directory.
  abbrev pub moves_state : Bool → Runtime → Config → Bool
  moves_state is_reconfigure r cfg =
      is_reconfigure && r.configured && not (r.config.state_dir == cfg.state_dir)

  -- The first locked section.
  unfoldable pub take_over : Bool → Config → Shared → Shared × Pc
  take_over is_reconfigure cfg s =
      let r = s.runtime in
      if moves_state is_reconfigure r cfg
      then (
        s,
        answered (
            error_envelope "state_dir_change_requires_restart"
              "state-dir cannot be changed during hot reconfiguration"),
      )
      else (
        record s {
          runtime = record r {
            config = cfg;
            configured = true;
            closed = false;
            engine = none;
            store = none;
          };
        },
        stopping_old r.host_caller r.engine cfg,
      )

  abbrev stop_engine : ℕ → Shared → Shared
  stop_engine i s = record s { engines = update s.engines i (stop (s.engines i)) }

  abbrev stop_old : Option ℕ → Shared → Shared
  stop_old none s = s
  stop_old (some i) s = stop_engine i s

  -- `NewStore`, as far as the directory
  abbrev pub new_store : String → String
  new_store dir = sdk.platform.clean_path (trim_space dir)

  -- `buildEngine`
  unfoldable pub build_engine : Config → Shared → Shared × Pc
  build_engine cfg s = elim (new_client sdk.parse_url default_base_url) [
    | none ↦
        (s, answered (error_envelope "runtime_start_failed" "failed to initialize plugin runtime"))
    | some _ ↦ (
      record s { engines = update s.engines s.built (new_engine cfg); built = suc s.built },
      installing s.built (new_store cfg.state_dir),
    )
  ]

  -- The second locked section.
  unfoldable pub install : ℕ → String → Shared → Shared × Pc
  install i dir s = if s.runtime.closed then (s, discarding i) else (
    record s { runtime = record s.runtime { engine = some i; store = some dir } },
    starting i,
  )

  -- The next step of a life cycle call.
  unfoldable pub advance : Pc → Shared → Shared × Pc
  unfolding take_over build_engine install
  advance (locking is_reconfigure cfg) s = take_over is_reconfigure cfg s
  advance (stopping_old caller old cfg) s =
      (stop_old old s, if caller then building cfg else answered registered)
  advance (building cfg) s = build_engine cfg s
  advance (installing i dir) s = install i dir s
  advance (discarding i) s =
      (stop_engine i s, answered (error_envelope "plugin_shutdown" "plugin is shutting down"))
  advance (starting i) s =
      (record s { engines = update s.engines i (start (s.engines i)) }, answered registered)
  advance (answered a) s = (s, answered a)

abbrev taken : Option ℕ → (ℕ → Bool) → ℕ → Bool
taken none closing = closing
taken (some i) closing = update closing i true

-- The locked section of `Shutdown`.
unfoldable pub shut : Shared → Shared
shut s = record s {
  runtime = record s.runtime { closed = true; engine = none };
  closing = taken s.runtime.engine s.closing;
}

-- The rest of a `Shutdown` that has taken the engine `i`.
unfoldable pub stop_taken : ℕ → Shared → Shared
stop_taken i s =
    if s.closing i
    then record s {
      engines = update s.engines i (stop (s.engines i));
      closing = update s.closing i false;
    }
    else s
