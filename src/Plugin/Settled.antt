-- ===== src/Plugin/Settled.antt =====
-- With which configuration the runtime's engine and store work (internal/plugin/runtime.go).
use cpa_codex_auto_reset.Prelude.{ℕ, ◌≡◌, String, Bool, Option, none, some, List, [], ◌∷◌, arith}
use cpa_codex_auto_reset.Config.{Config}
use cpa_codex_auto_reset.Reset.Lifecycle.{Engine, Event, start, stop, step}
use cpa_codex_auto_reset.Plugin.Runtime.{
  Sdk, Shared, Pc, locking, stopping_old, building, installing, discarding, starting, answered,
  new_store, receive, advance,
}
use cpa_codex_auto_reset.Plugin.System.{
  World, Turn, arrives, advances, shuts, stops_taken, engine_runs, connects, turn, run, initial,
}

step-config : (v : Event) (e : Engine) → (step v e).config ≡ e.config
unfolding step
step-config v e = ground arith

stop-config : (e : Engine) → (stop e).config ≡ e.config
unfolding stop
stop-config e = ground arith

start-config : (e : Engine) → (start e).config ≡ e.config
unfolding start
start-config e = ground arith

module _ (sdk : Sdk) where
  -- What the call has in hand agrees with the runtime's configuration.
  abbrev InHand : Shared → Pc → Type 0
  InHand s (stopping_old _ _ cfg) = (cfg ≡ s.runtime.config) × (s.runtime.engine ≡ none)
  InHand s (building cfg) = (cfg ≡ s.runtime.config) × (s.runtime.engine ≡ none)
  InHand s (installing i dir) =
      ((s.engines i).config ≡ s.runtime.config)
      × (dir ≡ new_store sdk s.runtime.config.state_dir)
      × (s.runtime.engine ≡ none)
  InHand s _ = Unit {0}

  abbrev EngineAgrees : Shared → Option ℕ → Type 0
  EngineAgrees s none = Unit {0}
  EngineAgrees s (some i) = (s.engines i).config ≡ s.runtime.config

  abbrev StoreAgrees : Config → Option String → Type 0
  StoreAgrees c none = Unit {0}
  StoreAgrees c (some dir) = dir ≡ new_store sdk c.state_dir

  record Inv (s : Shared) (p : Pc) : Type 0 where
    engine : EngineAgrees s s.runtime.engine
    store : StoreAgrees s.runtime.config s.runtime.store
    in_hand : InHand s p

  advance-Inv : (p : Pc) (s : Shared) → Inv s p → Inv (advance sdk p s).0 (advance sdk p s).1
  unfolding advance
  advance-Inv (locking r cfg) s h = ground arith
  advance-Inv (stopping_old caller none cfg) s h = ground arith
  advance-Inv (stopping_old caller (some j) cfg) s h = ground arith
  advance-Inv (building cfg) s h = ground arith
  advance-Inv (installing j dir) s h = ground arith
  advance-Inv (discarding j) s h = ground (arith, stop-config (s.engines j))
  advance-Inv (starting j) s h = ground (arith, start-config (s.engines j))
  advance-Inv (answered a) s h = h

  receive-InHand : (s : Shared) (r : Bool) (raw : String) → InHand s (receive sdk r raw)
  unfolding receive
  receive-InHand s r raw = ground arith

  turn-Inv :
      (t : Turn) (w : World) → Inv w.shared w.pc → Inv (turn sdk t w).shared (turn sdk t w).pc
  unfolding turn
  turn-Inv (arrives r raw) w h = ground (arith, receive-InHand w.shared r raw)
  turn-Inv advances w h = advance-Inv w.pc w.shared h
  turn-Inv shuts w h = ground arith
  turn-Inv (stops_taken j) w h = ground (arith, stop-config (w.shared.engines j))
  turn-Inv (engine_runs j v) w h = ground (arith, step-config v (w.shared.engines j))
  turn-Inv connects w h = ground arith

  run-Inv :
      (ts : List Turn) (w : World) → Inv w.shared w.pc → Inv (run sdk ts w).shared (run sdk ts w).pc
  unfolding run
  run-Inv [] w h = h
  run-Inv (t ∷ ts) w h = run-Inv ts (turn sdk t w) (turn-Inv t w h)

  engine_of :
      (s : Shared) (o : Option ℕ) (i : ℕ)
      → o ≡ some i
      → EngineAgrees s o
      → (s.engines i).config ≡ s.runtime.config
  engine_of s none i e h = cc
  engine_of s (some j) i e h = ground (arith, e, h)

  store_of :
      (c : Config) (o : Option String) (dir : String)
      → o ≡ some dir
      → StoreAgrees c o
      → dir ≡ new_store sdk c.state_dir
  store_of c none dir e h = cc
  store_of c (some d) dir e h = ground (arith, e, h)

  -- However registrations, reconfigurations, shutdowns and the engines' own events are interleaved, as
  -- long as one registration or reconfiguration is answered before the next: the engine that the
  -- runtime holds works with the runtime's current configuration, and the store that the pages read
  -- is the one of that configuration's state directory.
  pub runtime_agrees :
      (ts : List Turn)
      → let s = (run sdk ts initial).shared in
        ((i : ℕ) → s.runtime.engine ≡ some i → (s.engines i).config ≡ s.runtime.config)
        × ((dir : String)
            → s.runtime.store ≡ some dir
            → dir ≡ new_store sdk s.runtime.config.state_dir)
  runtime_agrees ts =
      let w = run sdk ts initial in
      let h = run-Inv ts initial (record { engine = tt; store = tt; in_hand = tt }) in
      (
        λ i e. engine_of w.shared w.shared.runtime.engine i e h.engine,
        λ dir e. store_of w.shared.runtime.config w.shared.runtime.store dir e h.store,
      )
