-- ===== src/Plugin/Owned.antt =====
-- Who answers for an active engine (internal/plugin/runtime.go).
use cpa_codex_auto_reset.Prelude.{
  ℕ, ◌≡◌, ◌⊎◌, refl, String, Bool, true, false, Option, none, some, List, [], ◌∷◌, arith, eqb,
}
use cpa_codex_auto_reset.Reset.Lifecycle.{Engine, Event, new_engine, start, stop, step}
use cpa_codex_auto_reset.Plugin.Runtime.{
  Sdk, Shared, Pc, locking, stopping_old, building, installing, discarding, starting, answered,
  receive, advance,
}
use cpa_codex_auto_reset.Plugin.System.{
  World, Turn, arrives, advances, shuts, stops_taken, engine_runs, connects, is_at_rest, turn, run,
  initial, zero_config,
}

step-active : (v : Event) (e : Engine) → (step v e).active ≡ true → e.active ≡ true
unfolding step
step-active v e h = ground arith

stop-active : (e : Engine) → (stop e).active ≡ false
unfolding stop
stop-active e = ground arith

start-active : (e : Engine) → (start e).active ≡ e.active
unfolding start
start-active e = ground arith

-- The call has the engine in hand.
abbrev holds : Pc → ℕ → Bool
holds (stopping_old _ (some i) _) j = eqb i j
holds (installing i _) j = eqb i j
holds (discarding i) j = eqb i j
holds _ j = false

-- Between the two locked sections the runtime has no engine.
abbrev is_between : Pc → Bool
is_between (stopping_old _ _ _) = true
is_between (building _) = true
is_between (installing _ _) = true
is_between _ = false

abbrev is_installed : Option ℕ → ℕ → Bool
is_installed none j = false
is_installed (some i) j = eqb i j

-- The engine is the runtime's, or a `Shutdown` is about to stop it, or the call has it in hand.
abbrev Owned : Shared → Pc → ℕ → Type 0
Owned s p i = (is_installed s.runtime.engine i ≡ true) ⊎ ((s.closing i ≡ true) ⊎ (holds p i ≡ true))

record Inv (s : Shared) (p : Pc) : Type 0 where
  owned : (i : ℕ) → (s.engines i).active ≡ true → Owned s p i
  between : is_between p ≡ true → s.runtime.engine ≡ none
  shut_down : s.runtime.closed ≡ true → s.runtime.engine ≡ none

module _ (sdk : Sdk) where
  receive-holds : (r : Bool) (raw : String) (i : ℕ) → holds (receive sdk r raw) i ≡ false
  unfolding receive
  receive-holds r raw i = ground arith

  receive-between : (r : Bool) (raw : String) → is_between (receive sdk r raw) ≡ false
  unfolding receive
  receive-between r raw = ground arith

  advance-Owned :
      (p : Pc) (s : Shared)
      → Inv s p
      → (i : ℕ) → ((advance sdk p s).0.engines i).active ≡ true
      → Owned (advance sdk p s).0 (advance sdk p s).1 i
  unfolding advance
  advance-Owned (locking r cfg) s h i live = ground (arith, live, h.owned i)
  advance-Owned (stopping_old caller none cfg) s h i live = ground (arith, live, h.owned i)
  advance-Owned (stopping_old caller (some j) cfg) s h i live =
      ground (arith, live, h.owned i, stop-active (s.engines j))
  advance-Owned (building cfg) s h i live = ground (arith, live, h.owned i)
  advance-Owned (installing j dir) s h i live = ground (arith, live, h.owned i, h.between refl)
  advance-Owned (discarding j) s h i live =
      ground (arith, live, h.owned i, stop-active (s.engines j))
  advance-Owned (starting j) s h i live =
      ground (arith, live, h.owned i, start-active (s.engines j))
  advance-Owned (answered a) s h i live = h.owned i live

  advance-between :
      (p : Pc) (s : Shared)
      → Inv s p
      → is_between (advance sdk p s).1 ≡ true
      → (advance sdk p s).0.runtime.engine ≡ none
  unfolding advance
  advance-between p s h = ground (arith, h.between)

  advance-shut_down :
      (p : Pc) (s : Shared)
      → Inv s p
      → (advance sdk p s).0.runtime.closed ≡ true
      → (advance sdk p s).0.runtime.engine ≡ none
  unfolding advance
  advance-shut_down p s h = ground (arith, h.shut_down)

  turn-Inv :
      (t : Turn) (w : World) → Inv w.shared w.pc → Inv (turn sdk t w).shared (turn sdk t w).pc
  unfolding turn
  turn-Inv (arrives r raw) w h = record {
    owned = λ i live. ground (arith, live, h.owned i, receive-holds r raw i);
    between = ground (arith, h.between, receive-between r raw);
    shut_down = ground (arith, h.shut_down);
  }
  turn-Inv advances w h = record {
    owned = advance-Owned w.pc w.shared h;
    between = advance-between w.pc w.shared h;
    shut_down = advance-shut_down w.pc w.shared h;
  }
  turn-Inv shuts w h = record {
    owned = λ i live. ground (arith, live, h.owned i);
    between = λ b. refl;
    shut_down = λ b. refl;
  }
  turn-Inv (stops_taken j) w h = record {
    owned = λ i live. ground (arith, live, h.owned i, stop-active (w.shared.engines j));
    between = ground (arith, h.between);
    shut_down = ground (arith, h.shut_down);
  }
  turn-Inv (engine_runs j v) w h = record {
    owned = λ i live. ground (arith, live, h.owned i, step-active v (w.shared.engines j));
    between = h.between;
    shut_down = h.shut_down;
  }
  turn-Inv connects w h = record { owned = h.owned; between = h.between; shut_down = h.shut_down }

  run-Inv :
      (ts : List Turn) (w : World) → Inv w.shared w.pc → Inv (run sdk ts w).shared (run sdk ts w).pc
  unfolding run
  run-Inv [] w h = h
  run-Inv (t ∷ ts) w h = run-Inv ts (turn sdk t w) (turn-Inv t w h)

  initial-Inv : Inv initial.shared initial.pc
  initial-Inv = record {
    owned = λ i live. absurd (ground (arith, live, stop-active (new_engine zero_config)));
    between = λ b. cc;
    shut_down = λ b. refl;
  }

  installed-eq : (o : Option ℕ) (i : ℕ) → is_installed o i ≡ true → o ≡ some i
  installed-eq none i h = cc
  installed-eq (some j) i h = ground (arith, h)

  at_rest-holds : (p : Pc) (i : ℕ) → is_at_rest p ≡ true → holds p i ≡ false
  at_rest-holds (answered a) i h = refl
  at_rest-holds (locking r cfg) i h = cc
  at_rest-holds (stopping_old caller o cfg) i h = cc
  at_rest-holds (building cfg) i h = cc
  at_rest-holds (installing j dir) i h = cc
  at_rest-holds (discarding j) i h = cc
  at_rest-holds (starting j) i h = cc

  -- However registrations, reconfigurations, shutdowns and the engines' own events are interleaved,
  -- as long as one registration or reconfiguration is answered before the next: once the last one is
  -- answered and every engine that a shutdown has taken is stopped, an engine that is still active is
  -- the one that the runtime holds, so there is at most one; and there is none while the runtime is
  -- shut down.
  pub one_active_engine :
      (ts : List Turn)
      → let w = run sdk ts initial in
        is_at_rest w.pc ≡ true
        → ((i : ℕ) → w.shared.closing i ≡ false)
        → ((i : ℕ) → (w.shared.engines i).active ≡ true → w.shared.runtime.engine ≡ some i)
          × (w.shared.runtime.closed ≡ true → (i : ℕ) → (w.shared.engines i).active ≡ false)
  one_active_engine ts rest stopped = (held, none_left)
    where
      h : Inv (run sdk ts initial).shared (run sdk ts initial).pc
      h = run-Inv ts initial initial-Inv

      held :
          (i : ℕ)
          → ((run sdk ts initial).shared.engines i).active ≡ true
          → (run sdk ts initial).shared.runtime.engine ≡ some i
      held i live =
          installed-eq _ i (
            ground
              (arith, live, h.owned i, stopped i, at_rest-holds (run sdk ts initial).pc i rest))

      none_left :
          (run sdk ts initial).shared.runtime.closed ≡ true
          → (i : ℕ) → ((run sdk ts initial).shared.engines i).active ≡ false
      none_left closed i = ground (arith, held i, h.shut_down closed)
