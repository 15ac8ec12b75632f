-- ===== src/Plugin/Overlap/Steps.antt =====
-- What one step of two overlapping registrations keeps (internal/plugin/runtime.go: `Handle`).
use cpa_codex_auto_reset.Prelude.{
  suc, ℕ, String, ◌≡◌, ◌∙◌, refl, sym, ap, inl, inr, ◌||◌, not, Option, true, false, none, some,
  arith,
}
use mathlib.Core.Path.{subst}
use cpa_codex_auto_reset.Config.{Config}
use cpa_codex_auto_reset.Codex.Requests.{new_client, default_base_url, Client}
use cpa_codex_auto_reset.Reset.Lifecycle.{start, new_engine}
use cpa_codex_auto_reset.Plugin.Runtime.{
  Sdk, Shared, Pc, locking, stopping_old, building, installing, discarding, starting, answered,
  advance, update, new_store,
}
use cpa_codex_auto_reset.Plugin.Overlap.{
  has_installed, is_past, Differ, Inv, Own-keeps, with_built, with_installed, with_started,
  with_config, Differ-new,
}

module _ (sdk : Sdk) where
  build_engine_works :
      (c : Client) (cfg : Config) (s : Shared)
      → new_client sdk.parse_url default_base_url ≡ some c
      → advance sdk (building cfg) s ≡ (
        record s { engines = update s.engines s.built (new_engine cfg); built = suc s.built },
        installing s.built (new_store sdk cfg.state_dir),
      )
  unfolding advance
  build_engine_works c cfg s works = ground (arith, works)

  install_works :
      (i : ℕ) (dir : String) (s : Shared)
      → s.runtime.closed ≡ false
      → advance sdk (installing i dir) s ≡ (
        record s { runtime = record s.runtime { engine = some i; store = some dir } },
        starting i,
      )
  unfolding advance
  install_works i dir s allowed = ground (arith, allowed)

  abbrev pub Advanced : Shared × Pc → Config → Pc → Option ℕ → Config → Type 0
  Advanced (s', p') cfg q b cfg' = (a : Option ℕ) × Inv s' p' a cfg q b cfg'

  take_over_works :
      (cfg : Config) (s : Shared)
      → s.runtime.engine ≡ none
      → s.runtime.host_caller ≡ true
      → advance sdk (locking false cfg) s ≡ (with_config cfg s, stopping_old true none cfg)
  unfolding advance
  take_over_works cfg s bare caller = ground (arith, bare, caller)

  -- A call whose first locked section comes before the other installs its engine keeps all this.
  pub advance-Inv :
      (c : Client)
      → new_client sdk.parse_url default_base_url ≡ some c
      → (s : Shared) (p : Pc) (a : Option ℕ) (cfg : Config) (q : Pc) (b : Option ℕ) (cfg' : Config)
      → is_past p || not (has_installed q) ≡ true
      → Inv s p a cfg q b cfg'
      → Advanced (advance sdk p s) cfg q b cfg'
  unfolding advance start
  advance-Inv c works s (locking again c0) none cfg q b cfg' timely inv =
      let bare = inv.empty (ground (arith, timely)) in
      let step : advance sdk (locking again c0) s ≡ (with_config c0 s, stopping_old true none c0) =
        ap (λ r. advance sdk (locking r c0) s) inv.own.0 ∙ take_over_works c0 s bare inv.caller in
      subst (λ x. Advanced x cfg q b cfg') (sym step)
        (
          none,
          record {
            own = (refl, refl, inv.own.1);
            other =
                Own-keeps s (with_config c0 s) cfg' b q (λ j is below. refl) (omega arith)
                  inv.other;
            differ = tt;
            not_closed = refl;
            caller = inv.caller;
            empty = λ _. refl;
            held = λ some_one. ground (arith, some_one, timely);
          },
        )
  advance-Inv c works s (stopping_old caller old c0) none cfg q b cfg' timely inv =
      let (call, nothing, same) = inv.own in
      rw call (
        rw nothing (
          none,
          record {
            own = same;
            other = inv.other;
            differ = tt;
            not_closed = inv.not_closed;
            caller = inv.caller;
            empty = inv.empty;
            held = inv.held;
          },
        ))
  advance-Inv c works s (building c0) none cfg q b cfg' timely inv =
      subst (λ x. Advanced x cfg q b cfg') (sym (build_engine_works c c0 s works))
        (
          some s.built,
          record {
            own = (refl, ground (arith, inv.own), omega arith);
            other =
                Own-keeps s (with_built c0 s) cfg' b q (λ j is below. ground (arith, below))
                  (omega arith) inv.other;
            differ = Differ-new s cfg' b q inv.other;
            not_closed = inv.not_closed;
            caller = inv.caller;
            empty = inv.empty;
            held = λ some_one. elim (inv.held some_one) [
              | inl (none_yet, _) ↦ ground (arith, none_yet)
              | inr other ↦ inr other
            ];
          },
        )
  advance-Inv c works s (installing j dir) (some i) cfg q b cfg' timely inv =
      subst (λ x. Advanced x cfg q b cfg') (sym (install_works j dir s inv.not_closed))
        (
          some i,
          record {
            own = inv.own;
            other =
                Own-keeps s (with_installed j dir s) cfg' b q (λ j is below. refl) (omega arith)
                  inv.other;
            differ = inv.differ;
            not_closed = inv.not_closed;
            caller = inv.caller;
            empty = λ nobody. ground (arith, nobody);
            held = λ some_one. inl (refl, ap some inv.own.0);
          },
        )
  advance-Inv c works s (starting j) (some i) cfg q b cfg' timely inv = (
    some i,
    record {
      own = (refl, ground (arith, inv.own.0, inv.own.1), inv.own.2);
      other =
          Own-keeps s (with_started j s) cfg' b q
            (λ k is below. ground (arith, inv.own.0, subst (Differ (some i)) is inv.differ))
            (omega arith) inv.other;
      differ = inv.differ;
      not_closed = inv.not_closed;
      caller = inv.caller;
      empty = inv.empty;
      held = λ some_one. inv.held refl;
    },
  )
  advance-Inv c works s (answered r) a cfg q b cfg' timely inv = (a, inv)
  advance-Inv c works s (locking _ _) (some _) cfg q b cfg' timely inv = absurd inv.own
  advance-Inv c works s (stopping_old _ _ _) (some _) cfg q b cfg' timely inv = absurd inv.own
  advance-Inv c works s (building _) (some _) cfg q b cfg' timely inv = absurd inv.own
  advance-Inv c works s (installing _ _) none cfg q b cfg' timely inv = absurd inv.own
  advance-Inv c works s (discarding _) none cfg q b cfg' timely inv = absurd inv.own
  advance-Inv c works s (discarding _) (some _) cfg q b cfg' timely inv = absurd inv.own
  advance-Inv c works s (starting _) none cfg q b cfg' timely inv = absurd inv.own
