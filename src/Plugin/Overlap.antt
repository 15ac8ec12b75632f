-- ===== src/Plugin/Overlap.antt =====
-- Two registrations that overlap (internal/plugin/runtime.go: `Handle`), and what belongs to each.
pub mod Steps
pub mod Leftover
use cpa_codex_auto_reset.Prelude.{
  suc, ℕ, String, ◌≡◌, ◌≤◌, ◌<◌, ◌⊎◌, ◌∙◌, refl, sym, Bool-cases, ap, eqb, inl, inr, ◌||◌, not,
  Option, Bool, true, false, none, some, List, [], ◌∷◌, arith,
}
use mathlib.Core.Path.{subst}
use cpa_codex_auto_reset.Config.{Config}
use cpa_codex_auto_reset.Codex.Requests.{new_client, default_base_url, Client}
use cpa_codex_auto_reset.Reset.Lifecycle.{can_start, start, stop, new_engine}
use cpa_codex_auto_reset.Plugin.Runtime.{
  Sdk, Shared, Pc, locking, stopping_old, building, installing, discarding, starting, answered,
  registered, advance, build_engine, install, update, new_store, shut, stop_taken,
}

-- Two calls with their own program counters over the same runtime.
pub record Pair : Type 0 where
  pub shared : Shared
  pub first : Pc
  pub second : Pc

module _ (sdk : Sdk) where
  abbrev pub advance_first : Pair → Pair
  advance_first p =
      let (s, pc) = advance sdk p.first p.shared in record p { shared = s; first = pc }

  abbrev pub advance_second : Pair → Pair
  advance_second p =
      let (s, pc) = advance sdk p.second p.shared in record p { shared = s; second = pc }

  -- The calls advance in the given order: true is the first one.
  unfoldable pub interleave : List Bool → Pair → Pair
  interleave [] p = p
  interleave (true ∷ turns) p = interleave turns (advance_first p)
  interleave (false ∷ turns) p = interleave turns (advance_second p)

-- Whether a call has got past the second locked section.
abbrev pub has_installed : Pc → Bool
has_installed (starting i) = true
has_installed (answered a) = true
has_installed _ = false

-- Whether it is past the first.
abbrev pub is_past : Pc → Bool
is_past (locking again cfg) = false
is_past _ = true

-- What belongs to a call with the configuration `cfg`, which has built the engine `id`.
abbrev pub Own : Shared → Config → Option ℕ → Pc → Type 0
Own s cfg none (locking again c) = (again ≡ false) × (c ≡ cfg)
Own s cfg none (stopping_old caller old c) = (caller ≡ true) × (old ≡ none) × (c ≡ cfg)
Own s cfg none (building c) = c ≡ cfg
Own s cfg (some i) (installing j dir) = (j ≡ i) × (s.engines i ≡ new_engine cfg) × (i < s.built)
Own s cfg (some i) (starting j) = (j ≡ i) × (s.engines i ≡ new_engine cfg) × (i < s.built)
Own s cfg (some i) (answered a) =
    (a ≡ registered) × (s.engines i ≡ start (new_engine cfg)) × (i < s.built)
Own s cfg _ _ = ⊥

abbrev pub Differ : Option ℕ → Option ℕ → Type 0
Differ (some i) (some j) = eqb i j ≡ false
Differ _ _ = Unit {0}

-- Two calls over one runtime; the engine that the runtime has is one of theirs.
pub record Inv (s : Shared) (p : Pc) (a : Option ℕ) (cfg : Config) (q : Pc) (b : Option ℕ)
    (cfg' : Config) : Type 0 where
  pub own : Own s cfg a p
  pub other : Own s cfg' b q
  pub differ : Differ a b
  pub not_closed : s.runtime.closed ≡ false
  pub caller : s.runtime.host_caller ≡ true
  pub empty : has_installed p || has_installed q ≡ false → s.runtime.engine ≡ none
  pub held :
      (has_installed p || has_installed q ≡ true)
      → ((has_installed p ≡ true) × (s.runtime.engine ≡ a))
        ⊎ ((has_installed q ≡ true) × (s.runtime.engine ≡ b))

-- A call keeps what belongs to it while its own engine and the count do not change.
pub Own-keeps :
    (s s' : Shared) (cfg : Config) (b : Option ℕ) (q : Pc)
    → ((j : ℕ) → b ≡ some j → j < s.built → s'.engines j ≡ s.engines j)
    → s.built ≤ s'.built
    → Own s cfg b q
    → Own s' cfg b q
Own-keeps s s' cfg none (stopping_old caller old c) same grows h = h
Own-keeps s s' cfg none (building c) same grows h = h
Own-keeps s s' cfg (some i) (installing j dir) same grows h =
    (h.0, same i refl h.2 ∙ h.1, omega (arith, h.2, grows))
Own-keeps s s' cfg (some i) (starting j) same grows h =
    (h.0, same i refl h.2 ∙ h.1, omega (arith, h.2, grows))
Own-keeps s s' cfg (some i) (answered a) same grows h =
    (h.0, same i refl h.2 ∙ h.1, omega (arith, h.2, grows))
Own-keeps s s' cfg none (locking _ _) same grows h = h
Own-keeps s s' cfg none (installing _ _) same grows h = absurd h
Own-keeps s s' cfg none (discarding _) same grows h = absurd h
Own-keeps s s' cfg none (starting _) same grows h = absurd h
Own-keeps s s' cfg none (answered _) same grows h = absurd h
Own-keeps s s' cfg (some i) (locking _ _) same grows h = absurd h
Own-keeps s s' cfg (some i) (stopping_old _ _ _) same grows h = absurd h
Own-keeps s s' cfg (some i) (building _) same grows h = absurd h
Own-keeps s s' cfg (some i) (discarding _) same grows h = absurd h

pub built_below : (s : Shared) (cfg : Config) (j : ℕ) (q : Pc) → Own s cfg (some j) q → j < s.built
built_below s cfg j (installing _ _) h = h.2
built_below s cfg j (starting _) h = h.2
built_below s cfg j (answered _) h = h.2
built_below s cfg j (locking _ _) h = absurd h
built_below s cfg j (stopping_old _ _ _) h = absurd h
built_below s cfg j (building _) h = absurd h
built_below s cfg j (discarding _) h = absurd h

-- The shared state after a call has built, installed and started its engine.
abbrev pub with_built : Config → Shared → Shared
with_built cfg s = record s {
  engines = update s.engines s.built (new_engine cfg);
  built = suc s.built;
}

abbrev pub with_installed : ℕ → String → Shared → Shared
with_installed i dir s = record s {
  runtime = record s.runtime { engine = some i; store = some dir };
}

abbrev pub with_started : ℕ → Shared → Shared
with_started i s = record s { engines = update s.engines i (start (s.engines i)) }

abbrev pub with_config : Config → Shared → Shared
with_config cfg s = record s {
  runtime = record s.runtime {
    config = cfg;
    configured = true;
    closed = false;
    engine = none;
    store = none;
  };
}

pub Differ-new :
    (s : Shared) (cfg : Config) (b : Option ℕ) (q : Pc) → Own s cfg b q → Differ (some s.built) b
Differ-new s cfg none q h = tt
Differ-new s cfg (some j) q h = ground (arith, built_below s cfg j q h)

pub Differ-sym : (a b : Option ℕ) → Differ a b → Differ b a
Differ-sym none none h = tt
Differ-sym none (some j) h = tt
Differ-sym (some i) none h = tt
Differ-sym (some i) (some j) h = ground (arith, h)

pub swap-Inv :
    (s : Shared) (p : Pc) (a : Option ℕ) (cfg : Config) (q : Pc) (b : Option ℕ) (cfg' : Config)
    → Inv s p a cfg q b cfg'
    → Inv s q b cfg' p a cfg
swap-Inv s p a cfg q b cfg' inv = record {
  own = inv.other;
  other = inv.own;
  differ = Differ-sym a b inv.differ;
  not_closed = inv.not_closed;
  caller = inv.caller;
  empty = λ nobody. inv.empty (ground (arith, nobody));
  held = λ some_one. elim (inv.held (ground (arith, some_one))) [ inl x ↦ inr x | inr x ↦ inl x ];
}

-- The engine `kept` is the runtime's, and a shutdown that stops it leaves `lost` active.
abbrev pub Leaves : Shared → Config → ℕ → ℕ → Type 0
Leaves s cfg kept lost =
    let after = stop_taken kept (shut s) in
    (s.runtime.engine ≡ some kept)
    × ((after.engines kept).active ≡ false)
    × ((after.engines lost).active ≡ true)
    × ((after.engines lost).started ≡ can_start cfg)

pub Leaves-other :
    (s : Shared) (cfg : Config) (kept lost : ℕ)
    → s.runtime.engine ≡ some kept
    → eqb kept lost ≡ false
    → s.engines lost ≡ start (new_engine cfg)
    → Leaves s cfg kept lost
unfolding shut stop_taken start stop
Leaves-other s cfg kept lost has apart is =
    ground (arith, has, apart, ap (λ e. e.active) is, ap (λ e. e.started) is)
