-- ===== src/Plugin/Overlap/Leftover.antt =====
-- What two overlapping registrations leave behind (internal/plugin/runtime.go: `Handle`).
use cpa_codex_auto_reset.Prelude.{
  ℕ, ◌≡◌, ◌⊎◌, ◌∙◌, refl, Bool-cases, ap, eqb, inl, inr, ◌||◌, not, Option, Bool, true, false, none,
  some, List, [], ◌∷◌, arith,
}
use mathlib.Core.Path.{subst}
use cpa_codex_auto_reset.Config.{Config}
use cpa_codex_auto_reset.Codex.Requests.{new_client, default_base_url, Client}
use cpa_codex_auto_reset.Reset.Lifecycle.{start, new_engine}
use cpa_codex_auto_reset.Plugin.Runtime.{
  Sdk, Shared, Pc, locking, stopping_old, building, installing, discarding, starting, answered,
  registered, advance,
}
use cpa_codex_auto_reset.Plugin.System.{is_at_rest}
use cpa_codex_auto_reset.Plugin.Overlap.{
  Pair, advance_first, advance_second, interleave, has_installed, is_past, Own, Differ, Inv,
  swap-Inv, Leaves, Leaves-other,
}
use cpa_codex_auto_reset.Plugin.Overlap.Steps.{advance-Inv}

module _ (sdk : Sdk) where
  -- The two calls are about the configurations `one` and `two`.
  abbrev Overlaps : Config → Config → Pair → Type 0
  Overlaps one two p = (a : Option ℕ) × (b : Option ℕ) × Inv p.shared p.first a one p.second b two

  module _ (c : Client) (works : new_client sdk.parse_url default_base_url ≡ some c)
      (one two : Config) where
    advance_first-Overlaps :
        (p : Pair)
        → is_past p.first || not (has_installed p.second) ≡ true
        → Overlaps one two p
        → Overlaps one two (advance_first sdk p)
    advance_first-Overlaps p timely (a, b, inv) =
        let (a', inv') = advance-Inv sdk c works p.shared p.first a one p.second b two timely inv in
        (a', b, inv')

    advance_second-Overlaps :
        (p : Pair)
        → is_past p.second || not (has_installed p.first) ≡ true
        → Overlaps one two p
        → Overlaps one two (advance_second sdk p)
    advance_second-Overlaps p timely (a, b, inv) =
        let turned = swap-Inv p.shared p.first a one p.second b two inv in
        let (b', inv') =
          advance-Inv sdk c works p.shared p.second b two p.first a one timely turned in
        (a, b', swap-Inv _ _ b' two p.first a one inv')

    installed_stays :
        (p : Pc) (s : Shared) → has_installed p ≡ true → has_installed (advance sdk p s).1 ≡ true
    unfolding advance
    installed_stays p s h = ground (arith, h)

    past_stays : (p : Pc) (s : Shared) → is_past p ≡ true → is_past (advance sdk p s).1 ≡ true
    unfolding advance
    past_stays p s h = ground (arith, h)

    abbrev SomeInstalled : Pair → Type 0
    SomeInstalled p = has_installed p.first || has_installed p.second ≡ true

    -- Until one call has installed its engine.
    before_installing :
        (turns : List Bool) (p : Pair)
        → Overlaps one two p ⊎ SomeInstalled p
        → Overlaps one two (interleave sdk turns p) ⊎ SomeInstalled (interleave sdk turns p)
    unfolding interleave
    before_installing [] p h = h
    before_installing (true ∷ turns) p h =
        before_installing turns (advance_first sdk p) (elim (Bool-cases (has_installed p.second)) [
          | inl there ↦ inr (ground (arith, there))
          | inr not_there ↦ elim h [
            | inl inv ↦ inl (advance_first-Overlaps p (ground (arith, not_there)) inv)
            | inr some_one ↦
                inr (ground (arith, some_one, not_there, installed_stays p.first p.shared))
          ]
        ])
    before_installing (false ∷ turns) p h =
        before_installing turns (advance_second sdk p) (elim (Bool-cases (has_installed p.first)) [
          | inl there ↦ inr (ground (arith, there))
          | inr not_there ↦ elim h [
            | inl inv ↦ inl (advance_second-Overlaps p (ground (arith, not_there)) inv)
            | inr some_one ↦
                inr (ground (arith, some_one, not_there, installed_stays p.second p.shared))
          ]
        ])

    past_the_first :
        (turns : List Bool) (p : Pair)
        → is_past p.first ≡ true
        → is_past p.second ≡ true
        → Overlaps one two p
        → Overlaps one two (interleave sdk turns p)
    unfolding interleave
    past_the_first [] p f g h = h
    past_the_first (true ∷ turns) p f g h =
        past_the_first turns (advance_first sdk p) (past_stays p.first p.shared f) g
          (advance_first-Overlaps p (ground (arith, f)) h)
    past_the_first (false ∷ turns) p f g h =
        past_the_first turns (advance_second sdk p) f (past_stays p.second p.shared g)
          (advance_second-Overlaps p (ground (arith, g)) h)

  rested :
      (s : Shared) (cfg : Config) (a : Option ℕ) (p : Pc)
      → Own s cfg a p
      → is_at_rest p ≡ true
      → (i : ℕ) × (a ≡ some i) × (p ≡ answered registered) × (s.engines i ≡ start (new_engine cfg))
  rested s cfg (some i) (answered r) own rest = (i, refl, ap answered own.0, own.1)
  rested s cfg none (answered r) own rest = absurd own
  rested s cfg a (locking _ _) own rest = ground (arith, rest)
  rested s cfg a (stopping_old _ _ _) own rest = ground (arith, rest)
  rested s cfg a (building _) own rest = ground (arith, rest)
  rested s cfg a (installing _ _) own rest = ground (arith, rest)
  rested s cfg a (discarding _) own rest = ground (arith, rest)
  rested s cfg a (starting _) own rest = ground (arith, rest)

  -- One of the two engines is the runtime's, and the other is left.
  abbrev pub OneIsLeft : Shared → Config → Config → Type 0
  OneIsLeft s one two = (kept : ℕ) × (lost : ℕ) × (Leaves s one kept lost ⊎ Leaves s two kept lost)

  one_is_left :
      (p : Pair) (one two : Config)
      → Overlaps one two p
      → is_at_rest p.first ≡ true
      → is_at_rest p.second ≡ true
      → (p.first ≡ answered registered)
        × (p.second ≡ answered registered)
        × OneIsLeft p.shared one two
  one_is_left p one two (a, b, inv) f g =
      let s = p.shared in
      let (i, is_i, first, mine) = rested s one a p.first inv.own f in
      let (j, is_j, second, theirs) = rested s two b p.second inv.other g in
      let apart : eqb i j ≡ false =
        subst (λ x. Differ x (some j)) is_i (subst (Differ a) is_j inv.differ) in
      (
        first,
        second,
        elim (inv.held (ground (arith, first))) [
          | inl (_, has) ↦ (i, j, inr (Leaves-other s two i j (has ∙ is_i) apart theirs))
          | inr (_, has) ↦
              (j, i, inl (Leaves-other s one j i (has ∙ is_j) (ground (arith, apart)) mine))
        ],
      )

  -- Two registrations with valid configurations come to the first locked section.
  abbrev pub arriving : Shared → Config → Config → Pair
  arriving s one two = record { shared = s; first = locking false one; second = locking false two }

  abbrev pub is_between : Pc → Bool
  is_between (stopping_old _ _ _) = true
  is_between (building _) = true
  is_between (installing _ _) = true
  is_between _ = false

  -- Two registrations find an open runtime without an engine, where the host's caller is set, and
  -- their steps are taken in any order in which there is a moment when both are past the first locked
  -- section and neither has installed its engine. Once both are answered, both have succeeded, the
  -- runtime holds the engine of one of them alone, and after a shutdown that stops this one the other
  -- one's engine is still active, and started if its configuration is enabled and complete.
  pub overlap_leaves_engine :
      (c : Client) (s : Shared) (one two : Config) (before after : List Bool)
      → new_client sdk.parse_url default_base_url ≡ some c
      → s.runtime.engine ≡ none
      → s.runtime.closed ≡ false
      → s.runtime.host_caller ≡ true
      → is_between (interleave sdk before (arriving s one two)).first ≡ true
      → is_between (interleave sdk before (arriving s one two)).second ≡ true
      → is_at_rest (interleave sdk after (interleave sdk before (arriving s one two))).first ≡ true
      → is_at_rest (interleave sdk after (interleave sdk before (arriving s one two))).second ≡ true
      → let end = interleave sdk after (interleave sdk before (arriving s one two)) in
        (end.first ≡ answered registered)
        × (end.second ≡ answered registered)
        × OneIsLeft end.shared one two
  overlap_leaves_engine c s one two before after works bare allowed caller f g f' g' =
      let start = arriving s one two in
      let moment = interleave sdk before start in
      let begin : Overlaps one two start = (
        none,
        none,
        record {
          own = (refl, refl);
          other = (refl, refl);
          differ = tt;
          not_closed = allowed;
          caller = caller;
          empty = λ _. bare;
          held = λ some_one. ground (arith, some_one);
        },
      ) in
      elim (before_installing c works one two before start (inl begin)) [
        | inl inv ↦
            one_is_left (interleave sdk after moment) one two
              (past_the_first c works one two after moment (ground (arith, f)) (ground (arith, g))
                inv)
              f' g'
        | inr some_one ↦ ground (arith, some_one, f, g)
      ]
