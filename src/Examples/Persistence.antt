-- ===== src/Examples/Persistence.antt =====
-- The state and its file at concrete values (internal/state).
use cpa_codex_auto_reset.Prelude.{
  ℕ, zero, suc, ◌*◌, ◌^◌, String, Bool-cases, inl, inr, ◌≡◌, ◌⊎◌, refl, Bool, true, false, Option,
  none, some, List, [], ◌∷◌, All, lookup, eqb, ◌==◌, ◌&&◌, arith, eq_iff, ap, sym, if◌then◌else◌,
}
use mathlib.Core.Option
use cpa_codex_auto_reset.Prelude.Text.{byte_length}
use cpa_codex_auto_reset.State.{
  State, schema_version, no_entry, new_state, Cooldown, ScanSummary, no_summary, append_log,
}
use cpa_codex_auto_reset.State.Participation.{set_participation, marked, lookup-set_participation}
use cpa_codex_auto_reset.State.Reconcile.{reconcile, reconciled, last_with, lookup-reconcile}
use cpa_codex_auto_reset.State.Store.{
  Io, Disk, decoded, loaded, corrupt, load, attempt, save_raw, update,
}
use cpa_codex_auto_reset.State.Store.RoundTrip.{load-update, oversized_state_is_final}
use cpa_codex_auto_reset.State.Store.Atomic.{Written, update_atomic}
use cpa_codex_auto_reset.Reset.Exec.{Fault, saved}
use cpa_codex_auto_reset.Reset.Persistence.{ReadsBack, update_refines_saved}
use cpa_codex_auto_reset.Examples.{noon, item, fresh, open_state}

lookup-set_participation_example :
    lookup "acct" (set_participation (" acct " ∷ "x" ∷ []) false noon fresh).0.accounts
    ≡ Option.map (marked (" acct " ∷ "x" ∷ []) false noon "acct") (lookup "acct" fresh.accounts)
lookup-set_participation_example =
    lookup-set_participation (" acct " ∷ "x" ∷ []) false noon "acct" fresh

lookup-reconcile_example :
    lookup "acct" (reconcile (item ∷ []) true noon open_state).accounts
    ≡ reconciled true noon (last_with "acct" (item ∷ [])) (lookup "acct" open_state.accounts)
lookup-reconcile_example = lookup-reconcile (item ∷ []) true noon "acct" open_state

-- Every write of a state gives one text, and every text reads as the empty state.
abbrev forgetful : Io
forgetful = record { fails = λ _. false; decode = λ _. decoded new_state; encode = λ _. some "{}" }

abbrev old_disk : Disk
old_disk = record { target = some "{ }"; temp = none }

abbrev append_one : State → Option State
append_one s = some (append_log no_entry s)

update_atomic_example :
    let r = update forgetful append_one old_disk in
    ((r.disk.target ≡ some "{ }") ⊎ Written forgetful append_one (some "{ }") r.disk.target)
    × All
        (λ d. (d.target ≡ some "{ }") ⊎ Written forgetful append_one (some "{ }") d.target)
        r.history
    × (r.done ≡ true → Written forgetful append_one (some "{ }") r.disk.target)
update_atomic_example = update_atomic forgetful append_one old_disk

abbrev blank_scan : ScanSummary → Bool
blank_scan s =
    eqb s.started_at no_summary.started_at
    && eqb s.finished_at no_summary.finished_at
    && s.trigger == ""
    && eqb s.accounts 0
    && eqb s.eligible 0
    && eqb s.reset 0
    && eqb s.errors 0
    && s.error == ""

abbrev has_none : {A : Type 0} → Option A → Bool
has_none none = true
has_none (some _) = false

abbrev has_nothing : {A : Type 0} → List A → Bool
has_nothing [] = true
has_nothing (_ ∷ _) = false

abbrev is_blank_beside : State → Bool
is_blank_beside s =
    eqb s.version 1 && has_nothing s.accounts && blank_scan s.last_scan && has_nothing s.logs

-- The management API cools down until noon.
abbrev cooled : State
cooled = record new_state { management_cooldown = some (record { until = noon; reason = "auth" }) }

abbrev is_noon : Option Cooldown → Bool
is_noon none = false
is_noon (some c) = eqb c.until noon && c.reason == "auth"

is_blank_new :
    (s : State) → is_blank_beside s && has_none s.management_cooldown ≡ true → new_state ≡ s
is_blank_new s h = ground (arith, h, eq_iff s.last_scan.trigger "", eq_iff s.last_scan.error "")

is_blank_cooled :
    (s : State) → is_blank_beside s && is_noon s.management_cooldown ≡ true → cooled ≡ s
is_blank_cooled s h =
    grind (arith, h, eq_iff s.last_scan.trigger "", eq_iff s.last_scan.error "", eq_iff)

-- Writes the empty state and the one that cools down.
abbrev careful : Io
careful = record {
  fails = λ _. false;
  decode = λ raw. decoded (if raw == "{}" then new_state else cooled);
  encode = λ s.
      if is_blank_beside s && has_none s.management_cooldown
      then some "{}"
      else if is_blank_beside s && is_noon s.management_cooldown
      then some "{cooled}"
      else none;
}

careful_decodes :
    (s : State) (raw : String) → careful.encode s ≡ some raw → careful.decode raw ≡ decoded s
careful_decodes s raw h = elim (Bool-cases (is_blank_beside s && has_none s.management_cooldown)) [
  | inl blank ↦
      let e : "{}" ≡ raw = ground (arith, h, blank) in
      rw (sym e) (ap decoded (is_blank_new s blank))
  | inr other ↦
      let e : "{cooled}" ≡ raw = ground (arith, h, other) in
      rw (sym e) (ap decoded (is_blank_cooled s (ground (arith, h, other))))
]

careful_back : ReadsBack careful
careful_back = record { readable = refl; round_trip = careful_decodes }

abbrev cool : State → Option State
cool s = some (record s { management_cooldown = cooled.management_cooldown })

abbrev blank_file : Disk
blank_file = record { target = some "{}"; temp = none }

update_refines_saved_example :
    let r = update careful cool blank_file in
    (fault : Fault) × (state : State) × (saved fault new_state (some cooled) ≡ (r.done, state))
    × (load careful r.disk.target ≡ loaded state)
unfolding load byte_length
update_refines_saved_example =
    update_refines_saved careful careful_back cool new_state blank_file cooled refl refl refl
      (λ raw h. let e : "{cooled}" ≡ raw = cc h in omega (arith, ap byte_length e))

load-update_example :
    (s : State) × (s' : State) × (load careful (some "{}") ≡ loaded s)
    × (cool s ≡ some s')
    × (load careful (update careful cool blank_file).disk.target
        ≡ loaded (record s' { version = schema_version }))
unfolding update load attempt save_raw byte_length
load-update_example =
    load-update careful careful cool blank_file careful_decodes
      (λ raw h. let e : "{cooled}" ≡ raw = cc h in omega (arith, ap byte_length e)) refl refl

-- A text of a number of ASCII characters.
unfoldable repeated : ℕ → String
repeated zero = ""
repeated (suc n) = String.◌∷◌ "a" (repeated n)

byte_length-repeated : (n : ℕ) → byte_length (repeated n) ≡ n
unfolding repeated byte_length
byte_length-repeated zero = refl
byte_length-repeated (suc n) = omega (arith, byte_length-repeated n)

abbrev nine_mib : String
nine_mib = repeated (9 * 2 ^ 20)

abbrev verbose : Io
verbose = record careful { encode = λ _. some nine_mib }

oversized_state_is_final_example :
    let d = (update verbose cool blank_file).disk in
    ((update verbose cool blank_file).done ≡ true)
    × (load careful d.target ≡ corrupt)
    × ((update careful cool d).disk.target ≡ d.target)
    × ((update careful cool d).done ≡ false)
unfolding load byte_length
oversized_state_is_final_example =
    oversized_state_is_final verbose careful cool cool blank_file new_state cooled nine_mib
      (λ _. refl) refl refl refl (omega (arith, byte_length-repeated (9 * 2 ^ 20))) refl
