-- ===== src/State/Participation.antt =====
-- Participation of accounts (internal/state/participation.go). The functions that are passed to
-- `Store.Update` are modelled as functions on the state; the store is never nil.
use cpa_codex_auto_reset.Prelude.{
  ℕ, suc, ◌+◌, String, ◌==◌, ◌≡◌, refl, Bool, false, not, ◌||◌, ◌&&◌, Option, none, some, List, [],
  ◌∷◌, ◌++◌, arith, eq_iff, length, length-append, lookup, modify, contains, if◌then◌else◌,
  lookup-modify,
}
use mathlib.Core.Option
use cpa_codex_auto_reset.Prelude.Time.{Time}
use cpa_codex_auto_reset.Prelude.Text.{trim_space, is_empty, text_less}
use cpa_codex_auto_reset.Prelude.Sort.{sort_by, sort_by-length}
use cpa_codex_auto_reset.State.{State, AccountState, is_present}

-- The keys of the map `unique`.
unfoldable pub unique_refs : List String → List String → List String
unique_refs [] unique = unique
unique_refs (ref ∷ refs) unique =
    let trimmed = trim_space ref in
    unique_refs refs
      (if is_empty trimmed || contains unique trimmed then unique else unique ++ trimmed ∷ [])

pub record ParticipationResult : Type 0 where
  pub updated : ℕ
  pub unknown : List String

abbrev pub set_flag : Bool → Time → AccountState → AccountState
set_flag participating now item = record item {
  participating = participating;
  participation_set_at = now;
}

module _ (participating : Bool) (now : Time) where
  -- One round of the loop over `unique`.
  unfoldable pub set_one : String → State × ParticipationResult → State × ParticipationResult
  set_one ref (s, result) = elim (lookup ref s.accounts) [
    | none ↦ (s, record result { unknown = result.unknown ++ ref ∷ [] })
    | some item ↦
        if is_present item
        then (
          record s { accounts = modify ref (set_flag participating now) s.accounts },
          record result { updated = result.updated + 1 },
        )
        else (s, record result { unknown = result.unknown ++ ref ∷ [] })
  ]

  unfoldable pub set_each : List String → State × ParticipationResult → State × ParticipationResult
  set_each [] done = done
  set_each (ref ∷ refs) done = set_each refs (set_one ref done)

-- `SetParticipation`
unfoldable pub set_participation : List String → Bool → Time → State → State × ParticipationResult
set_participation refs participating now s =
    let (s', result) =
      set_each participating now (unique_refs refs []) (s, record { updated = 0; unknown = [] }) in
    (s', record result { unknown = sort_by text_less result.unknown })

-- Whether a reference names an account: one of the texts is this reference once trimmed, and it is
-- not empty.
abbrev pub names : List String → String → Bool
names [] ref = false
names (text ∷ texts) ref = (trim_space text == ref && not (is_empty ref)) || names texts ref

-- The last discovery has not returned the account.
abbrev pub was_lost : AccountState → Bool
was_lost item = elim item.present [ some p ↦ not p | none ↦ false ]

-- What one call does to the account that `ref` names.
abbrev pub marked : List String → Bool → Time → String → AccountState → AccountState
marked refs participating now ref item =
    if names refs ref && not (was_lost item)
    then record item { participating = participating; participation_set_at = now }
    else item

module _ (participating : Bool) (now : Time) where
  abbrev chosen : Bool → AccountState → AccountState
  chosen named item = if named && is_present item then set_flag participating now item else item

  lookup-set_one :
      (ref j : String) (s : State) (r : ParticipationResult)
      → lookup j (set_one participating now ref (s, r)).0.accounts
        ≡ Option.map (chosen (ref == j)) (lookup j s.accounts)
  unfolding set_one
  lookup-set_one ref j s r =
      ground (arith, eq_iff ref j, lookup-modify ref j (set_flag participating now) s.accounts)

  chosen-chosen :
      (a b : Bool) (o : Option AccountState)
      → Option.map (chosen b) (Option.map (chosen a) o) ≡ Option.map (chosen (a || b)) o
  chosen-chosen a b o = ground arith

  lookup-set_each :
      (refs : List String) (j : String) (s : State) (r : ParticipationResult)
      → lookup j (set_each participating now refs (s, r)).0.accounts
        ≡ Option.map (chosen (contains refs j)) (lookup j s.accounts)
  unfolding set_each
  lookup-set_each [] j s r = ground arith
  lookup-set_each (ref ∷ refs) j s r =
      let (s', r') = set_one participating now ref (s, r) in
      ground (
        arith,
        lookup-set_one ref j s r,
        lookup-set_each refs j s' r',
        chosen-chosen (ref == j) (contains refs j) (lookup j s.accounts),
      )

contains-append :
    (xs : List String) (y j : String) → contains (xs ++ y ∷ []) j ≡ contains xs j || (y == j)
contains-append [] y j = ground arith
contains-append (x ∷ xs) y j = ground (arith, contains-append xs y j)

names-unique_refs :
    (refs unique : List String) (j : String)
    → contains (unique_refs refs unique) j ≡ contains unique j || names refs j
unfolding unique_refs
names-unique_refs [] unique j = ground arith
names-unique_refs (ref ∷ refs) unique j =
    let trimmed = trim_space ref in
    ground (
      arith,
      eq_iff trimmed j,
      contains-append unique trimmed j,
      names-unique_refs refs unique j,
      names-unique_refs refs (unique ++ trimmed ∷ []) j,
    )

-- One call sets the flag and its time at exactly the accounts that it names, after trimming, and
-- that the last discovery returned; every other account, and every other field, stays as it was.
pub lookup-set_participation :
    (refs : List String) (participating : Bool) (now : Time) (j : String) (s : State)
    → lookup j (set_participation refs participating now s).0.accounts
      ≡ Option.map (marked refs participating now j) (lookup j s.accounts)
unfolding set_participation
lookup-set_participation refs participating now j s =
    let named : contains (unique_refs refs []) j ≡ names refs j = names-unique_refs refs [] j in
    let none_yet : ParticipationResult = record { updated = 0; unknown = [] } in
    ground (arith, named, lookup-set_each participating now (unique_refs refs []) j s none_yet)

module _ (participating : Bool) (now : Time) where
  rest-set_one :
      (ref : String) (s : State) (r : ParticipationResult)
      → let s' = (set_one participating now ref (s, r)).0 in
        s' ≡ record s { accounts = s'.accounts }
  unfolding set_one
  rest-set_one ref s r = ground arith

  counts-set_one :
      (ref : String) (s : State) (r : ParticipationResult)
      → let r' = (set_one participating now ref (s, r)).1 in
        r'.updated + length r'.unknown ≡ suc (r.updated + length r.unknown)
  unfolding set_one
  counts-set_one ref s r = ground (arith, length-append r.unknown (ref ∷ []))

  rest-set_each :
      (refs : List String) (s : State) (r : ParticipationResult)
      → let (s', r') = set_each participating now refs (s, r) in
        (s' ≡ record s { accounts = s'.accounts })
        × (r'.updated + length r'.unknown ≡ r.updated + length r.unknown + length refs)
  unfolding set_each
  rest-set_each [] s r = (refl, omega arith)
  rest-set_each (ref ∷ refs) s r =
      let (s', r') = set_one participating now ref (s, r) in
      let ih = rest-set_each refs s' r' in
      (cc (ih.0, rest-set_one ref s r), omega (arith, ih.1, counts-set_one ref s r))

-- Every distinct reference is either counted as updated or listed as unknown, and the call leaves
-- the log, the last scan and the management cooldown alone.
pub set_participation_accounts_for_all :
    (refs : List String) (participating : Bool) (now : Time) (s : State)
    → let (s', r) = set_participation refs participating now s in
      (s' ≡ record s { accounts = s'.accounts })
      × (r.updated + length r.unknown ≡ length (unique_refs refs []))
unfolding set_participation
set_participation_accounts_for_all refs participating now s =
    let none_yet : ParticipationResult = record { updated = 0; unknown = [] } in
    let (s', r') = set_each participating now (unique_refs refs []) (s, none_yet) in
    let h = rest-set_each participating now (unique_refs refs []) s none_yet in
    (h.0, omega (arith, h.1, sort_by-length text_less r'.unknown))
