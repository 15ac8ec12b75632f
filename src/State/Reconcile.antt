-- ===== src/State/Reconcile.antt =====
-- `ReconcileAccounts` (internal/state/participation.go): what one discovery does to the accounts.
-- The function that is passed to `Store.Update` is modelled as a function on the state.
use cpa_codex_auto_reset.Prelude.{
  String, ◌==◌, ◌≡◌, refl, Bool, true, false, Option, none, some, List, [], ◌∷◌, arith, eq_iff,
  Dict, lookup, insert, modify_all, if◌then◌else◌, lookup-insert, lookup-modify_all,
}
use cpa_codex_auto_reset.Prelude.Time.{Time}
use cpa_codex_auto_reset.Account.{Account}
use cpa_codex_auto_reset.State.{State, AccountState, AccountDisplay, no_account}

abbrev pub set_present : Bool → AccountState → AccountState
set_present present item = record item { present = some present }

abbrev pub found_item : Bool → Time → Option AccountState → AccountState
found_item default_participation now none = record no_account {
  participating = default_participation;
  participation_set_at = now;
}
found_item default_participation now (some item) = item

abbrev pub seen : Time → Account → AccountState → AccountState
seen now discovered item = record item {
  present = some true;
  last_seen_at = now;
  display = record {
    label = discovered.label;
    email = discovered.email;
    file_name = discovered.file_name;
    auth_id = discovered.auth_id;
  };
}

module _ (default_participation : Bool) (now : Time) where
  -- The loop over the discovered accounts.
  unfoldable pub see_each : List Account → Dict AccountState → Dict AccountState
  see_each [] items = items
  see_each (a ∷ accounts) items =
      see_each accounts (
        insert a.ref (seen now a (found_item default_participation now (lookup a.ref items))) items)

-- `ReconcileAccounts`
unfoldable pub reconcile : List Account → Bool → Time → State → State
reconcile accounts default_participation now s = record s {
  accounts =
      see_each default_participation now accounts (modify_all (set_present false) s.accounts);
}

-- The discovered account with this reference that comes last.
abbrev pub last_with : String → List Account → Option Account
last_with ref [] = none
last_with ref (a ∷ accounts) =
    let later = last_with ref accounts in
    elim later [ some b ↦ some b | none ↦ if a.ref == ref then some a else none ]

abbrev display_of : Account → AccountDisplay
display_of a = record {
  label = a.label;
  email = a.email;
  file_name = a.file_name;
  auth_id = a.auth_id;
}

-- The state of an account after a discovery that returned it or not.
abbrev pub reconciled : Bool → Time → Option Account → Option AccountState → Option AccountState
reconciled default_participation now none none = none
reconciled default_participation now none (some item) = some (record item { present = some false })
reconciled default_participation now (some a) (some item) =
    some (record item { present = some true; last_seen_at = now; display = display_of a })
reconciled default_participation now (some a) none = some (record no_account {
  participating = default_participation;
  participation_set_at = now;
  present = some true;
  last_seen_at = now;
  display = display_of a;
})

module _ (default_participation : Bool) (now : Time) where
  abbrev see_last : Option Account → Option AccountState → Option AccountState
  see_last none old = old
  see_last (some a) old = some (seen now a (found_item default_participation now old))

  see_last-see_last :
      (later : Option Account) (a : Account) (old : Option AccountState)
      → see_last later (see_last (some a) old)
        ≡ see_last (elim later [ some b ↦ some b | none ↦ some a ]) old
  see_last-see_last none a old = refl
  see_last-see_last (some b) a none = refl
  see_last-see_last (some b) a (some item) = refl

  lookup-see_each :
      (j : String) (accounts : List Account) (items : Dict AccountState)
      → lookup j (see_each default_participation now accounts items)
        ≡ see_last (last_with j accounts) (lookup j items)
  unfolding see_each
  lookup-see_each j [] items = refl
  lookup-see_each j (a ∷ accounts) items =
      let item = seen now a (found_item default_participation now (lookup a.ref items)) in
      ground (
        arith,
        eq_iff a.ref j,
        lookup-see_each j accounts (insert a.ref item items),
        lookup-insert a.ref j item items,
        see_last-see_last (last_with j accounts) a (lookup j items),
      )

-- After a discovery an account is present exactly if the discovery returned it. A returned account
-- that was known keeps its participation and all its reset state and gets the new display and time;
-- one that was unknown starts with the default participation and no reset state; an account that
-- was not returned keeps everything but its presence.
pub lookup-reconcile :
    (accounts : List Account) (default_participation : Bool) (now : Time) (j : String) (s : State)
    → lookup j (reconcile accounts default_participation now s).accounts
      ≡ reconciled default_participation now (last_with j accounts) (lookup j s.accounts)
unfolding reconcile
lookup-reconcile accounts default_participation now j s =
    rw lookup-see_each (rw lookup-modify_all (ground arith))
