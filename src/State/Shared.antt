-- ===== src/State/Shared.antt =====
-- Calls of `Update` from several stores and processes on one state file (internal/state/store.go:
-- `Update`; internal/state/lock_unix.go: `acquireFileLock`, `Close`). A call that does not get the
-- file lock returns an error at once; inside one store, the mutex makes it wait before it tries.
use cpa_codex_auto_reset.Prelude.{
  ℕ, ◌≡◌, refl, false, Option, none, some, List, [], ◌∷◌, eqb, arith, Bool-cases, if◌then◌else◌,
  inl, inr,
}
use mathlib.Core.Path.{subst}
use cpa_codex_auto_reset.State.{State}

abbrev pub Change : Type 0
Change = State → Option State

-- Where a call is: it has not begun or has returned; it holds the file lock; it has read the state
-- file, and holds the state that its closure makes of it; it has replaced the file.
pub data Pc : Type 0 where
  outside : Pc
  locked : Change → Pc
  changed : Change → State → Pc
  replaced : Pc

-- `holder` is the call that holds the file lock. `committed` has the changes that have replaced the
-- file, the latest first.
pub record Shared : Type 0 where
  pub file : State
  pub holder : Option ℕ
  pub at : ℕ → Pc
  pub committed : List Change

abbrev pub untouched : State → Shared
untouched s = record { file = s; holder = none; at = λ _. outside; committed = [] }

pub data Event : Type 0 where
  locks : ℕ → Change → Event
  reads replaces returns : ℕ → Event

abbrev put : ℕ → Pc → (ℕ → Pc) → ℕ → Pc
put i pc at j = if eqb i j then pc else at j

-- The call returns: its deferred `lock.Close()` frees the file lock.
abbrev release : ℕ → Shared → Shared
release i s = record s { holder = none; at = put i outside s.at }

-- `acquireFileLock`, for a call that is not under way
abbrev acquire : ℕ → Change → Pc → Option ℕ → Shared → Shared
acquire i change outside none s = record s { holder = some i; at = put i (locked change) s.at }
acquire i change _ _ s = s

-- The closure ends the call when it returns an error.
abbrev apply : ℕ → Change → Option State → Shared → Shared
apply i change none s = release i s
apply i change (some new) s = record s { at = put i (changed change new) s.at }

abbrev read : ℕ → Pc → Shared → Shared
read i (locked change) s = apply i change (change s.file) s
read i _ s = s

abbrev replace : ℕ → Pc → Shared → Shared
replace i (changed change new) s = record s {
  file = new;
  at = put i replaced s.at;
  committed = change ∷ s.committed;
}
replace i _ s = s

-- A call may also return before the end: with an error, or because its process has died.
abbrev return : ℕ → Pc → Shared → Shared
return i outside s = s
return i _ s = release i s

unfoldable pub step : Event → Shared → Shared
step (locks i change) s = acquire i change (s.at i) s.holder s
step (reads i) s = read i (s.at i) s
step (replaces i) s = replace i (s.at i) s
step (returns i) s = return i (s.at i) s

unfoldable pub run : List Event → Shared → Shared
run [] s = s
run (e ∷ es) s = run es (step e s)

-- The changes one after another, the last of the list first, where none fails.
unfoldable pub replay : List Change → State → Option State
replay [] s = some s
replay (change ∷ changes) s = elim (replay changes s) [ none ↦ none | some s' ↦ change s' ]

-- Whether a call under way at this point may be where the others are.
abbrev Holds : Shared → ℕ → Pc → Type 0
Holds s i outside = Unit
Holds s i (locked change) = s.holder ≡ some i
Holds s i (changed change new) = (s.holder ≡ some i) × (change s.file ≡ some new)
Holds s i replaced = s.holder ≡ some i

record Inv (start : State) (s : Shared) : Type 0 where
  held : (i : ℕ) → Holds s i (s.at i)
  current : replay s.committed start ≡ some s.file

module _ (s : Shared) where
  put-Holds :
      (i : ℕ) (pc : Pc) (at : ℕ → Pc)
      → Holds s i pc
      → ((j : ℕ) → eqb i j ≡ false → at j ≡ outside)
      → (j : ℕ) → Holds s j (put i pc at j)
  put-Holds i pc at h others j = elim (Bool-cases (eqb i j)) [
    | inl same ↦ rw same (subst (λ k. Holds s k pc) (ground (arith, same)) h)
    | inr other ↦ rw (other, others j other) tt
  ]

  -- Only the call that holds the file lock is under way.
  only_holder :
      (i j : ℕ) (pc : Pc) → eqb i j ≡ false → s.holder ≡ some i → Holds s j pc → pc ≡ outside
  only_holder i j outside other held h = refl
  only_holder i j (locked change) other held h = ground (arith, other, held, h)
  only_holder i j (changed change new) other held h = ground (arith, other, held, h.0)
  only_holder i j replaced other held h = ground (arith, other, held, h)

  none_under_way : (j : ℕ) (pc : Pc) → s.holder ≡ none → Holds s j pc → pc ≡ outside
  none_under_way j outside free h = refl
  none_under_way j (locked change) free h = ground (arith, free, h)
  none_under_way j (changed change new) free h = ground (arith, free, h.0)
  none_under_way j replaced free h = ground (arith, free, h)

module _ (start : State) (i : ℕ) (s : Shared) (inv : Inv start s) where
  release-Inv : s.holder ≡ some i → Inv start (release i s)
  release-Inv held = record {
    held =
        put-Holds (release i s) i outside s.at tt
          λ j other. only_holder s i j (s.at j) other held (inv.held j);
    current = inv.current;
  }

  apply-Inv :
      (change : Change) (o : Option State)
      → s.holder ≡ some i
      → change s.file ≡ o
      → Inv start (apply i change o s)
  apply-Inv change none held made = release-Inv held
  apply-Inv change (some new) held made = record {
    held =
        put-Holds (apply i change (some new) s) i (changed change new) s.at (held, made)
          λ j other. only_holder s i j (s.at j) other held (inv.held j);
    current = inv.current;
  }

  read-Inv : (pc : Pc) → Holds s i pc → Inv start (read i pc s)
  read-Inv outside h = inv
  read-Inv (locked change) h = apply-Inv change (change s.file) h refl
  read-Inv (changed change new) h = inv
  read-Inv replaced h = inv

  replace-Inv : (pc : Pc) → Holds s i pc → Inv start (replace i pc s)
  unfolding replay
  replace-Inv outside h = inv
  replace-Inv (locked change) h = inv
  replace-Inv (changed change new) h = record {
    held =
        put-Holds (replace i (changed change new) s) i replaced s.at h.0
          λ j other. only_holder s i j (s.at j) other h.0 (inv.held j);
    current = rw inv.current h.1;
  }
  replace-Inv replaced h = inv

  return-Inv : (pc : Pc) → Holds s i pc → Inv start (return i pc s)
  return-Inv outside h = inv
  return-Inv (locked change) h = release-Inv h
  return-Inv (changed change new) h = release-Inv h.0
  return-Inv replaced h = release-Inv h

  acquire-Inv :
      (change : Change) (pc : Pc) (holder : Option ℕ)
      → s.holder ≡ holder
      → Inv start (acquire i change pc holder s)
  acquire-Inv change outside none free = record {
    held =
        put-Holds (acquire i change outside none s) i (locked change) s.at refl
          λ j other. none_under_way s j (s.at j) free (inv.held j);
    current = inv.current;
  }
  acquire-Inv change outside (some j) taken = inv
  acquire-Inv change (locked _) holder taken = inv
  acquire-Inv change (changed _ _) holder taken = inv
  acquire-Inv change replaced holder taken = inv

step-Inv : (start : State) (e : Event) (s : Shared) → Inv start s → Inv start (step e s)
unfolding step
step-Inv start (locks i change) s inv = acquire-Inv start i s inv change (s.at i) s.holder refl
step-Inv start (reads i) s inv = read-Inv start i s inv (s.at i) (inv.held i)
step-Inv start (replaces i) s inv = replace-Inv start i s inv (s.at i) (inv.held i)
step-Inv start (returns i) s inv = return-Inv start i s inv (s.at i) (inv.held i)

run-Inv : (start : State) (es : List Event) (s : Shared) → Inv start s → Inv start (run es s)
unfolding run
run-Inv start [] s inv = inv
run-Inv start (e ∷ es) s inv = run-Inv start es (step e s) (step-Inv start e s inv)

-- However calls of `Update` from several stores and processes are interleaved, and wherever they
-- end, no update is lost: the state file holds what the changes that have replaced it make of the
-- first state, one after another, each from the state that the one before it has left.
pub updates_are_serial :
    (start : State) (es : List Event)
    → let s = run es (untouched start) in replay s.committed start ≡ some s.file
unfolding replay
updates_are_serial start es =
    (run-Inv start es (untouched start) (record { held = λ i. tt; current = refl })).current
