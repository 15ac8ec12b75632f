-- ===== src/Reset/AccountLocks.antt =====
-- The locks of the accounts (internal/reset/engine.go: `accountLock`, and the calls of
-- `processAccount` around what it returns). A mutex is the number of its creation.
pub mod Exclusive
use cpa_codex_auto_reset.Prelude.{
  ℕ, zero, suc, ◌+◌, ◌≤◌, ◌<◌, String, ◌==◌, ◌≡◌, refl, ap, sym, ◌∙◌, ◌⊎◌, Bool, true, false, ◌&&◌,
  Option, none, some, List, [], ◌∷◌, ◌++◌, Dict, All, map-All, lookup, insert, lookup-insert,
  get_elem?, set, eqb, arith, eq_iff, if◌then◌else◌, Option-cases, inl, inr,
}

-- `e.locks`, and the number of mutexes made so far.
pub record Locks : Type 0 where
  pub locks : Dict ℕ
  pub made : ℕ

-- `accountLock`
unfoldable pub account_lock : String → Locks → ℕ × Locks
account_lock ref s = elim (lookup ref s.locks) [
  | none ↦ (s.made, record { locks = insert ref s.made s.locks; made = suc s.made })
  | some lock ↦ (lock, s)
]

-- A call of `processAccount`: it has its mutex and waits for it, it holds it, or it has returned.
pub data Stage : Type 0 where
  waits inside returned : Stage

pub record Call : Type 0 where
  pub ref : String
  pub lock : ℕ
  pub stage : Stage

pub record Calls : Type 0 where
  pub table : Locks
  pub calls : List Call

abbrev pub idle : Calls
idle = record { table = record { locks = []; made = 0 }; calls = [] }

abbrev pub is_inside : Stage → Bool
is_inside waits = false
is_inside inside = true
is_inside returned = false

abbrev pub one_if : Bool → ℕ
one_if b = if b then 1 else 0

abbrev pub counted : (Call → Bool) → List Call → ℕ
counted test [] = 0
counted test (c ∷ cs) = one_if (test c) + counted test cs

abbrev pub holds : ℕ → Call → Bool
holds lock c = is_inside c.stage && eqb c.lock lock

abbrev pub works_on : String → Call → Bool
works_on ref c = is_inside c.stage && (c.ref == ref)

-- How many calls are at work on an account.
abbrev pub at_work : String → List Call → ℕ
at_work ref cs = counted (works_on ref) cs

-- A call gets its mutex, passes `lock.Lock()`, or returns, which unlocks the mutex.
pub data Event : Type 0 where
  begins : String → Event
  enters leaves : ℕ → Event

-- A mutex that some call holds keeps the others waiting.
abbrev pub enter : List Call → Call → Call
enter cs c = elim c.stage [
  | waits ↦ if eqb (counted (holds c.lock) cs) 0 then record c { stage = inside } else c
  | inside ↦ c
  | returned ↦ c
]

abbrev pub leave : Call → Call
leave c = elim c.stage [ waits ↦ c | inside ↦ record c { stage = returned } | returned ↦ c ]

abbrev pub at : ℕ → (Call → Call) → List Call → List Call
at i f [] = []
at zero f (c ∷ cs) = f c ∷ cs
at (suc i) f (c ∷ cs) = c ∷ at i f cs

unfoldable pub step : Event → Calls → Calls
unfolding account_lock
step (begins ref) s =
    let (lock, table) = account_lock ref s.table in
    record { table = table; calls = record { ref = ref; lock = lock; stage = waits } ∷ s.calls }
step (enters i) s = record s { calls = at i (enter s.calls) s.calls }
step (leaves i) s = record s { calls = at i leave s.calls }

unfoldable pub run : List Event → Calls → Calls
run [] s = s
run (e ∷ es) s = run es (step e s)
