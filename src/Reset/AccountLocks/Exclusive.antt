-- ===== src/Reset/AccountLocks/Exclusive.antt =====
-- One call of `processAccount` at a time on each account (internal/reset/engine.go: `accountLock`).
use cpa_codex_auto_reset.Prelude.{
  ℕ, zero, suc, ◌+◌, ◌≤◌, ◌<◌, String, ◌==◌, ◌≡◌, refl, ap, sym, Bool, none, some, List, [], ◌∷◌,
  All, map-All, lookup, lookup-insert, get_elem?, eqb, arith, eq_iff, if◌then◌else◌, Option-cases,
  inl, inr,
}
use cpa_codex_auto_reset.Reset.AccountLocks.{
  Locks, account_lock, waits, Call, Calls, idle, one_if, counted, holds, works_on, at_work, Event,
  begins, enters, leaves, enter, leave, at, step, run,
}

-- Each account has a mutex of its own.
record IsKept (t : Locks) : Type 0 where
  fresh : (ref : String) (lock : ℕ) → lookup ref t.locks ≡ some lock → lock < t.made
  apart :
      (ref ref' : String) (lock : ℕ)
      → lookup ref t.locks ≡ some lock
      → lookup ref' t.locks ≡ some lock
      → ref ≡ ref'

abbrev IsOwn : Locks → Call → Type 0
IsOwn t c = lookup c.ref t.locks ≡ some c.lock

-- Each call has the mutex of its account, which no other call holds.
record Inv (s : Calls) : Type 0 where
  kept : IsKept s.table
  own : All (IsOwn s.table) s.calls
  single : (lock : ℕ) → counted (holds lock) s.calls ≤ 1

module _ (ref : String) (t : Locks) where
  account_lock-found : lookup ref (account_lock ref t).1.locks ≡ some (account_lock ref t).0
  unfolding account_lock
  account_lock-found = ground (arith, lookup-insert ref ref t.made t.locks, eq_iff ref ref)

  account_lock-keeps :
      (r : String) (lock : ℕ)
      → lookup r t.locks ≡ some lock
      → lookup r (account_lock ref t).1.locks ≡ some lock
  unfolding account_lock
  account_lock-keeps r lock h = grind (arith, h, lookup-insert ref r t.made t.locks, eq_iff ref r)

  account_lock-IsKept : IsKept t → IsKept (account_lock ref t).1
  unfolding account_lock
  account_lock-IsKept kept = record {
    fresh = λ r lock h.
        grind (arith, lookup-insert ref r t.made t.locks, eq_iff ref r, kept.fresh r lock);
    apart = λ r r' lock h h'. grind (
      arith,
      lookup-insert ref r t.made t.locks,
      lookup-insert ref r' t.made t.locks,
      eq_iff ref r,
      eq_iff ref r',
      kept.fresh r lock,
      kept.fresh r' lock,
      kept.apart r r' lock,
    );
  }

counted-at :
    (test : Call → Bool) (f : Call → Call) (k i : ℕ) (cs : List Call)
    → ((c : Call) → one_if (test (f c)) ≤ one_if (test c) + k)
    → counted test (at i f cs) ≤ counted test cs + k
counted-at test f k i [] h = omega arith
counted-at test f k zero (c ∷ cs) h = omega (arith, h c)
counted-at test f k (suc i) (c ∷ cs) h = omega (arith, counted-at test f k i cs h)

counted-at-exact :
    (test : Call → Bool) (f : Call → Call) (i : ℕ) (cs : List Call) (c : Call)
    → get_elem? cs i ≡ some c
    → counted test (at i f cs) + one_if (test c) ≡ counted test cs + one_if (test (f c))
counted-at-exact test f i [] c h = cc h
counted-at-exact test f zero (d ∷ cs) c h =
    let e : d ≡ c = cc h in
    omega (arith, ap (λ x. one_if (test x)) e, ap (λ x. one_if (test (f x))) e)
counted-at-exact test f (suc i) (d ∷ cs) c h = omega (arith, counted-at-exact test f i cs c h)

at-All :
    (P : Call → Type 0) (f : Call → Call) (i : ℕ) (cs : List Call)
    → ((c : Call) → P c → P (f c))
    → All P cs
    → All P (at i f cs)
at-All P f i [] keeps all = tt
at-All P f zero (c ∷ cs) keeps all = (keeps c all.0, all.1)
at-All P f (suc i) (c ∷ cs) keeps all = (all.0, at-All P f i cs keeps all.1)

-- Equal mutexes have the same holders.
same_holders :
    (lock lock' : ℕ) (cs : List Call)
    → lock ≡ lock'
    → counted (holds lock) cs ≡ counted (holds lock') cs
same_holders lock lock' cs e = ap (λ l. counted (holds l) cs) e

-- What one step adds to the holders of a mutex.
enter_adds :
    (lock : ℕ) (cs : List Call) (c : Call)
    → one_if (holds lock (enter cs c))
      ≤ one_if (holds lock c) + one_if (eqb (counted (holds lock) cs) 0)
enter_adds lock cs c = ground (arith, same_holders c.lock lock cs)

leave_adds : (lock : ℕ) (c : Call) → one_if (holds lock (leave c)) ≤ one_if (holds lock c) + 0
leave_adds lock c = ground arith

step-Inv : (e : Event) (s : Calls) → Inv s → Inv (step e s)
unfolding step
step-Inv (begins ref) s inv = record {
  kept = account_lock-IsKept ref s.table inv.kept;
  own = (
    account_lock-found ref s.table,
    map-All (λ c h. account_lock-keeps ref s.table c.ref c.lock h) s.calls inv.own,
  );
  single = λ lock. omega (arith, inv.single lock);
}
step-Inv (enters i) s inv = record {
  kept = inv.kept;
  own = at-All (IsOwn s.table) (enter s.calls) i s.calls (λ c h. ground (arith, h)) inv.own;
  single = λ lock. ground (
    arith,
    inv.single lock,
    counted-at (holds lock) (enter s.calls) (one_if (eqb (counted (holds lock) s.calls) 0)) i
        s.calls (enter_adds lock s.calls),
  );
}
step-Inv (leaves i) s inv = record {
  kept = inv.kept;
  own = at-All (IsOwn s.table) leave i s.calls (λ c h. ground (arith, h)) inv.own;
  single = λ lock.
      omega (arith, inv.single lock, counted-at (holds lock) leave 0 i s.calls (leave_adds lock));
}

run-Inv : (es : List Event) (s : Calls) → Inv s → Inv (run es s)
unfolding run
run-Inv [] s inv = inv
run-Inv (e ∷ es) s inv = run-Inv es (step e s) (step-Inv e s inv)

idle-Inv : Inv idle
unfolding lookup
idle-Inv = record {
  kept = record {
    fresh = λ ref lock h. ground (arith, h);
    apart = λ ref ref' lock h h'. ground (arith, h);
  };
  own = tt;
  single = λ lock. omega arith;
}

module _ (t : Locks) (kept : IsKept t) (ref : String) where
  -- The calls at work on an account are those that hold its mutex.
  at_work-holders :
      (lock : ℕ) (cs : List Call)
      → lookup ref t.locks ≡ some lock
      → All (IsOwn t) cs
      → at_work ref cs ≡ counted (holds lock) cs
  at_work-holders lock [] found own = refl
  at_work-holders lock (c ∷ cs) found own = ground (
    arith,
    at_work-holders lock cs found own.1,
    found,
    own.0,
    eq_iff c.ref ref,
    kept.apart ref c.ref lock found,
  )

  -- An account without a mutex has no call.
  at_work-none :
      (cs : List Call) → lookup ref t.locks ≡ none → All (IsOwn t) cs → at_work ref cs ≡ 0
  at_work-none [] none_yet own = refl
  at_work-none (c ∷ cs) none_yet own =
      ground (arith, at_work-none cs none_yet own.1, none_yet, own.0, eq_iff c.ref ref)

at_work_bound : (s : Calls) (ref : String) → Inv s → at_work ref s.calls ≤ 1
at_work_bound s ref inv = elim (Option-cases (lookup ref s.table.locks)) [
  | inl none_yet ↦ omega (arith, at_work-none s.table inv.kept ref s.calls none_yet inv.own)
  | inr (lock, found) ↦
      omega
        (arith, at_work-holders s.table inv.kept ref lock s.calls found inv.own, inv.single lock)
]

get_elem?-All :
    (P : Call → Type 0) (cs : List Call) (i : ℕ) (c : Call)
    → get_elem? cs i ≡ some c
    → All P cs
    → P c
get_elem?-All P [] i c h all = cc h
get_elem?-All P (d ∷ cs) zero c h all = let e : d ≡ c = cc h in rw (sym e) all.0
get_elem?-All P (d ∷ cs) (suc i) c h all = get_elem?-All P cs i c h all.1

same_work : (ref ref' : String) (cs : List Call) → ref ≡ ref' → at_work ref cs ≡ at_work ref' cs
same_work ref ref' cs e = ap (λ r. at_work r cs) e

enters_lem :
    (s : Calls) (i : ℕ) (c : Call) (ref : String)
    → Inv s
    → get_elem? s.calls i ≡ some c
    → c.stage ≡ waits
    → at_work ref (step (enters i) s).calls ≡ (if c.ref == ref then 1 else at_work ref s.calls)
unfolding step
enters_lem s i c ref inv found waiting =
    let own = get_elem?-All (IsOwn s.table) s.calls i c found inv.own in
    let exact = counted-at-exact (works_on ref) (enter s.calls) i s.calls c found in
    let same = at_work-holders s.table inv.kept c.ref c.lock s.calls own inv.own in
    ground (
      arith,
      exact,
      same,
      inv.single c.lock,
      waiting,
      eq_iff c.ref ref,
      same_work c.ref ref s.calls,
    )

-- Whatever calls of `processAccount` there are and however their steps are ordered, at most one is
-- at work on each account; and when a call that waits tries its mutex, one call is then at work on
-- its account, this one or the one before, and on the other accounts as many as before.
pub account_lock_excludes :
    (es : List Event) (i : ℕ) (c : Call)
    → get_elem? (run es idle).calls i ≡ some c
    → c.stage ≡ waits
    → (ref : String)
    → (at_work ref (run es idle).calls ≤ 1)
      × (at_work ref (step (enters i) (run es idle)).calls
          ≡ (if c.ref == ref then 1 else at_work ref (run es idle).calls))
account_lock_excludes es i c found waiting ref =
    let inv = run-Inv es idle idle-Inv in
    (at_work_bound (run es idle) ref inv, enters_lem (run es idle) i c ref inv found waiting)
