-- ===== src/State/Store/Atomic.antt =====
-- What the state file holds during an update (internal/state/store.go).
use cpa_codex_auto_reset.Prelude.{
  String, ◌≡◌, ◌⊎◌, inl, inr, refl, sym, ap, ◌∙◌, true, false, Option, none, some, [], All, map-All,
  arith, Bool-cases, Option-cases,
}
use cpa_codex_auto_reset.State.{State, schema_version}
use cpa_codex_auto_reset.State.Store.{
  Stage, Io, Disk, Loaded, loaded, unreadable, corrupt, Run, load, attempt, save_raw, change_loaded,
  change_disk, update, make_dir_again, create, chmod_temp, write_temp, sync_temp, close_temp,
  rename, chmod_target, sync_dir, make_dir, lock,
}

-- Every disk of the run, the last one first, has a target that satisfies `P`.
abbrev Throughout : (Option String → Type 0) → Run → Type 0
Throughout P r = P r.disk.target × All (λ d. P d.target) r.history

-- The text that a successful update writes for what the target holds.
abbrev pub Written : Io → (State → Option State) → Option String → Option String → Type 0
Written io change old new =
    (s : State) × (s' : State) × (raw : String) × (load io old ≡ loaded s)
    × (change s ≡ some s')
    × (io.encode (record s' { version = schema_version }) ≡ some raw)
    × (new ≡ some raw)

module _ (io : Io) (raw : String) (old : Option String) where
  abbrev OldOrNew : Option String → Type 0
  OldOrNew t = (t ≡ old) ⊎ (t ≡ some raw)

  -- The file has not been replaced yet.
  record Before (r : Run) : Type 0 where
    target : r.disk.target ≡ old
    history : All (λ d. OldOrNew d.target) r.history

  -- It may have been, and has been if all went well.
  record After (r : Run) : Type 0 where
    target : OldOrNew r.disk.target
    history : All (λ d. OldOrNew d.target) r.history
    finished : r.done ≡ true → r.disk.target ≡ some raw

  attempt-Before :
      (stage : Stage) (works cleans : Disk → Disk) (r : Run)
      → ((d : Disk) → (works d).target ≡ d.target)
      → ((d : Disk) → (cleans d).target ≡ d.target)
      → Before r
      → Before (attempt io stage works cleans r)
  unfolding attempt
  attempt-Before stage works cleans r w c b = elim (Bool-cases r.done) [
    | inr over ↦ rw over record { target = b.target; history = b.history }
    | inl going ↦ rw going record {
      target = elim (Bool-cases (io.fails stage)) [
        | inl fails ↦ rw fails (c r.disk ∙ b.target)
        | inr works' ↦ rw works' (w r.disk ∙ b.target)
      ];
      history = (inl b.target, b.history);
    }
  ]

  attempt-After : (stage : Stage) (r : Run) → After r → After (attempt io stage (λ d. d) (λ d. d) r)
  unfolding attempt
  attempt-After stage r a = elim (Bool-cases r.done) [
    | inr over ↦
        rw over record { target = a.target; history = a.history; finished = λ h. ground (arith, h) }
    | inl going ↦ rw going record {
      target = ground (arith, a.target);
      history = (a.target, a.history);
      finished = ground (arith, a.finished going);
    }
  ]

  rename-After :
      (r : Run)
      → Before r
      → (r.done ≡ true → r.disk.temp ≡ some raw)
      → After (
          attempt io rename
            (λ d. record { target = d.temp; temp = none })
            (λ d. record d { temp = none })
            r)
  unfolding attempt
  rename-After r b full = elim (Bool-cases r.done) [
    | inr over ↦ rw over record {
      target = inl b.target;
      history = b.history;
      finished = λ h. ground (arith, h, over);
    }
    | inl going ↦ rw going record {
      target = ground (arith, b.target, full going);
      history = (inl b.target, b.history);
      finished = λ h. ground (arith, h, full going);
    }
  ]

  -- Once written, the temporary file keeps its text until it is renamed.
  Filled : Run → Type 0
  Filled r = r.done ≡ true → r.disk.temp ≡ some raw

  attempt-Filled :
      (stage : Stage) (cleans : Disk → Disk) (r : Run)
      → Filled r
      → Filled (attempt io stage (λ d. d) cleans r)
  unfolding attempt Filled
  attempt-Filled stage cleans r f h = ground (arith, h, f)

  write-Filled :
      (r : Run)
      → Filled (
          attempt io write_temp
            (λ d. record d { temp = some raw })
            (λ d. record d { temp = none })
            r)
  unfolding attempt Filled
  write-Filled r h = ground (arith, h)

  save_raw-After : (r : Run) → Before r → After (save_raw io raw r)
  unfolding save_raw Filled
  save_raw-After r b = attempt-After sync_dir _ (
      attempt-After chmod_target _ (
        rename-After _
          (attempt-Before close_temp _ _ _ kept kept (
            attempt-Before sync_temp _ _ _ kept kept (
              attempt-Before write_temp _ _ _ kept kept (
                attempt-Before chmod_temp _ _ _ kept kept (
                  attempt-Before create _ _ _ kept kept
                    (attempt-Before make_dir_again _ _ r kept kept b))))))
          (attempt-Filled close_temp _ _ (attempt-Filled sync_temp _ _ (write-Filled _)))))
    where
      kept : (d : Disk) → d.target ≡ d.target
      kept d = refl

module _ (io : Io) (old : Option String) where
  -- Nothing has happened to the file so far.
  record Untouched (r : Run) : Type 0 where
    target : r.disk.target ≡ old
    history : All (λ d. d.target ≡ old) r.history

  attempt-Untouched :
      (stage : Stage) (r : Run) → Untouched r → Untouched (attempt io stage (λ d. d) (λ d. d) r)
  unfolding attempt
  attempt-Untouched stage r u = elim (Bool-cases r.done) [
    | inr over ↦ rw over record { target = u.target; history = u.history }
    | inl going ↦
        rw going record { target = ground (arith, u.target); history = (u.target, u.history) }
  ]

  module _ (change : State → Option State) where
    abbrev Outcome : Option String → Type 0
    Outcome t = (t ≡ old) ⊎ Written io change old t

    abbrev Atomic : Run → Type 0
    Atomic r = Throughout Outcome r × (r.done ≡ true → Written io change old r.disk.target)

    Untouched-Atomic : (r : Run) → Untouched r → r.done ≡ false → Atomic r
    Untouched-Atomic r u over =
        ((inl u.target, map-All (λ d e. inl e) r.history u.history), λ h. ground (arith, h, over))

    stopped-Atomic : (r : Run) → Untouched r → Atomic (record r { done = false })
    stopped-Atomic r u =
        Untouched-Atomic (record r { done = false })
          (record { target = u.target; history = u.history }) refl

    change_loaded-Atomic :
        (l : Loaded) (r : Run)
        → load io old ≡ l
        → Untouched r
        → Atomic (change_loaded io change l r)
    change_loaded-Atomic unreadable r e u = stopped-Atomic r u
    change_loaded-Atomic corrupt r e u = stopped-Atomic r u
    change_loaded-Atomic (loaded s) r e u = elim (Option-cases (change s)) [
      | inl refuses ↦ rw refuses (stopped-Atomic r u)
      | inr (s', changes) ↦
          elim (Option-cases (io.encode (record s' { version = schema_version }))) [
            | inl unencoded ↦ rw changes (rw unencoded (stopped-Atomic r u))
            | inr (raw, encoded) ↦
                let a = save_raw-After io raw old r (record {
                  target = u.target;
                  history = map-All (λ d e. inl e) r.history u.history;
                }) in
                let written : (t : Option String) → t ≡ some raw → Written io change old t =
                  λ t new. (s, s', raw, e, changes, encoded, new) in
                let outcome : (t : Option String) → OldOrNew io raw old t → Outcome t =
                  λ t o. elim o [ inl kept ↦ inl kept | inr new ↦ inr (written t new) ] in
                rw changes (
                  rw encoded (
                    (outcome _ a.target, map-All (λ d o. outcome d.target o) _ a.history),
                    λ h. written _ (a.finished h),
                  ))
          ]
    ]

    change_disk-Atomic : (r : Run) → Untouched r → Atomic (change_disk io change r)
    change_disk-Atomic r u = elim (Bool-cases r.done) [
      | inr over ↦ rw over (stopped-Atomic r u)
      | inl going ↦ rw going (
          change_loaded-Atomic (load io r.disk.target) (record r { done = true })
            (ap (load io) (sym u.target)) (record { target = u.target; history = u.history }))
    ]

-- At every moment of an update, and so after a crash at that moment, the state file holds what it
-- held before or the whole encoding of the changed state; it holds the latter if the update reports
-- success. A file that cannot be read or is corrupt is never overwritten.
pub update_atomic :
    (io : Io) (change : State → Option State) (d : Disk)
    → let r = update io change d in
      ((r.disk.target ≡ d.target) ⊎ Written io change d.target r.disk.target)
      × All (λ d'. (d'.target ≡ d.target) ⊎ Written io change d.target d'.target) r.history
      × (r.done ≡ true → Written io change d.target r.disk.target)
unfolding update
update_atomic io change d =
    let old = d.target in
    let start : Run = record { done = true; disk = d; history = [] } in
    let locked = attempt io lock (λ d. d) (λ d. d) (attempt io make_dir (λ d. d) (λ d. d) start) in
    let u : Untouched io old locked =
      attempt-Untouched io old lock _
        (attempt-Untouched io old make_dir start (record { target = refl; history = tt })) in
    let a = change_disk-Atomic io old change locked u in (a.0.0, a.0.1, a.1)
