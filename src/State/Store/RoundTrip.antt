-- ===== src/State/Store/RoundTrip.antt =====
-- Reading the state file that an update has written (internal/state/store.go: `Load`, `Update`).
use cpa_codex_auto_reset.Prelude.{
  String, ◌≡◌, ◌≤◌, ◌<◌, ◌*◌, ◌^◌, ap, ◌∙◌, refl, [], true, false, Option, some, arith, Bool-cases,
  inl, inr,
}
use cpa_codex_auto_reset.Prelude.Text.{byte_length}
use cpa_codex_auto_reset.State.{State, schema_version}
use cpa_codex_auto_reset.State.Store.{
  Io, Stage, Disk, Run, lock, make_dir, attempt, save_raw, change_disk, decoded, loaded, corrupt,
  read, load, update,
}
use cpa_codex_auto_reset.State.Store.Atomic.{Written, update_atomic}

load_written :
    (io : Io) (s : State) (target : Option String) (raw : String)
    → target ≡ some raw
    → io.fails read ≡ false
    → byte_length raw ≤ 8 * 2 ^ 20
    → io.decode raw ≡ decoded (record s { version = schema_version })
    → load io target ≡ loaded (record s { version = schema_version })
unfolding load
load_written io s target raw at reads fits decodes = rw at (ground (arith, reads, fits, decodes))

load_oversized :
    (io : Io) (target : Option String) (raw : String)
    → target ≡ some raw
    → io.fails read ≡ false
    → 8 * 2 ^ 20 < byte_length raw
    → load io target ≡ corrupt
unfolding load
load_oversized io target raw at reads large = rw at (ground (arith, reads, large))

-- After an update that reports success, a load that can read the file returns the state that the
-- closure made of the one before, with the current schema version, if its JSON decodes to what was
-- encoded and has at most 8 MiB. `later` is the operating system at the time of the load.
pub load-update :
    (io later : Io) (change : State → Option State) (d : Disk)
    → ((s : State) (raw : String) → io.encode s ≡ some raw → later.decode raw ≡ decoded s)
    → ((raw : String) → (update io change d).disk.target ≡ some raw → byte_length raw ≤ 8 * 2 ^ 20)
    → later.fails read ≡ false
    → (update io change d).done ≡ true
    → (s : State) × (s' : State) × (load io d.target ≡ loaded s)
      × (change s ≡ some s')
      × (load later (update io change d).disk.target
          ≡ loaded (record s' { version = schema_version }))
load-update io later change d decodes fits reads done =
    let (s, s', raw, was, changes, encodes, new) = (update_atomic io change d).2 done in
    let stored : State = record s' { version = schema_version } in
    (
      s,
      s',
      was,
      changes,
      load_written later s' _ raw new reads (fits raw new) (decodes stored raw encodes),
    )

not_written :
    (io : Io) (change : State → Option State) (old new : Option String)
    → load io old ≡ corrupt
    → ¬ Written io change old new
not_written io change old new bad (s, s', raw, was, _, _, _) = cc (bad, was)

module _ (io : Io) (works : (stage : Stage) → io.fails stage ≡ false) where
  attempt_done :
      (stage : Stage) (f g : Disk → Disk) (r : Run)
      → r.done ≡ true
      → (attempt io stage f g r).done ≡ true
  unfolding attempt
  attempt_done stage f g r done = ground (arith, done, works stage)

  attempt_disk :
      (stage : Stage) (f g : Disk → Disk) (r : Run)
      → r.done ≡ true
      → (attempt io stage f g r).disk ≡ f r.disk
  unfolding attempt
  attempt_disk stage f g r done = ground (arith, done, works stage)

  save_raw_done : (raw : String) (r : Run) → r.done ≡ true → (save_raw io raw r).done ≡ true
  unfolding save_raw
  save_raw_done raw r done = search (attempt_done, done) depth 12

  change_disk_done :
      (change : State → Option State) (s s' : State) (raw : String) (r : Run)
      → r.done ≡ true
      → load io r.disk.target ≡ loaded s
      → change s ≡ some s'
      → io.encode (record s' { version = schema_version }) ≡ some raw
      → (change_disk io change r).done ≡ true
  change_disk_done change s s' raw r done holds changes encodes =
      rw done
        (rw holds (rw changes (rw encodes (save_raw_done raw (record r { done = true }) refl))))

  -- An update of which no step fails reports success.
  update_done :
      (change : State → Option State) (d : Disk) (s s' : State) (raw : String)
      → load io d.target ≡ loaded s
      → change s ≡ some s'
      → io.encode (record s' { version = schema_version }) ≡ some raw
      → (update io change d).done ≡ true
  unfolding update
  update_done change d s s' raw holds changes encodes =
      let begun : Run = record { done = true; disk = d; history = [] } in
      let made = attempt_done make_dir _ _ begun refl in
      let same : (attempt io lock (λ x. x) (λ x. x)
            (attempt io make_dir (λ x. x) (λ x. x) begun)).disk
          ≡ d =
        attempt_disk lock _ _ _ made ∙ attempt_disk make_dir _ _ begun refl in
      change_disk_done change s s' raw _ (attempt_done lock _ _ _ made)
        (ap (λ x. load io x.target) same ∙ holds) changes encodes

-- An update whose new state has a JSON of more than 8 MiB reports success where no step fails; and
-- then a load that can read the file finds it corrupt, and every later update fails and leaves the
-- file as it is.
pub oversized_state_is_final :
    (io later : Io) (change next : State → Option State) (d : Disk) (s s' : State) (raw : String)
    → ((stage : Stage) → io.fails stage ≡ false)
    → load io d.target ≡ loaded s
    → change s ≡ some s'
    → io.encode (record s' { version = schema_version }) ≡ some raw
    → 8 * 2 ^ 20 < byte_length raw
    → later.fails read ≡ false
    → let d' = (update io change d).disk in
      ((update io change d).done ≡ true)
      × (load later d'.target ≡ corrupt)
      × ((update later next d').disk.target ≡ d'.target)
      × ((update later next d').done ≡ false)
oversized_state_is_final io later change next d s s' raw works holds changes encodes large reads =
    let done = update_done io works change d s s' raw holds changes encodes in
    let (t, t', raw', was, made, encoded, new) = (update_atomic io change d).2 done in
    let same : t ≡ s = cc (was, holds) in
    let same' : t' ≡ s' = cc (same, made, changes) in
    let same_raw : raw' ≡ raw =
      cc (ap (λ x. io.encode (record x { version = schema_version })) same', encoded, encodes) in
    let d' = (update io change d).disk in
    let bad = load_oversized later d'.target raw (new ∙ ap some same_raw) reads large in
    let a = update_atomic later next d' in
    (
      done,
      bad,
      elim a.0 [ inl kept ↦ kept | inr w ↦ absurd (not_written later next _ _ bad w) ],
      elim (Bool-cases (update later next d').done) [
        | inr failed ↦ failed
        | inl works ↦ absurd (not_written later next _ _ bad (a.2 works))
      ],
    )
