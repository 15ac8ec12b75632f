-- ===== src/Reset/Persistence.antt =====
-- The engine's view of an update (`saved`) beside what the store does (internal/state/store.go).
use cpa_codex_auto_reset.Prelude.{
  String, ◌≡◌, inl, inr, refl, ap, ◌∙◌, sym, false, ◌≤◌, ◌*◌, ◌^◌, Option, some, arith, Bool-cases,
}
use cpa_codex_auto_reset.Prelude.Text.{byte_length}
use cpa_codex_auto_reset.State.{State, schema_version}
use cpa_codex_auto_reset.State.Store.{Io, Disk, loaded, decoded, load, read, update}
use cpa_codex_auto_reset.State.Store.Atomic.{Written, update_atomic}
use cpa_codex_auto_reset.Reset.Exec.{Fault, no_fault, before_rename, after_rename, saved}

-- What the store needs of JSON and of the disk: what is written can be read.
pub record ReadsBack (io : Io) : Type 0 where
  pub readable : io.fails read ≡ false
  pub round_trip : (s : State) (raw : String) → io.encode s ≡ some raw → io.decode raw ≡ decoded s

module _ (io : Io) (back : ReadsBack io) (change : State → Option State) (s : State) where
  -- The JSON of the state that is stored has at most 8 MiB.
  abbrev pub Fits : State → Type 0
  Fits s' =
      (raw : String)
      → io.encode (record s' { version = schema_version }) ≡ some raw
      → byte_length raw ≤ 8 * 2 ^ 20

  load-Written :
      (old new : Option String) (s' : State)
      → load io old ≡ loaded s
      → change s ≡ some s'
      → s'.version ≡ schema_version
      → Fits s'
      → Written io change old new
      → load io new ≡ loaded s'
  unfolding load
  load-Written old new s' l c v fits (t, t', raw, lt, ct, encoded, e) =
      let u = record t' { version = schema_version } in
      let same_state : t ≡ s = cc (lt, l) in
      let same_new : t' ≡ s' = cc (ct, c, same_state) in
      rw e (
        ground (
          arith,
          back.readable,
          fits raw (
              ap (λ x. io.encode (record x { version = schema_version })) (sym same_new) ∙ encoded),
          back.round_trip u raw encoded,
          same_new,
          v,
        ))

  -- Where the state file holds `s`, JSON reads back what it has written, and the JSON of the changed
  -- state has at most 8 MiB, an update ends as the
  -- engine's model has it, for one of the three faults: it reports success and the file holds the
  -- changed state, or it reports an error and the file holds the one or the other.
  pub update_refines_saved :
      (d : Disk) (s' : State)
      → load io d.target ≡ loaded s
      → change s ≡ some s'
      → s'.version ≡ schema_version
      → Fits s'
      → let r = update io change d in
        (fault : Fault) × (state : State) × (saved fault s (some s') ≡ (r.done, state))
        × (load io r.disk.target ≡ loaded state)
  update_refines_saved d s' l c v fits =
      let r = update io change d in
      let a = update_atomic io change d in
      elim (Bool-cases r.done) [
        | inl done ↦ (
          no_fault,
          s',
          rw done refl,
          load-Written d.target r.disk.target s' l c v fits (a.2 done),
        )
        | inr failed ↦ elim a.0 [
          | inl kept ↦ (before_rename, s, rw failed refl, ap (load io) kept ∙ l)
          | inr written ↦ (
            after_rename,
            s',
            rw failed refl,
            load-Written d.target r.disk.target s' l c v fits written,
          )
        ]
      ]
