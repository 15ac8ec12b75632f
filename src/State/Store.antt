-- ===== src/State/Store.antt =====
-- The state file (internal/state/store.go: `Load`, `Update`, `loadUnlocked`, `saveUnlocked`,
-- `ensurePrivateDir`). JSON is read and written by arguments; each call of the operating system may
-- fail, as `Io` decides. A run records every disk that it passes through, which is what a crash at
-- that moment leaves behind.
pub mod Atomic
pub mod RoundTrip
use cpa_codex_auto_reset.Prelude.{
  ℕ, String, ◌==◌, Bool, true, false, not, ◌||◌, Option, none, some, List, [], ◌∷◌, eqb, ltb, ◌*◌,
  ◌^◌, if◌then◌else◌,
}
use cpa_codex_auto_reset.Prelude.Text.{byte_length}
use cpa_codex_auto_reset.State.{State, schema_version, new_state}

-- The calls of the operating system in `Update`.
pub data Stage : Type 0 where
  make_dir lock read make_dir_again create chmod_temp write_temp sync_temp close_temp rename
        chmod_target sync_dir :
      Stage

-- What `decoder.Decode` and `ensureJSONEOF` find.
pub data Decoded : Type 0 where
  bad_json trailing_data : Decoded
  decoded : State → Decoded

pub record Io : Type 0 where
  pub fails : Stage → Bool
  pub decode : String → Decoded
  pub encode : State → Option String

-- `target` is state.json, `temp` the temporary file beside it.
pub record Disk : Type 0 where
  pub target : Option String
  pub temp : Option String

pub data Loaded : Type 0 where
  loaded : State → Loaded
  unreadable corrupt : Loaded

-- `history` has the latest disk first; `done` is whether there has been no error.
pub record Run : Type 0 where
  pub done : Bool
  pub disk : Disk
  pub history : List Disk

abbrev pub max_state_size : ℕ
max_state_size = 8 * 2 ^ 20

module _ (io : Io) where
  abbrev check_schema : Decoded → Loaded
  check_schema bad_json = corrupt
  check_schema trailing_data = corrupt
  check_schema (decoded s) = if not (eqb s.version schema_version) then corrupt else loaded s

  -- `loadUnlocked`
  unfoldable pub load : Option String → Loaded
  load target = if io.fails read then unreadable else elim target [
    | none ↦ loaded new_state
    | some raw ↦
        if ltb max_state_size (byte_length raw) then corrupt else check_schema (io.decode raw)
  ]

  -- One call that may fail, with what it does and what the code does when it fails.
  unfoldable pub attempt : Stage → (Disk → Disk) → (Disk → Disk) → Run → Run
  attempt stage works cleans r = if not r.done then r else record {
    done = not (io.fails stage);
    disk = if io.fails stage then cleans r.disk else works r.disk;
    history = r.disk ∷ r.history;
  }

  abbrev same : Disk → Disk
  same d = d

  abbrev remove_temp : Disk → Disk
  remove_temp d = record d { temp = none }

  abbrev put_temp : String → Disk → Disk
  put_temp raw d = record d { temp = some raw }

  abbrev move_temp : Disk → Disk
  move_temp d = record { target = d.temp; temp = none }

  -- `saveUnlocked` once the state is encoded
  unfoldable pub save_raw : String → Run → Run
  save_raw raw r = attempt sync_dir same same (
      attempt chmod_target same same (
        attempt rename move_temp remove_temp (
          attempt close_temp same remove_temp (
            attempt sync_temp same remove_temp (
              attempt write_temp (put_temp raw) remove_temp (
                attempt chmod_temp same remove_temp
                  (attempt create (put_temp "") same (attempt make_dir_again same same r))))))))

  abbrev stopped : Run → Run
  stopped r = record r { done = false }

  abbrev save_encoded : Option String → Run → Run
  save_encoded none r = stopped r
  save_encoded (some raw) r = save_raw raw r

  -- `saveUnlocked`
  abbrev pub save : State → Run → Run
  save s r = save_encoded (io.encode (record s { version = schema_version })) r

  abbrev save_changed : Option State → Run → Run
  save_changed none r = stopped r
  save_changed (some s) r = save s r

  abbrev pub change_loaded : (State → Option State) → Loaded → Run → Run
  change_loaded change unreadable r = stopped r
  change_loaded change corrupt r = stopped r
  change_loaded change (loaded s) r = save_changed (change s) r

  abbrev pub change_disk : (State → Option State) → Run → Run
  change_disk change r = if not r.done then r else change_loaded change (load r.disk.target) r

  -- `Update`, with the closure as a function on the state; none is its error.
  unfoldable pub update : (State → Option State) → Disk → Run
  update change d = change_disk change (
      attempt lock same same
        (attempt make_dir same same (record { done = true; disk = d; history = [] })))
