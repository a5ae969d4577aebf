-- ===== src/Backup.antt =====
-- crates/klams-service/src/backup (lifecycle.rs and `run_once` of mod.rs): one backup run, its
-- lockfile, and the recovery after a crash.
-- The directory is a value; dump, snapshot, prune, the clock, the process table and what the file
-- system answers to each call on the lockfile are arguments.
-- Hooks and metrics, which the run does not depend on, are left out.
pub mod Outcome
pub mod Recovery
mod Tests
use klams.Common.{
  ℕ, zero, suc, ◌+◌, ◌-◌, ◌/◌, Bool, true, false, not, ◌&&◌, Option, none, some, List, [], ◌∷◌,
  ◌++◌, Result, ok, err, if◌then◌else◌, all, is_some, filter_by, Text, codes, text_eq, length, drop,
}
use klams.Maintenance.{RunningSnapshot, MaintenanceState, mark_active, clear}

pub data ArtifactKind : Type 0 where
  postgres qdrant : ArtifactKind

pub record BackupArtifact : Type 0 where
  pub kind : ArtifactKind
  pub path : Text
  pub bytes : ℕ
  pub duration_ms : ℕ
  pub good : Bool
  pub error : Option Text

pub record BackupRun : Type 0 where
  pub run_id : Text
  pub started_at : ℕ
  pub ended_at : Option ℕ
  pub good : Option Bool
  pub artifacts : List BackupArtifact
  pub error : Option Text

-- `BackupRun::start`, with the id and the time that it draws.
pub begin : Text → ℕ → BackupRun
begin run_id now = record {
  run_id = run_id;
  started_at = now;
  ended_at = none;
  good = none;
  artifacts = [];
  error = none;
}

pub artifact_done : BackupRun → BackupArtifact → BackupRun
artifact_done run a = record run {
  error = if not a.good && not (is_some run.error) then a.error else run.error;
  artifacts = run.artifacts ++ a ∷ [];
}

pub finish_ok : ℕ → BackupRun → BackupRun
finish_ok now run = record run { ended_at = some now; good = some (not (is_some run.error)) }

pub finish_err : ℕ → Text → BackupRun → BackupRun
finish_err now msg run = record run {
  error = if is_some run.error then run.error else some msg;
  ended_at = some now;
  good = some false;
}

abbrev elapsed : Option ℕ → ℕ → Option ℕ
elapsed none began = none
elapsed (some e) began = some ((e - began) / 1000000)

-- Instants are nanoseconds, and an end before the start is no time.
pub duration_ms : BackupRun → Option ℕ
duration_ms run = elapsed run.ended_at run.started_at

pub record LockfileContents : Type 0 where
  pub pid : ℕ
  pub run_id : Text
  pub started_at : ℕ

-- A lockfile as it stands on disk; a write that fails can leave one that does not parse.
pub data Lockfile : Type 0 where
  written : LockfileContents → Lockfile
  torn : Lockfile

-- The backup directory: the lockfile, and the names of the other files.
pub record Dir : Type 0 where
  pub lock : Option Lockfile
  pub files : List Text

pub data LockfileError : Type 0 where
  already_locked io serialize parse : LockfileError

-- What the file system answers to the calls of a run on its lockfile.
pub record LockIo : Type 0 where
  -- `create_dir_all` and `to_vec_pretty` succeed
  pub makes_dir : Bool
  pub serializes : Bool
  -- `metadata` finds a lockfile that is there
  pub finds : Bool
  -- none if `write` succeeds, and else the lockfile that it leaves
  pub write_fails : Option (Option Lockfile)
  -- `remove_file` succeeds, or finds none
  pub removes : Bool

abbrev pub lock_written :
    Dir → LockfileContents → Option (Option Lockfile) → Dir × Option LockfileError
lock_written dir contents none = (record dir { lock = some (written contents) }, none)
lock_written dir contents (some left) = (record dir { lock = left }, some io)

-- The directory after, and the error if there is one.
pub acquire_lock : LockIo → Dir → LockfileContents → Dir × Option LockfileError
acquire_lock calls dir contents =
    if not calls.makes_dir
    then (dir, some io)
    else if calls.finds && is_some dir.lock
    then (dir, some already_locked)
    else if not calls.serializes
    then (dir, some serialize)
    else lock_written dir contents calls.write_fails

pub release_lock : LockIo → Dir → Dir × Option LockfileError
release_lock calls dir =
    if calls.removes then (record dir { lock = none }, none) else (dir, some io)

-- `name.ends_with(".partial")`
abbrev pub is_partial : Text → Bool
is_partial name = text_eq (drop (length name - 8) name) (codes ".partial")

-- What the file system answers to a recovery.
pub record RecoverIo : Type 0 where
  -- `read` succeeds, or finds no lockfile
  pub reads : Bool
  -- the file is listed, and its removal succeeds
  pub deletes : Text → Bool
  -- the removal of the lockfile succeeds
  pub removes : Bool

abbrev pub swept : RecoverIo → Dir → Dir
swept calls dir = record dir {
  files = filter_by (λ f. not (is_partial f && calls.deletes f)) dir.files;
}

abbrev pub recovered :
    (ℕ → Bool)
    → RecoverIo
    → Dir
    → Option Lockfile
    → Dir × Result LockfileError (Option LockfileContents)
recovered pid_is_alive calls dir none = (dir, ok none)
recovered pid_is_alive calls dir (some torn) = (dir, err parse)
recovered pid_is_alive calls dir (some (written contents)) =
    if pid_is_alive contents.pid
    then (dir, ok none)
    else if calls.removes
    then (record (swept calls dir) { lock = none }, ok (some contents))
    else (swept calls dir, err io)

pub recover_stale_lock :
    (ℕ → Bool) → RecoverIo → Dir → Dir × Result LockfileError (Option LockfileContents)
recover_stale_lock pid_is_alive calls dir =
    if calls.reads then recovered pid_is_alive calls dir dir.lock else (dir, err io)

-- `dump` or `snapshot`: what it leaves of the directory, and the path, bytes and time of the
-- committed artifact, or the error's text.
abbrev pub Capture : Type 0
Capture = Dir → Dir × Result Text (Text × ℕ × ℕ)

pub record_artifact : BackupRun → ArtifactKind → Result Text (Text × ℕ × ℕ) → BackupRun
unfolding artifact_done
record_artifact run kind (ok (path, bytes, ms)) = artifact_done run (record {
  kind = kind;
  path = path;
  bytes = bytes;
  duration_ms = ms;
  good = true;
  error = none;
})
record_artifact run kind (err msg) =
    artifact_done run (record {
      kind = kind;
      path = [];
      bytes = 0;
      duration_ms = 0;
      good = false;
      error = some msg;
    })

pub record Deps : Type 0 where
  pub dump : Capture
  pub snapshot : Capture
  pub prune : Dir → Dir
  -- The text of the error that wraps a run's first failure.
  pub wrapped : Option Text → Text

-- What `run_once` shares with the rest of the service.
pub record World : Type 0 where
  pub dir : Dir
  pub state : MaintenanceState

-- `run_once_inner`: the directory, the run, and the error if there is one.
pub run_once_inner : Deps → Dir → BackupRun → Dir × BackupRun × Option Text
unfolding record_artifact
run_once_inner deps dir run =
    let pg = deps.dump dir in
    let run1 = record_artifact run postgres pg.1 in
    let q = deps.snapshot pg.0 in
    let run2 = record_artifact run1 qdrant q.1 in
    if all (λ a. a.good) run2.artifacts
    then (deps.prune q.0, run2, none)
    else (q.0, run2, some (deps.wrapped run2.error))

abbrev pub finish : ℕ → Option Text → BackupRun → BackupRun
finish now none run = finish_ok now run
finish now (some msg) run = finish_err now msg run

abbrev pub ran :
    Deps
    → LockIo
    → World
    → BackupRun
    → ℕ
    → Dir × Option LockfileError
    → World × Result LockfileError BackupRun
ran deps calls w run now (dir, some e) = (record w { dir = dir }, err e)
ran deps calls w run now (dir, none) =
    let st =
      mark_active w.state
        (record { run_id = run.run_id; started_at = run.started_at; expected_end_at = none }) in
    let r = run_once_inner deps dir run in
    (record { dir = (release_lock calls r.0).0; state = clear st }, ok (finish now r.2 r.1))

-- `run_once`, with the process, the run's id and the two times that it reads. A lockfile that cannot
-- be removed is only logged.
pub run_once :
    Deps
    → LockIo
    → World
    → (pid : ℕ) → (run_id : Text) → (began ended : ℕ) → World × Result LockfileError BackupRun
unfolding begin acquire_lock release_lock run_once_inner finish_ok finish_err mark_active clear
run_once deps calls w pid run_id began ended =
    ran deps calls w (begin run_id began) ended
      (acquire_lock calls w.dir (record { pid = pid; run_id = run_id; started_at = began }))

-- The loop of `next_suffix_for_date`, from a suffix on; `taken` says whether its name exists.
pub first_free : (ℕ → Bool) → (fuel n : ℕ) → Option ℕ
first_free taken zero n = none
first_free taken (suc fuel) n =
    let rest = first_free taken fuel (suc n) in if taken n then rest else some n

pub data SameDayStrategy : Type 0 where
  overwrite suffix : SameDayStrategy

-- The range is `1..u32::MAX`.
pub next_suffix_for_date : SameDayStrategy → (base_taken : Bool) → (ℕ → Bool) → Option ℕ
unfolding first_free
next_suffix_for_date overwrite base taken = none
next_suffix_for_date suffix base taken =
    let found = first_free taken 4294967294 1 in if base then found else none
