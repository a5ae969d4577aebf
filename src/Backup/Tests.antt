-- ===== src/Backup/Tests.antt =====
-- Runs of the backup code, and the theorems of this folder at concrete inputs.
use klams.Common.{◌≡◌, refl, false, none, some, [], ◌∷◌, ok, err, codes}
use klams.Maintenance.{new_state}
use klams.Backup.{
  BackupRun, written, torn, io, LockIo, LockfileContents, acquire_lock, release_lock, Deps, World,
  run_once, run_once_inner, record_artifact, artifact_done, begin, finish_err, duration_ms,
}
use klams.Backup.Outcome.{Ended, run_once-Finished}
use klams.Backup.Recovery.{fine}

-- The dump is written; the snapshot fails.
abbrev deps : Deps
deps = record {
  dump = λ dir. (record dir { files = codes "pg" ∷ dir.files }, ok (codes "pg", 10, 5));
  snapshot = λ dir. (dir, err (codes "refused"));
  prune = λ dir. record dir { files = [] };
  wrapped = λ e. codes "failed";
}

abbrev idle : World
idle = record { dir = record { lock = none; files = codes "old" ∷ [] }; state = new_state }

-- The write of the lockfile fails, and leaves a part of it.
abbrev full_disk : LockIo
full_disk = record fine { write_fails = some (some torn) }

not_pruned :
    (run_once deps fine idle 7 (codes "r1") 0 3000000).0.dir.files ≡ codes "pg" ∷ codes "old" ∷ []
unfolding run_once acquire_lock release_lock run_once_inner record_artifact artifact_done begin
    finish_err
not_pruned = refl

abbrev dead_run : BackupRun
dead_run = finish_err 3000000 (codes "x") (begin (codes "r1") 0)

timed : duration_ms dead_run ≡ some 3
unfolding duration_ms finish_err begin
timed = refl

abbrev mine : LockfileContents
mine = record { pid = 7; run_id = codes "r1"; started_at = 0 }

run_once-Finished_example :
    Ended deps fine idle
      (record idle.dir { lock = some (written mine) })
      (run_once deps fine idle 7 (codes "r1") 0 3000000)
run_once-Finished_example = run_once-Finished deps fine idle 7 (codes "r1") 0 3000000

unwritten :
    run_once deps full_disk idle 7 (codes "r1") 0 3000000
    ≡ (record idle { dir = record idle.dir { lock = some torn } }, err io)
unfolding run_once acquire_lock
unwritten = refl

-- The lockfile of a run that cannot remove it is found by the next.
left_over :
    (run_once deps (record fine { removes = false }) idle 7 (codes "r1") 0 3000000).0.dir.lock
    ≡ some (written mine)
unfolding run_once acquire_lock release_lock run_once_inner record_artifact artifact_done begin
    finish_err
left_over = refl
