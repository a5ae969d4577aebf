-- ===== src/Backup/Outcome.antt =====
-- What a run leaves behind, whatever the file system, dump, snapshot and prune do.
use klams.Common.{
  ℕ, ◌≡◌, refl, sym, subst, ap, ◌∙◌, inl, inr, Bool, true, false, Option, none, some, Result, ok,
  err, Text, if◌then◌else◌, Bool-cases, all, ◌&&◌, is_some, arith,
}
use klams.Maintenance.{clear}
use klams.Backup.{
  BackupRun, Dir, Lockfile, written, LockfileContents, LockfileError, already_locked, LockIo,
  lock_written, acquire_lock, Deps, World, record_artifact, finish_ok, finish_err, release_lock,
  run_once_inner, run_once, ran, finish, postgres, qdrant, begin,
}

abbrev pub succeeded : Result Text (Text × ℕ × ℕ) → Bool
succeeded (ok a) = true
succeeded (err e) = false

abbrev pub failure : Result Text (Text × ℕ × ℕ) → Option Text
failure (ok a) = none
failure (err e) = some e

abbrev pub or_else : Option Text → Option Text → Option Text
or_else none b = b
or_else (some a) b = some a

-- What the two captures come to, one after the other, from a directory on.
abbrev pub both : Deps → Dir → Result Text (Text × ℕ × ℕ) × Result Text (Text × ℕ × ℕ)
both deps dir = ((deps.dump dir).1, (deps.snapshot (deps.dump dir).0).1)

abbrev pub both_ok : Result Text (Text × ℕ × ℕ) → Result Text (Text × ℕ × ℕ) → Bool
both_ok a b = if succeeded a then succeeded b else false

module _ (run_id : Text) (began : ℕ) where
  abbrev pub recorded : Result Text (Text × ℕ × ℕ) → Result Text (Text × ℕ × ℕ) → BackupRun
  recorded a b = record_artifact (record_artifact (begin run_id began) postgres a) qdrant b

  recorded_good :
      (a b : Result Text (Text × ℕ × ℕ)) → all (λ x. x.good) (recorded a b).artifacts ≡ both_ok a b
  unfolding record_artifact begin
  recorded_good (ok a) (ok b) = refl
  recorded_good (ok a) (err b) = refl
  recorded_good (err a) (ok b) = refl
  recorded_good (err a) (err b) = refl

  recorded_error :
      (a b : Result Text (Text × ℕ × ℕ)) → (recorded a b).error ≡ or_else (failure a) (failure b)
  unfolding record_artifact begin
  recorded_error (ok a) (ok b) = refl
  recorded_error (ok a) (err b) = refl
  recorded_error (err a) (ok b) = refl
  recorded_error (err a) (err b) = refl

  finished :
      (a b : Result Text (Text × ℕ × ℕ)) (ended : ℕ) (msg : Text)
      → let r = finish ended (if both_ok a b then none else some msg) (recorded a b) in
        (r.good ≡ some (both_ok a b)) × (r.error ≡ or_else (failure a) (failure b))
  unfolding record_artifact begin finish_ok finish_err
  finished (ok a) (ok b) ended msg = (refl, refl)
  finished (ok a) (err b) ended msg = (refl, refl)
  finished (err a) (ok b) ended msg = (refl, refl)
  finished (err a) (err b) ended msg = (refl, refl)

-- The run before the lockfile is removed, by the verdict on both captures.
inner_lem :
    (deps : Deps) (dir : Dir) (run_id : Text) (began : ℕ)
    → let a = (both deps dir).0 in
      let b = (both deps dir).1 in
      let left = (deps.snapshot (deps.dump dir).0).0 in
      let run = recorded run_id began a b in
      run_once_inner deps dir (begin run_id began) ≡ (
        if both_ok a b then deps.prune left else left,
        run,
        if both_ok a b then none else some (deps.wrapped run.error),
      )
unfolding run_once_inner
inner_lem deps dir run_id began =
    let g = recorded_good run_id began (both deps dir).0 (both deps dir).1 in
    elim (Bool-cases (both_ok (both deps dir).0 (both deps dir).1)) [
      | inl e ↦ rw (g, e)
      | inr e ↦ rw (g, e)
    ]

-- The run gets the lock: the directory is made, no lockfile is found, and one is written.
abbrev pub Got : LockIo → Dir → Type 0
Got calls dir =
    (calls.makes_dir ≡ true)
    × ((calls.finds && is_some dir.lock) ≡ false)
    × (calls.serializes ≡ true)
    × (calls.write_fails ≡ none)

-- The directory that the run leaves, but for the lockfile.
abbrev pub left_by : Deps → Dir → Dir
left_by deps mine =
    let left = (deps.snapshot (deps.dump mine).0).0 in
    if both_ok (both deps mine).0 (both deps mine).1 then deps.prune left else left

-- The lockfile gone, if it can be removed, the flag down, old artifacts pruned exactly when both
-- captures succeeded, the verdict and the first failure's text.
pub record Finished (deps : Deps) (calls : LockIo) (mine : Dir) (w' : World) (run : BackupRun)
    : Type 0 where
  pub unlocked : w'.dir.lock ≡ (if calls.removes then none else (left_by deps mine).lock)
  pub idle : (w'.state.active ≡ false) × (w'.state.inflight ≡ none)
  pub verdict : run.good ≡ some (both_ok (both deps mine).0 (both deps mine).1)
  pub first_error : run.error ≡ or_else (failure (both deps mine).0) (failure (both deps mine).1)
  pub pruned : w'.dir.files ≡ (left_by deps mine).files

-- Nothing changed but the lockfile, and not that if it is another's.
pub record Refused (calls : LockIo) (w w' : World) (e : LockfileError) : Type 0 where
  pub not_got : ¬ Got calls w.dir
  pub same_state : w'.state ≡ w.state
  pub same_files : w'.dir.files ≡ w.dir.files
  pub locked : e ≡ already_locked → (is_some w.dir.lock ≡ true) × (w'.dir ≡ w.dir)

abbrev pub Ended : Deps → LockIo → World → Dir → World × Result LockfileError BackupRun → Type 0
Ended deps calls w mine (w', ok run) = Got calls w.dir × Finished deps calls mine w' run
Ended deps calls w mine (w', err e) = Refused calls w w' e

abbrev locked_dir : Dir → LockfileContents → Dir
locked_dir dir contents = record dir { lock = some (written contents) }

-- What `acquire_lock` comes to.
abbrev Acquired : LockIo → World → LockfileContents → Dir × Option LockfileError → Type 0
Acquired calls w contents (d, none) = Got calls w.dir × (d ≡ locked_dir w.dir contents)
Acquired calls w contents (d, some e) = Refused calls w (record w { dir = d }) e

acquire_lock-Acquired :
    (calls : LockIo) (w : World) (contents : LockfileContents)
    → Acquired calls w contents (acquire_lock calls w.dir contents)
unfolding acquire_lock
acquire_lock-Acquired calls w contents = elim (Bool-cases calls.makes_dir) [
  | inr e ↦ rw e (record {
    not_got = λ g. let h = g.0 in cc;
    same_state = refl;
    same_files = refl;
    locked = λ h. cc;
  })
  | inl e ↦ elim (Bool-cases (calls.finds && is_some w.dir.lock)) [
    | inl l ↦
        rw (e, l)
          (record {
            not_got = λ g. let h = g.1 in cc;
            same_state = refl;
            same_files = refl;
            locked = λ h. (ground (arith, l), refl);
          })
    | inr l ↦ elim (Bool-cases calls.serializes) [
      | inr z ↦
          rw (e, l, z)
            (record {
              not_got = λ g. let h = g.2 in cc;
              same_state = refl;
              same_files = refl;
              locked = λ h. cc;
            })
      | inl z ↦
          let whole : acquire_lock calls w.dir contents
              ≡ lock_written w.dir contents calls.write_fails =
            unfold acquire_lock in rw (e, l, z) refl in
          subst (Acquired calls w contents) (sym whole) (by_write calls.write_fails refl e l z)
    ]
  ]
]
  where
    by_write :
        (o : Option (Option Lockfile))
        → calls.write_fails ≡ o
        → calls.makes_dir ≡ true
        → (calls.finds && is_some w.dir.lock) ≡ false
        → calls.serializes ≡ true
        → Acquired calls w contents (lock_written w.dir contents o)
    by_write none k e l z = ((e, l, z, k), refl)
    by_write (some left) k e l z = record {
      not_got = λ g. let h = g.3 in cc;
      same_state = refl;
      same_files = refl;
      locked = λ h. cc;
    }

ran-Finished :
    (deps : Deps) (calls : LockIo) (w : World) (mine : Dir) (run_id : Text) (began ended : ℕ)
    → Finished deps calls mine
        (record {
          dir = (release_lock calls (run_once_inner deps mine (begin run_id began)).0).0;
          state = clear w.state;
        })
        (finish ended
          (run_once_inner deps mine (begin run_id began)).2
          (run_once_inner deps mine (begin run_id began)).1)
unfolding release_lock clear
ran-Finished deps calls w mine run_id began ended =
    let a = (both deps mine).0 in
    let b = (both deps mine).1 in
    let l = inner_lem deps mine run_id began in
    let f = finished run_id began a b ended (deps.wrapped (recorded run_id began a b).error) in
    record {
      unlocked =
          released (run_once_inner deps mine (begin run_id began)).0
          ∙ ap (λ x. if calls.removes then none else x.0.lock) l;
      idle = (refl, refl);
      verdict = ap (λ x. (finish ended x.2 x.1).good) l ∙ f.0;
      first_error = ap (λ x. (finish ended x.2 x.1).error) l ∙ f.1;
      pruned = kept (run_once_inner deps mine (begin run_id began)).0 ∙ ap (λ x. x.0.files) l;
    }
  where
    released :
        (dir : Dir) → (release_lock calls dir).0.lock ≡ (if calls.removes then none else dir.lock)
    released dir = elim (Bool-cases calls.removes) [ inl e ↦ rw e refl | inr e ↦ rw e refl ]

    kept : (dir : Dir) → (release_lock calls dir).0.files ≡ dir.files
    kept dir = elim (Bool-cases calls.removes) [ inl e ↦ rw e refl | inr e ↦ rw e refl ]

-- However the file system answers and whatever dump, snapshot and prune do: a run ends with a record
-- exactly when the directory is made, no lockfile is found and the lock is written. Then the
-- maintenance flag is down; the lockfile is gone, unless its removal fails, and is then as the run
-- left it; old artifacts are pruned exactly when both captures succeeded; then the run is good and
-- has no error, and else it is not good and has the text of the first failure. And a run that ends
-- with an error leaves the flag and every other file as they were, and the directory whole if the
-- error is that a lockfile is there.
pub run_once-Finished :
    (deps : Deps) (calls : LockIo) (w : World) (pid : ℕ) (run_id : Text) (began ended : ℕ)
    → Ended deps calls w
        (record w.dir {
          lock = some (written (record { pid = pid; run_id = run_id; started_at = began }));
        })
        (run_once deps calls w pid run_id began ended)
unfolding run_once
run_once-Finished deps calls w pid run_id began ended =
    let contents : LockfileContents = record { pid = pid; run_id = run_id; started_at = began } in
    by_lock (acquire_lock calls w.dir contents) (acquire_lock-Acquired calls w contents)
  where
    by_lock :
        (a : Dir × Option LockfileError)
        → Acquired calls w (record { pid = pid; run_id = run_id; started_at = began }) a
        → Ended deps calls w
            (record w.dir {
              lock = some (written (record { pid = pid; run_id = run_id; started_at = began }));
            })
            (ran deps calls w (begin run_id began) ended a)
    by_lock (d, some e) h = h
    by_lock (d, none) h = rw h.1 (h.0, ran-Finished deps calls w _ run_id began ended)
