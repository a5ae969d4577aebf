-- ===== src/Backup/Recovery.antt =====
-- Recovery after a crash, and the suffix of a second backup on one day.
use klams.Common.{
  ℕ, zero, suc, ◌+◌, ◌≤◌, ◌<◌, ◌≡◌, ◌≢◌, refl, sym, ap, ◌∙◌, ◌↔◌, inl, inr, Bool, true, false, not,
  ◌&&◌, Option, none, some, List, [], ◌∷◌, Text, arith, Bool-cases, filter_by, sum_by,
}
use klams.Backup.{
  Dir, Lockfile, written, torn, LockfileContents, LockIo, RecoverIo, acquire_lock, recovered,
  recover_stale_lock, is_partial, first_free, next_suffix_for_date, suffix,
}

committed_kept :
    (deletes : Text → Bool) (g : Text → ℕ) (files : List Text)
    → ((f : Text) → is_partial f ≡ true → g f ≡ 0)
    → sum_by g (filter_by (λ f. not (is_partial f && deletes f)) files) ≡ sum_by g files
committed_kept deletes g [] h = refl
committed_kept deletes g (f ∷ files) h =
    let i = committed_kept deletes g files h in
    elim (Bool-cases (is_partial f)) [
      | inl e ↦ elim (Bool-cases (deletes f)) [
        | inl d ↦ rw (e, d) (omega (arith, h f e, i))
        | inr d ↦ rw (e, d) (omega (arith, i))
      ]
      | inr e ↦ rw e (omega (arith, i))
    ]

-- Whatever recovery finds and whatever the file system answers, no committed file is lost: for every
-- weight of names that gives partial files none, the directory weighs the same.
pub recover_stale_lock-committed :
    (pid_is_alive : ℕ → Bool) (calls : RecoverIo) (dir : Dir) (g : Text → ℕ)
    → ((f : Text) → is_partial f ≡ true → g f ≡ 0)
    → sum_by g (recover_stale_lock pid_is_alive calls dir).0.files ≡ sum_by g dir.files
unfolding recover_stale_lock
recover_stale_lock-committed pid_is_alive calls dir g h = elim (Bool-cases calls.reads) [
  | inr e ↦ rw e refl
  | inl e ↦ rw e (go dir.lock)
]
  where
    go :
        (lock : Option Lockfile)
        → sum_by g (recovered pid_is_alive calls dir lock).0.files ≡ sum_by g dir.files
    go none = refl
    go (some torn) = refl
    go (some (written c)) = elim (Bool-cases (pid_is_alive c.pid)) [
      | inl alive ↦ rw alive refl
      | inr dead ↦ elim (Bool-cases calls.removes) [
        | inl r ↦ rw (dead, r) (committed_kept calls.deletes g dir.files h)
        | inr r ↦ rw (dead, r) (committed_kept calls.deletes g dir.files h)
      ]
    ]

-- What a file system answers that fails at no call.
abbrev pub fine : LockIo
fine = record {
  makes_dir = true;
  serializes = true;
  finds = true;
  write_fails = none;
  removes = true;
}

abbrev Dead : (ℕ → Bool) → Option Lockfile → Type 0
Dead pid_is_alive none = Unit
Dead pid_is_alive (some torn) = ⊥
Dead pid_is_alive (some (written c)) = pid_is_alive c.pid ≡ false

-- When the file system fails at no call on the lockfile, a new run gets the lock after recovery
-- exactly when there was none before, or one that parses and whose process is dead.
pub recover_stale_lock-acquire :
    (pid_is_alive : ℕ → Bool) (deletes : Text → Bool) (dir : Dir) (mine : LockfileContents)
    → let calls : RecoverIo = record { reads = true; deletes = deletes; removes = true } in
      ((acquire_lock fine (recover_stale_lock pid_is_alive calls dir).0 mine).1 ≡ none)
      ↔ Dead pid_is_alive dir.lock
unfolding recover_stale_lock acquire_lock
recover_stale_lock-acquire pid_is_alive deletes dir mine = go dir.lock
  where
    go :
        (lock : Option Lockfile)
        → let calls : RecoverIo = record { reads = true; deletes = deletes; removes = true } in
          let before : Dir = record dir { lock = lock } in
          ((acquire_lock fine (recover_stale_lock pid_is_alive calls before).0 mine).1 ≡ none)
          ↔ Dead pid_is_alive lock
    go none = ((λ h. tt), (λ h. refl))
    go (some torn) = ((λ h. cc), absurd)
    go (some (written c)) = elim (Bool-cases (pid_is_alive c.pid)) [
      | inl alive ↦ rw alive ((λ h. cc), (λ h. cc))
      | inr dead ↦ rw dead ((λ h. refl), (λ h. refl))
    ]

first_free-least :
    (taken : ℕ → Bool) (fuel n r : ℕ)
    → first_free taken fuel n ≡ some r
    → (taken r ≡ false) × ((m : ℕ) → n ≤ m → m < r → taken m ≡ true)
unfolding first_free
first_free-least taken zero n r h = cc
first_free-least taken (suc fuel) n r h = elim (Bool-cases (taken n)) [
  | inl e ↦
      let i = first_free-least taken fuel (suc n) r (rw e at h) in
      (
        i.0,
        (λ m low high. elim (Bool-cases (taken m)) [
          | inl t ↦ t
          | inr t ↦
              let differ : n ≢ m = λ q. let k = ap taken q in cc in
              i.1 m (ground (arith, differ)) high
        ]),
      )
  | inr e ↦
      let q : some n ≡ some r = rw e at h in
      let same : n ≡ r = cc in
      (ap taken (sym same) ∙ e, (λ m low high. absurd (omega (arith, same))))
]

first_free-total :
    (taken : ℕ → Bool) (fuel n m : ℕ)
    → taken m ≡ false
    → n ≤ m
    → m < n + fuel
    → (r : ℕ) × (first_free taken fuel n ≡ some r)
unfolding first_free
first_free-total taken zero n m t low high = absurd (omega arith)
first_free-total taken (suc fuel) n m t low high = elim (Bool-cases (taken n)) [
  | inl e ↦
      let differ : n ≢ m = λ q. let k = ap taken q in cc in
      let i = first_free-total taken fuel (suc n) m t (ground (arith, differ)) (omega arith) in
      (i.0, rw e i.1)
  | inr e ↦ (n, rw e)
]

-- When the plain name is taken and some suffix below 2^32 - 1 is free, `Suffix` finds a suffix: the
-- least free one from 1 on.
pub next_suffix_for_date-least :
    (taken : ℕ → Bool) (m : ℕ)
    → taken m ≡ false
    → 1 ≤ m
    → m < 4294967295
    → (r : ℕ) × (next_suffix_for_date suffix true taken ≡ some r)
      × (taken r ≡ false)
      × ((k : ℕ) → 1 ≤ k → k < r → taken k ≡ true)
next_suffix_for_date-least taken m t low high =
    let f = first_free-total taken 4294967294 1 m t low (omega arith) in
    let l = first_free-least taken 4294967294 1 f.0 f.1 in
    (f.0, unfold next_suffix_for_date in f.1, l.0, l.1)
