-- ===== src/Worker/Jobs.antt =====
-- No accepted job is lost or ended twice, in whatever order producers and workers take their steps.
use klams.Common.{
  ℕ, ◌+◌, ◌≤◌, max, ◌≡◌, refl, ap, sym, ◌∙◌, inl, inr, Option, none, some, List, [], ◌∷◌, arith,
  length, sum_by, sum_by-append, All, Option-cases, Result, ok, err,
}
use klams.Facts.{StoreError}
use klams.Worker.{
  Wire, Store, MemoryWrite, upsert_fact, append_event, index_knowledge, WriteJob, WriteReply, fact,
  event, knowledge, WriteKind, of_fact, of_event, of_knowledge, Done, failure_reason, Ending,
  replied, dropped, unheard, without_reply, answer, dispatch, process, Channel, IsBounded,
  MemoryQueue, new_queue, depth, try_enqueue, enqueued, Service, Step, taken_in, refused, picked_up,
  ended, Reachable, started, step,
}

abbrev pub kind_of : (w : Wire) → MemoryWrite w → WriteKind
kind_of w (upsert_fact req) = of_fact
kind_of w (append_event req) = of_event
kind_of w (index_knowledge req) = of_knowledge

abbrev pub error_in : {A : Type 0} → Result StoreError A → Option StoreError
error_in (ok a) = none
error_in (err e) = some e

module _ (w : Wire) (s : Store w) where
  -- What the store's method for a write returns, the error in it, and the store after it.
  abbrev pub result_of : MemoryWrite w → s.State → WriteReply w
  result_of (upsert_fact req) st = fact (s.upsert_fact_v2 st req).0
  result_of (append_event req) st = event (s.append_event st req).0
  result_of (index_knowledge req) st = knowledge (s.index_knowledge st req).0

  abbrev pub error_of : MemoryWrite w → s.State → Option StoreError
  error_of (upsert_fact req) st = error_in (s.upsert_fact_v2 st req).0
  error_of (append_event req) st = error_in (s.append_event st req).0
  error_of (index_knowledge req) st = error_in (s.index_knowledge st req).0

  abbrev pub stored : MemoryWrite w → s.State → s.State
  stored (upsert_fact req) st = (s.upsert_fact_v2 st req).1
  stored (append_event req) st = (s.append_event st req).1
  stored (index_knowledge req) st = (s.index_knowledge st req).1

-- A reply channel gets the method's result. Without one the job ends unheard exactly when the method
-- succeeds, and an error is counted as a drop of the write's kind, for the error's reason.
abbrev pub Fits :
    (w : Wire) → Option ℕ → WriteKind → WriteReply w → Option StoreError → Ending w → Type 0
Fits w (some tx) k r e (replied t answered) = (t ≡ tx) × (answered ≡ r)
Fits w (some tx) k r e (dropped d why) = ⊥
Fits w (some tx) k r e unheard = ⊥
Fits w none k r e (replied t answered) = ⊥
Fits w none k r none (dropped d why) = ⊥
Fits w none k r (some e) (dropped d why) = (d ≡ k) × (why ≡ failure_reason e)
Fits w none k r none unheard = Unit
Fits w none k r (some e) unheard = ⊥

answer-Fits :
    {A : Type 0} (w : Wire) (reply : Option ℕ) (wrap : Result StoreError A → WriteReply w)
    (k : WriteKind) (r : Result StoreError A)
    → Fits w reply k (wrap r) (error_in r) (answer w reply wrap k r)
unfolding without_reply
answer-Fits w none wrap k (ok a) = tt
answer-Fits w none wrap k (err e) = (refl, refl)
answer-Fits w (some tx) wrap k r = (refl, refl)

-- What a job that ended must have come to.
abbrev pub Fitting : (w : Wire) (s : Store w) → WriteJob w → s.State → Ending w → Type 0
Fitting w s job st =
    Fits w job.reply (kind_of w job.write) (result_of w s job.write st) (error_of w s job.write st)

process-Fitting :
    (w : Wire) (s : Store w) (job : WriteJob w) (st : s.State)
    → Fitting w s job st (process w s job st).0 × ((process w s job st).1 ≡ stored w s job.write st)
unfolding process
process-Fitting w s job st = by_kind job.write
  where
    by_kind :
        (m : MemoryWrite w)
        → Fits w job.reply
            (kind_of w m)
            (result_of w s m st)
            (error_of w s m st)
            (dispatch w s m job.reply st).0
          × ((dispatch w s m job.reply st).1 ≡ stored w s m st)
    by_kind (upsert_fact req) =
        (answer-Fits w job.reply fact of_fact (s.upsert_fact_v2 st req).0, refl)
    by_kind (append_event req) =
        (answer-Fits w job.reply event of_event (s.append_event st req).0, refl)
    by_kind (index_knowledge req) =
        (answer-Fits w job.reply knowledge of_knowledge (s.index_knowledge st req).0, refl)

-- The store is what the jobs in the log, the newest first, made of the first one in turn.
abbrev pub Traced :
    (w : Wire) (c : Channel (WriteJob w)) (s : Store w)
    → s.State
    → List (Done w c s)
    → s.State
    → Type 0
Traced w c s first [] st = st ≡ first
Traced w c s first (d ∷ log) st =
    (st ≡ stored w s d.job.write d.found) × Traced w c s first log d.found

module _ (w : Wire) (c : Channel (WriteJob w)) (b : IsBounded (WriteJob w) c) (s : Store w)
    (capacity : ℕ) (st : s.State) where
  -- What holds of every state that is reached.
  pub record Kept (v : Service w c s) : Type 0 where
    -- Whatever is counted of jobs, the accepted ones are those in the queue, in flight and ended.
    pub conserved :
        (f : WriteJob w → ℕ)
        → sum_by f v.accepted
          ≡ sum_by f (b.contents v.queue.sender)
            + (sum_by f v.in_flight + sum_by (λ (d : Done w c s). f d.job) v.log)
    pub sized : b.size v.queue.sender ≡ max capacity 1
    pub same_capacity : v.queue.capacity ≡ max capacity 1
    -- Each job that ended came to what the store's method returned on the store that it found, and
    -- the stores that they found are those that the jobs before them left.
    pub fitting : All (λ (d : Done w c s). Fitting w s d.job d.found d.ending) v.log
    pub traced : Traced w c s st v.log v.store

  started-Kept : Kept (record {
    queue = new_queue w c capacity;
    in_flight = [];
    store = st;
    log = [];
    accepted = [];
  })
  unfolding new_queue
  started-Kept = record {
    conserved =
        λ f. let e = ap (sum_by f) (b.channel-contents (max capacity 1)) in omega (arith, e);
    sized = b.channel-size (max capacity 1);
    same_capacity = refl;
    fitting = tt;
    traced = refl;
  }

  try_enqueue-sent :
      (q q' : MemoryQueue w c) (job : WriteJob w) (n : ℕ)
      → try_enqueue w c q job ≡ some (n, q')
      → (c.try_send q.sender job ≡ some q'.sender) × (q'.capacity ≡ q.capacity)
  unfolding try_enqueue
  try_enqueue-sent q q' job n h = elim (Option-cases (c.try_send q.sender job)) [
    | inl e ↦ let k : ◌≡◌ {A = Option (ℕ × MemoryQueue w c)} none (some (n, q')) = rw e at h in cc
    | inr (t, e) ↦
        let k : enqueued w c q (some t) ≡ some (n, q') = rw e at h in
        let same : ◌≡◌ {A = MemoryQueue w c} (record q { sender = t }) q' = cc in
        (
          e ∙ ap (λ (x : MemoryQueue w c). some x.sender) same,
          ap (λ (x : MemoryQueue w c). x.capacity) (sym same),
        )
  ]

  step-Kept : (v u : Service w c s) → Kept v → Step w c s v u → Kept u
  step-Kept v _ k (taken_in _ job n q h) =
      let (sent, cap) = try_enqueue-sent v.queue q job n h in
      record {
        conserved = λ f.
            let e = ap (sum_by f) (b.sent v.queue.sender q.sender job sent) in
            let a = sum_by-append f (b.contents v.queue.sender) (job ∷ []) in
            omega (arith, e, a, k.conserved f);
        sized = b.sent-size v.queue.sender q.sender job sent ∙ k.sized;
        same_capacity = cap ∙ k.same_capacity;
        fitting = k.fitting;
        traced = k.traced;
      }
  step-Kept v _ k (refused _ job h) = k
  step-Kept v _ k (picked_up _ job t h) = record {
    conserved = λ f.
        let e = ap (sum_by f) (b.received v.queue.sender t job h) in
        omega (arith, e, k.conserved f);
    sized = b.received-size v.queue.sender t job h ∙ k.sized;
    same_capacity = k.same_capacity;
    fitting = k.fitting;
    traced = k.traced;
  }
  step-Kept v _ k (ended _ earlier job later e) = record {
    conserved = λ f.
        let i = ap (sum_by f) e in
        let a = sum_by-append f earlier (job ∷ later) in
        let r = sum_by-append f earlier later in omega (arith, i, a, r, k.conserved f);
    sized = k.sized;
    same_capacity = k.same_capacity;
    fitting = ((process-Fitting w s job v.store).0, k.fitting);
    traced = ((process-Fitting w s job v.store).1, k.traced);
  }

  Reachable-Kept : (v : Service w c s) → Reachable w c s capacity st v → Kept v
  Reachable-Kept _ started = started-Kept
  Reachable-Kept _ (step v u r m) = step-Kept v u (Reachable-Kept v r) m

  -- In every state that producers and workers reach, in any order: whatever is counted of jobs, the
  -- accepted jobs are those in the queue, in flight and ended; the depth is the number of jobs in
  -- the queue, and at most the capacity (at least 1). Each job that ended has called the store once,
  -- on the store that the job ended before it left: its reply channel got the method's result if it
  -- has one; else it ended unheard exactly when the method succeeded, and an error was counted as a
  -- drop of the write's kind, for the error's reason.
  pub Reachable-conserved :
      (v : Service w c s)
      → Reachable w c s capacity st v
      → Kept v
        × (depth w c v.queue ≡ length (b.contents v.queue.sender))
        × (depth w c v.queue ≤ max capacity 1)
  unfolding depth
  Reachable-conserved v r =
      let k = Reachable-Kept v r in
      let f = b.free_lem v.queue.sender in
      (k, omega (arith, f, k.sized, k.same_capacity), omega (arith, f, k.sized, k.same_capacity))
