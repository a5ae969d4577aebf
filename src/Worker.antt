-- ===== src/Worker.antt =====
-- crates/klams-core/src/queue.rs and crates/klams-core/src/worker.rs: the bounded queue of writes, and
-- the workers that drain it into the store. The channel of tokio and the store behind the workers
-- are interfaces; a reply channel is a number, and a log holds what each job came to.
pub mod Jobs
mod Tests
use klams.Common.{
  ℕ, ◌+◌, ◌-◌, ◌≤◌, max, ◌≡◌, Bool, true, false, Option, none, some, List, [], ◌∷◌, ◌++◌,
  if◌then◌else◌, ltb, length, Result, ok, err,
}
use klams.Facts.{
  StoreError, backend, backend_unavailable, conflict, embedding, embedding_rejected,
  payload_too_large, other, gone, version_conflict,
}

-- The types of the requests and of their results.
pub record Wire : Type 1 where
  pub UpsertFact : Type 0
  pub AppendEvent : Type 0
  pub IndexKnowledge : Type 0
  pub FactWriteOutcome : Type 0
  pub Event : Type 0
  pub KnowledgeItem : Type 0

-- The methods of `Store` that the workers call.
pub record Store (w : Wire) : Type 1 where
  pub State : Type 0
  pub upsert_fact_v2 : State → w.UpsertFact → Result StoreError w.FactWriteOutcome × State
  pub append_event : State → w.AppendEvent → Result StoreError w.Event × State
  pub index_knowledge : State → w.IndexKnowledge → Result StoreError w.KnowledgeItem × State

pub data MemoryWrite (w : Wire) : Type 0 where
  upsert_fact : w.UpsertFact → MemoryWrite w
  append_event : w.AppendEvent → MemoryWrite w
  index_knowledge : w.IndexKnowledge → MemoryWrite w

pub record WriteJob (w : Wire) : Type 0 where
  pub write : MemoryWrite w
  pub reply : Option ℕ

pub data WriteReply (w : Wire) : Type 0 where
  fact : Result StoreError w.FactWriteOutcome → WriteReply w
  event : Result StoreError w.Event → WriteReply w
  knowledge : Result StoreError w.KnowledgeItem → WriteReply w

-- `StoreError::transience`
pub is_transient : StoreError → Bool
is_transient backend_unavailable = true
is_transient embedding = true
is_transient backend = false
is_transient conflict = false
is_transient embedding_rejected = false
is_transient payload_too_large = false
is_transient other = false
is_transient (version_conflict v) = false
is_transient gone = false

pub data Reason : Type 0 where
  too_large rejected embedding_down backend_down conflicting gone_away failed : Reason

pub failure_reason : StoreError → Reason
failure_reason payload_too_large = too_large
failure_reason embedding_rejected = rejected
failure_reason embedding = embedding_down
failure_reason backend_unavailable = backend_down
failure_reason conflict = conflicting
failure_reason (version_conflict v) = conflicting
failure_reason gone = gone_away
failure_reason backend = failed
failure_reason other = failed

pub data WriteKind : Type 0 where
  of_fact of_event of_knowledge : WriteKind

-- What a job came to: a reply on its channel, a drop that is counted, or a success that nobody
-- waits for.
pub data Ending (w : Wire) : Type 0 where
  replied : ℕ → WriteReply w → Ending w
  dropped : WriteKind → Reason → Ending w
  unheard : Ending w

-- `record_drop`, or nothing to record
pub without_reply : {A : Type 0} (w : Wire) → WriteKind → Result StoreError A → Ending w
unfolding failure_reason
without_reply w kind (ok a) = unheard
without_reply w kind (err e) = dropped kind (failure_reason e)

abbrev pub answer :
    {A : Type 0} (w : Wire)
    → Option ℕ
    → (Result StoreError A → WriteReply w)
    → WriteKind
    → Result StoreError A
    → Ending w
answer w none wrap kind r = without_reply w kind r
answer w (some tx) wrap kind r = replied tx (wrap r)

-- The write, by its kind.
abbrev pub dispatch :
    (w : Wire) (s : Store w) → MemoryWrite w → Option ℕ → s.State → Ending w × s.State
dispatch w s (upsert_fact req) reply st =
    let r = s.upsert_fact_v2 st req in (answer w reply fact of_fact r.0, r.1)
dispatch w s (append_event req) reply st =
    let r = s.append_event st req in (answer w reply event of_event r.0, r.1)
dispatch w s (index_knowledge req) reply st =
    let r = s.index_knowledge st req in (answer w reply knowledge of_knowledge r.0, r.1)

pub process : (w : Wire) (s : Store w) → WriteJob w → s.State → Ending w × s.State
unfolding without_reply
process w s job st = dispatch w s job.write job.reply st

-- `tokio::sync::mpsc`, bounded: `try_send` refuses a full channel, `recv` takes the oldest job.
pub record Channel (J : Type 0) : Type 1 where
  pub Chan : Type 0
  pub channel : ℕ → Chan
  pub try_send : Chan → J → Option Chan
  pub recv : Chan → Option (J × Chan)
  -- `Sender::capacity`: the free slots
  pub free : Chan → ℕ

-- What the documentation of the channel says.
pub record IsBounded (J : Type 0) (c : Channel J) : Type 0 where
  pub contents : c.Chan → List J
  pub size : c.Chan → ℕ
  pub channel-contents : (n : ℕ) → contents (c.channel n) ≡ []
  pub channel-size : (n : ℕ) → size (c.channel n) ≡ n
  pub sent : (s t : c.Chan) (j : J) → c.try_send s j ≡ some t → contents t ≡ contents s ++ j ∷ []
  pub sent-size : (s t : c.Chan) (j : J) → c.try_send s j ≡ some t → size t ≡ size s
  pub received : (s t : c.Chan) (j : J) → c.recv s ≡ some (j, t) → contents s ≡ j ∷ contents t
  pub received-size : (s t : c.Chan) (j : J) → c.recv s ≡ some (j, t) → size t ≡ size s
  pub free_lem : (s : c.Chan) → c.free s + length (contents s) ≡ size s

module _ (w : Wire) (c : Channel (WriteJob w)) where
  pub record MemoryQueue : Type 0 where
    pub sender : c.Chan
    pub capacity : ℕ

  pub new_queue : ℕ → MemoryQueue
  new_queue capacity = record { sender = c.channel (max capacity 1); capacity = max capacity 1 }

  pub depth : MemoryQueue → ℕ
  depth q = q.capacity - c.free q.sender

  abbrev enqueued : MemoryQueue → Option c.Chan → Option (ℕ × MemoryQueue)
  enqueued q none = none
  enqueued q (some t) =
      let q' = record q { sender = t } in some (q'.capacity - c.free q'.sender, q')

  -- The depth after, and the queue; none is `QueueFull`.
  pub try_enqueue : MemoryQueue → WriteJob w → Option (ℕ × MemoryQueue)
  try_enqueue q job = enqueued q (c.try_send q.sender job)

  module _ (s : Store w) where
    -- A job that ended, the store that it found, and what it came to.
    pub record Done : Type 0 where
      pub job : WriteJob w
      pub found : s.State
      pub ending : Ending w

    -- The queue, the jobs that workers have taken and not ended, the store, and a log of the jobs
    -- that ended, the newest first. `accepted` holds the jobs that `try_enqueue` took.
    pub record Service : Type 0 where
      pub queue : MemoryQueue
      pub in_flight : List (WriteJob w)
      pub store : s.State
      pub log : List Done
      pub accepted : List (WriteJob w)

    -- One step of a producer or a worker, in any order: a job is taken into the queue or refused, a
    -- worker takes the oldest job out of it, or a worker ends one of the jobs that are in flight.
    pub data Step : Service → Service → Type 0 where
      taken_in :
          (v : Service) (job : WriteJob w) (n : ℕ) (q : MemoryQueue)
          → try_enqueue v.queue job ≡ some (n, q)
          → Step v (record v { queue = q; accepted = job ∷ v.accepted })
      refused : (v : Service) (job : WriteJob w) → try_enqueue v.queue job ≡ none → Step v v
      picked_up :
          (v : Service) (job : WriteJob w) (t : c.Chan)
          → c.recv v.queue.sender ≡ some (job, t)
          → Step v (record v {
            queue = record { sender = t; capacity = v.queue.capacity };
            in_flight = job ∷ v.in_flight;
          })
      ended :
          (v : Service) (earlier : List (WriteJob w)) (job : WriteJob w) (later : List (WriteJob w))
          → v.in_flight ≡ earlier ++ job ∷ later
          → Step v (record v {
            in_flight = earlier ++ later;
            store = (process w s job v.store).1;
            log =
                record { job = job; found = v.store; ending = (process w s job v.store).0 } ∷ v.log;
          })

    pub data Reachable (capacity : ℕ) (st : s.State) : Service → Type 0 where
      started : Reachable capacity st (record {
        queue = new_queue capacity;
        in_flight = [];
        store = st;
        log = [];
        accepted = [];
      })
      step : (v u : Service) → Reachable capacity st v → Step v u → Reachable capacity st u
