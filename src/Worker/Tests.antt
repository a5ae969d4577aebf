-- ===== src/Worker/Tests.antt =====
-- A queue of two slots in front of the store of facts: a write that is awaited, a write that is lost.
use klams.Common.{
  ℕ, suc, zero, ◌+◌, ◌≤◌, ◌≡◌, refl, ap, sym, Option, none, some, List, [], ◌∷◌, ◌++◌, arith,
  length, length-append, Result, ok, err, Text,
}
use klams.Decay.{FactType, env_fact}
use klams.Facts.{Db, StoreError, after, embedding, user}
use klams.Facts.Write as FactWrites
use klams.Worker.{
  Wire, Store, upsert_fact, index_knowledge, WriteJob, dropped, of_knowledge, embedding_down,
  process, Channel, IsBounded, new_queue, depth, try_enqueue, Service, Step, taken_in, picked_up,
  ended, Reachable, started, step,
}
use klams.Worker.Jobs.{Kept, Reachable-conserved}

abbrev wire : Wire
wire = record {
  UpsertFact = FactWrites.UpsertFact ℕ;
  AppendEvent = ℕ;
  IndexKnowledge = ℕ;
  FactWriteOutcome = FactWrites.FactWriteOutcome ℕ;
  Event = ℕ;
  KnowledgeItem = ℕ;
}

abbrev hash : FactType → ℕ → Text
hash t p = p ∷ []

abbrev outcome : {A : Type 0} → Result StoreError (A × Db ℕ) → Result StoreError A
outcome (ok (a, db)) = ok a
outcome (err e) = err e

-- The tables of facts with a clock; the embedder is down.
facts_upsert :
    Db ℕ × ℕ
    → FactWrites.UpsertFact ℕ
    → Result StoreError (FactWrites.FactWriteOutcome ℕ) × (Db ℕ × ℕ)
facts_upsert st req =
    let r = FactWrites.upsert_fact_v2 hash st.1 (st.1 + 100) req st.0 in
    (outcome r, (after st.0 r, st.1 + 1))

abbrev facts_store : Store wire
facts_store = record {
  State = Db ℕ × ℕ;
  upsert_fact_v2 = facts_upsert;
  append_event = λ st e. (ok e, st);
  index_knowledge = λ st k. (err embedding, st);
}

-- The jobs in order, and the free slots.
abbrev Fifo : Type 0 → Type 0
Fifo J = List J × ℕ

abbrev fifo_send : {J : Type 0} → Fifo J → J → Option (Fifo J)
fifo_send (js, zero) j = none
fifo_send (js, suc n) j = some (js ++ j ∷ [], n)

abbrev fifo_recv : {J : Type 0} → Fifo J → Option (J × Fifo J)
fifo_recv ([], n) = none
fifo_recv (j ∷ js, n) = some (j, (js, suc n))

abbrev fifo : Channel (WriteJob wire)
fifo = record {
  Chan = Fifo (WriteJob wire);
  channel = λ n. ([], n);
  try_send = λ s j. fifo_send s j;
  recv = λ s. fifo_recv s;
  free = λ s. s.1;
}

module _ {J : Type 0} where
  sent_lem :
      (s t : Fifo J) (j : J)
      → fifo_send s j ≡ some t
      → (t.0 ≡ s.0 ++ j ∷ []) × (t.1 + length t.0 ≡ s.1 + length s.0)
  sent_lem (js, zero) t j h = cc
  sent_lem (js, suc n) t j h =
      let e : ◌≡◌ {A = Fifo J} (js ++ j ∷ [], n) t = cc in
      let a = ap (λ (x : Fifo J). x.0) e in
      let b = ap (λ (x : Fifo J). x.1) e in
      (sym a, omega (arith, b, ap (λ (l : List J). length l) a, length-append {0} js (j ∷ [])))

  received_lem :
      (s t : Fifo J) (j : J)
      → fifo_recv s ≡ some (j, t)
      → (s.0 ≡ j ∷ t.0) × (t.1 + length t.0 ≡ s.1 + length s.0)
  received_lem ([], n) t j h = cc
  received_lem (i ∷ js, n) t j h =
      let e : ◌≡◌ {A = J × Fifo J} (i, (js, suc n)) (j, t) = cc in
      let first : i ≡ j = ap (λ (x : J × Fifo J). x.0) e in
      let a : js ≡ t.0 = ap (λ (x : J × Fifo J). x.1.0) e in
      let b : suc n ≡ t.1 = ap (λ (x : J × Fifo J). x.1.1) e in
      (cc, omega (arith, b, ap (λ (l : List J). length l) a))

abbrev fifo-IsBounded : IsBounded (WriteJob wire) fifo
fifo-IsBounded = record {
  contents = λ s. s.0;
  size = λ s. s.1 + length s.0;
  channel-contents = λ n. refl;
  channel-size = λ n. omega arith;
  sent = λ s t j h. (sent_lem s t j h).0;
  sent-size = λ s t j h. (sent_lem s t j h).1;
  received = λ s t j h. (received_lem s t j h).0;
  received-size = λ s t j h. (received_lem s t j h).1;
  free_lem = λ s. refl;
}

abbrev start : Db ℕ × ℕ
start = (record { facts = []; dissents = []; authors = 1 ∷ [] }, 0)

abbrev awaited : WriteJob wire
awaited = record {
  write = upsert_fact (record {
    fact_type = env_fact;
    payload = 70;
    source = user;
    explicit_id = none;
    expected_version = none;
    author_id = 1;
  });
  reply = some 9;
}

abbrev lost : WriteJob wire
lost = record { write = index_knowledge 3; reply = none }

lost_lem : (process wire facts_store lost start).0 ≡ dropped of_knowledge embedding_down
unfolding process
lost_lem = refl

abbrev Reached : Service wire fifo facts_store → Type 0
Reached = Reachable wire fifo facts_store 2 start

abbrev first : Service wire fifo facts_store
first = record {
  queue = record { sender = ([], 2); capacity = 2 };
  in_flight = [];
  store = start;
  log = [];
  accepted = [];
}

abbrev second : Service wire fifo facts_store
second = record first {
  queue = record { sender = (lost ∷ [], 1); capacity = 2 };
  accepted = lost ∷ [];
}

abbrev third : Service wire fifo facts_store
third = record second {
  queue = record { sender = (lost ∷ awaited ∷ [], 0); capacity = 2 };
  accepted = awaited ∷ lost ∷ [];
}

abbrev fourth : Service wire fifo facts_store
fourth = record third {
  queue = record { sender = (awaited ∷ [], 1); capacity = 2 };
  in_flight = lost ∷ [];
}

abbrev fifth : Service wire fifo facts_store
fifth = record fourth {
  in_flight = [];
  store = start;
  log = record { job = lost; found = start; ending = dropped of_knowledge embedding_down } ∷ [];
}

full_lem : try_enqueue wire fifo third.queue lost ≡ none
unfolding try_enqueue
full_lem = refl

second_lem : try_enqueue wire fifo first.queue lost ≡ some (1, second.queue)
unfolding try_enqueue
second_lem = refl

third_lem : try_enqueue wire fifo second.queue awaited ≡ some (2, third.queue)
unfolding try_enqueue
third_lem = refl

first-Reached : Reached first
unfolding new_queue
first-Reached = started

fifth-Reached : Reached fifth
unfolding process
fifth-Reached =
    let two = step first second first-Reached (taken_in first lost 1 second.queue second_lem) in
    let three = step second third two (taken_in second awaited 2 third.queue third_lem) in
    let four = step third fourth three (picked_up third lost (awaited ∷ [], 1) refl) in
    let e : Step wire fifo facts_store fourth fifth = ended fourth [] lost [] refl in
    step fourth fifth four e

Reachable-conserved_example :
    Kept wire fifo fifo-IsBounded facts_store 2 start fifth
    × (depth wire fifo fifth.queue ≡ 1)
    × (depth wire fifo fifth.queue ≤ 2)
Reachable-conserved_example =
    Reachable-conserved wire fifo fifo-IsBounded facts_store 2 start fifth fifth-Reached
