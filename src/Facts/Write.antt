-- ===== src/Facts/Write.antt =====
-- `upsert_fact_v2`, `soft_delete_fact` and `restore_fact` of crates/klams-store/src/postgres.rs.
use klams.Common.{
  ℕ, suc, Bool, true, false, not, ◌&&◌, ◌||◌, Option, none, some, List, ◌∷◌, if◌then◌else◌, ◌==◌,
  ltb, any, is_some, unwrap_or, Text, ok, err,
}
use klams.Decay.{FactType}
use klams.Facts.{
  Source, trust_rank, pending, backend, FactRow, DissentRow, Db, Written, find_by, update_where,
  i32_max, type_eq, fact_is, dissent_is, fact_key_is, pending_is, find_fact, refresh, breaks_key,
}

pub record UpsertFact (P : Type 0) : Type 0 where
  pub fact_type : FactType
  pub payload : P
  pub source : Source
  pub explicit_id : Option ℕ
  pub expected_version : Option ℕ
  pub author_id : ℕ

pub data FactWriteOutcome (P : Type 0) : Type 0 where
  persisted : FactRow P → FactWriteOutcome P
  dissented : (dissent_id fact_id : ℕ) → FactWriteOutcome P
  conflicted : (current_version fact_id : ℕ) → FactWriteOutcome P

-- `ev != version` for a version that the caller expects.
unfoldable pub mismatch : Option ℕ → ℕ → Bool
mismatch none version = false
mismatch (some ev) version = not (ev == version)

abbrev pub author_known : Option ℕ → List ℕ → Bool
author_known none authors = true
author_known (some a) authors = any (λ x. x == a) authors

module _ {P : Type 0} where
  -- A new row, and the trigger on it.
  abbrev pub inserted : DissentRow P → Db P → Db P
  inserted row db = record db {
    facts = refresh row.fact_id (row ∷ db.dissents) db.facts;
    dissents = row ∷ db.dissents;
  }

  abbrev pub again : (now : ℕ) → DissentRow P → DissentRow P
  again now d = record d { submission_count = suc d.submission_count; last_seen_at = now }

  -- The pending row of the same fact and payload, submitted again.
  abbrev pub resubmitted : DissentRow P → Db P → Db P
  resubmitted row db = record db {
    dissents =
        update_where (pending_is row.fact_id row.payload_hash) (again row.last_seen_at) db.dissents;
  }

  -- `INSERT INTO dissents … ON CONFLICT (fact_id, payload_hash) WHERE status='pending' DO UPDATE`,
  -- with the id and the submission count of the row.
  abbrev pub filed : DissentRow P → Db P → Option (DissentRow P) → Written P (ℕ × ℕ)
  filed row db none =
      if any (dissent_is row.id) db.dissents || not (author_known row.author_id db.authors)
      then err backend
      else ok ((row.id, row.submission_count), inserted row db)
  filed row db (some d) =
      if d.submission_count == i32_max
      then err backend
      else ok ((d.id, suc d.submission_count), resubmitted row db)

  unfoldable pub file_dissent : DissentRow P → Db P → Written P (ℕ × ℕ)
  unfolding update_where find_by refresh
  file_dissent row db = filed row db (find_by (pending_is row.fact_id row.payload_hash) db.dissents)

  -- `UPDATE facts SET payload, payload_hash, source, version = version + 1, updated_at = now()`
  abbrev pub amended : (now : ℕ) → P → Text → Source → FactRow P → FactRow P
  amended now payload hash source f = record f {
    payload = payload;
    payload_hash = hash;
    source = source;
    version = suc f.version;
    updated_at = now;
  }

  -- The update of the fact `f` by its id, with the row that it returns.
  unfoldable pub amend : (now : ℕ) → P → Text → Source → FactRow P → Db P → Written P (FactRow P)
  unfolding update_where breaks_key type_eq
  amend now payload hash source f db =
      if breaks_key f hash db || f.version == i32_max
      then err backend
      else ok (
        amended now payload hash source f,
        record db {
          facts = update_where (fact_is f.id) (amended now payload hash source) db.facts;
        },
      )

  abbrev pub target : UpsertFact P → Db P → Option ℕ → Option (FactRow P)
  target req db none = none
  target req db (some i) = find_fact i db

  abbrev pub touched : (now : ℕ) → FactRow P → FactRow P
  touched now f = record f { updated_at = now }

  -- `UPDATE facts SET updated_at = now() WHERE id`
  abbrev pub touch : (now : ℕ) → FactRow P → Db P → Db P
  touch now f db = record db { facts = update_where (fact_is f.id) (touched now) db.facts }

  abbrev pub outcome_dissented : ℕ → Written P (ℕ × ℕ) → Written P (FactWriteOutcome P)
  outcome_dissented i (ok (d, db)) = ok (dissented d.0 i, db)
  outcome_dissented i (err e) = err e

  abbrev pub outcome_persisted : Written P (FactRow P) → Written P (FactWriteOutcome P)
  outcome_persisted (ok (f, db)) = ok (persisted f, db)
  outcome_persisted (err e) = err e

module _ {P : Type 0} (canonical_json_hash : FactType → P → Text) where
  -- The row of a dissent that a write is diverted to.
  unfoldable pub diverted : (now fresh : ℕ) → UpsertFact P → ℕ → DissentRow P
  diverted now fresh req i = record {
    id = fresh;
    fact_id = i;
    proposed_payload = req.payload;
    payload_hash = canonical_json_hash req.fact_type req.payload;
    source = req.source;
    submitted_at = now;
    last_seen_at = now;
    submission_count = 1;
    status = pending;
    resolved_at = none;
    resolved_by_source = none;
    reason = none;
    contradicting_memory_id = none;
    author_id = none;
  }

  unfoldable pub new_fact : (now fresh : ℕ) → UpsertFact P → FactRow P
  new_fact now fresh req = record {
    id = unwrap_or req.explicit_id fresh;
    fact_type = req.fact_type;
    payload = req.payload;
    payload_hash = canonical_json_hash req.fact_type req.payload;
    version = 1;
    source = req.source;
    dissent_count = 0;
    author_id = req.author_id;
    updated_at = now;
    deleted_at = none;
    deleted_by_author_id = none;
  }

  -- 3) Brand new canonical fact.
  unfoldable pub insert_fact :
      (now fresh : ℕ) → UpsertFact P → Db P → Written P (FactWriteOutcome P)
  unfolding new_fact type_eq
  insert_fact now fresh req db =
      let f = new_fact now fresh req in
      if any (fact_is f.id) db.facts
        || (any (fact_key_is f.fact_type f.payload_hash) db.facts
            || not (any (λ a. a == f.author_id) db.authors))
      then err backend
      else ok (persisted f, record db { facts = f ∷ db.facts })

  -- 2) `explicit_id` targets an existing fact: a dissent, or an amendment.
  abbrev pub upsert_target :
      (now fresh : ℕ) → UpsertFact P → Db P → Option (FactRow P) → Written P (FactWriteOutcome P)
  upsert_target now fresh req db none = insert_fact now fresh req db
  upsert_target now fresh req db (some f) =
      if ltb (trust_rank req.source) (trust_rank f.source)
      then outcome_dissented f.id (file_dissent (diverted now fresh req f.id) db)
      else if mismatch req.expected_version f.version
      then ok (conflicted f.version f.id, db)
      else outcome_persisted
          (amend now req.payload (canonical_json_hash req.fact_type req.payload) req.source f db)

  -- 1) Same (type, payload_hash): only `updated_at` changes.
  abbrev pub upsert_same :
      (now fresh : ℕ) → UpsertFact P → Db P → Option (FactRow P) → Written P (FactWriteOutcome P)
  upsert_same now fresh req db none = upsert_target now fresh req db (target req db req.explicit_id)
  upsert_same now fresh req db (some f) =
      if mismatch req.expected_version f.version
      then ok (conflicted f.version f.id, db)
      else ok (persisted (touched now f), touch now f db)

  -- `now` is the time of the transaction, `fresh` the id that `Uuid::now_v7` gives.
  unfoldable pub upsert_fact_v2 :
      (now fresh : ℕ) → UpsertFact P → Db P → Written P (FactWriteOutcome P)
  unfolding find_by find_fact update_where insert_fact file_dissent amend mismatch trust_rank
      diverted type_eq
  upsert_fact_v2 now fresh req db =
      upsert_same now fresh req db (
        find_by (fact_key_is req.fact_type (canonical_json_hash req.fact_type req.payload))
          db.facts)

module _ {P : Type 0} where
  abbrev pub deleted : (now by : ℕ) → FactRow P → FactRow P
  deleted now by f = record f { deleted_at = some now; deleted_by_author_id = some by }

  abbrev pub live_is : ℕ → FactRow P → Bool
  live_is i f = f.id == i && not (is_some f.deleted_at)

  abbrev pub deleted_is : ℕ → FactRow P → Bool
  deleted_is i f = f.id == i && is_some f.deleted_at

  -- The row count is 1 where a row fits, since ids are unique.
  unfoldable pub soft_delete_fact : (now i by : ℕ) → Db P → Written P Bool
  unfolding update_where
  soft_delete_fact now i by db =
      if any (live_is i) db.facts && not (any (λ a. a == by) db.authors)
      then err backend
      else ok (
        any (live_is i) db.facts,
        record db { facts = update_where (live_is i) (deleted now by) db.facts },
      )

  abbrev pub undeleted : FactRow P → FactRow P
  undeleted f = record f { deleted_at = none; deleted_by_author_id = none }

  unfoldable pub restore_fact : ℕ → Db P → Written P Bool
  unfolding update_where
  restore_fact i db = ok (
    any (deleted_is i) db.facts,
    record db { facts = update_where (deleted_is i) undeleted db.facts },
  )
