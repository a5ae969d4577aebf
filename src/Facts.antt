-- ===== src/Facts.antt =====
-- crates/klams-store/src/postgres.rs and migrations/0001_init.sql, 0002_dissents.sql,
-- 0006_facts_author_and_soft_delete.sql, 0009_dissent_proposals.sql: the tables of facts, of the
-- dissents from them and of authors, and the statements that the fact writes are made of.
-- Ids, times and authors are numbers, a hash is a text. A transaction that ends in an error leaves
-- the tables alone. The columns that only decay writes (confidence, decay_weight, use_count,
-- last_used_at) and created_at are left out.
pub mod Write
pub mod Dissents
pub mod Rows
pub mod Updates
pub mod Trust
pub mod Pending
pub mod Promotion
pub mod Filing
pub mod Counts
pub mod Settled
pub mod Deletion
pub mod Hashes
pub mod Calls
mod Tests
use klams.Common.{
  ℕ, suc, ◌+◌, Bool, true, false, not, ◌&&◌, Option, none, some, List, [], ◌∷◌, if◌then◌else◌, ◌==◌,
  any, sum_by, Text, text_eq, Result, ok, err,
}
use klams.Decay.{FactType, user_fact, task_fact, env_fact}

pub data Source : Type 0 where
  user controller task agent_proposal : Source

-- `Source::trust_rank`
pub trust_rank : Source → ℕ
trust_rank user = 4
trust_rank controller = 3
trust_rank task = 2
trust_rank agent_proposal = 1

pub data DissentStatus : Type 0 where
  pending promoted discarded orphaned : DissentStatus

-- The messages of errors are left out.
pub data StoreError : Type 0 where
  backend backend_unavailable conflict embedding embedding_rejected payload_too_large : StoreError
  other gone : StoreError
  version_conflict : ℕ → StoreError

pub record FactRow (P : Type 0) : Type 0 where
  pub id : ℕ
  pub fact_type : FactType
  pub payload : P
  pub payload_hash : Text
  pub version : ℕ
  pub source : Source
  pub dissent_count : ℕ
  pub author_id : ℕ
  pub updated_at : ℕ
  pub deleted_at : Option ℕ
  pub deleted_by_author_id : Option ℕ

pub record DissentRow (P : Type 0) : Type 0 where
  pub id : ℕ
  pub fact_id : ℕ
  pub proposed_payload : P
  pub payload_hash : Text
  pub source : Source
  pub submitted_at : ℕ
  pub last_seen_at : ℕ
  pub submission_count : ℕ
  pub status : DissentStatus
  pub resolved_at : Option ℕ
  pub resolved_by_source : Option Source
  pub reason : Option Text
  pub contradicting_memory_id : Option ℕ
  pub author_id : Option ℕ

pub record Db (P : Type 0) : Type 0 where
  pub facts : List (FactRow P)
  pub dissents : List (DissentRow P)
  pub authors : List ℕ

-- The result of a transaction.
abbrev pub Written : Type 0 → Type 0 → Type 0
Written P A = Result StoreError (A × Db P)

-- The tables after a transaction.
abbrev pub after : {P A : Type 0} → Db P → Written P A → Db P
after db (ok (a, d)) = d
after db (err e) = db

-- `SELECT … WHERE`, of at most one row
unfoldable pub find_by : {A : Type 0} → (A → Bool) → List A → Option A
find_by p [] = none
find_by p (x ∷ xs) = let rest = find_by p xs in if p x then some x else rest

-- `UPDATE … SET … WHERE`
unfoldable pub update_where : {A : Type 0} → (A → Bool) → (A → A) → List A → List A
update_where p g [] = []
update_where p g (x ∷ xs) = (if p x then g x else x) ∷ update_where p g xs

-- The largest value of a Postgres INT, past which an addition is an error.
abbrev pub i32_max : ℕ
i32_max = 2147483647

unfoldable pub type_eq : FactType → FactType → Bool
type_eq user_fact user_fact = true
type_eq task_fact task_fact = true
type_eq env_fact env_fact = true
type_eq _ _ = false

abbrev pub is_pending : DissentStatus → Bool
is_pending pending = true
is_pending promoted = false
is_pending discarded = false
is_pending orphaned = false

module _ {P : Type 0} where
  abbrev pub fact_is : ℕ → FactRow P → Bool
  fact_is i f = f.id == i

  abbrev pub dissent_is : ℕ → DissentRow P → Bool
  dissent_is i d = d.id == i

  -- The unique index `facts_type_payload_hash_idx`
  abbrev pub fact_key_is : FactType → Text → FactRow P → Bool
  fact_key_is t hash f = type_eq f.fact_type t && text_eq f.payload_hash hash

  -- The unique index `dissents_pending_dedupe_idx`
  abbrev pub pending_is : ℕ → Text → DissentRow P → Bool
  pending_is fact hash d = is_pending d.status && (d.fact_id == fact && text_eq d.payload_hash hash)

  abbrev pub pending_of : ℕ → DissentRow P → Bool
  pending_of fact d = d.fact_id == fact && is_pending d.status

  pub find_fact : ℕ → Db P → Option (FactRow P)
  find_fact i db = find_by (fact_is i) db.facts

  pub find_dissent : ℕ → Db P → Option (DissentRow P)
  find_dissent i db = find_by (dissent_is i) db.dissents

  -- `SELECT count(*) FROM dissents WHERE fact_id = … AND status = 'pending'`
  pub pending_count : ℕ → List (DissentRow P) → ℕ
  pending_count fact = sum_by (λ d. if pending_of fact d then 1 else 0)

  -- The trigger `refresh_fact_dissent_count`
  pub refresh : ℕ → List (DissentRow P) → List (FactRow P) → List (FactRow P)
  unfolding update_where pending_count
  refresh i ds =
      update_where (fact_is i) (λ (f : FactRow P). record f { dissent_count = pending_count i ds })

  -- The trigger runs once for each row whose status an update changes, with the row's fact.
  pub refresh_rows :
      (DissentRow P → Bool)
      → List (DissentRow P)
      → List (DissentRow P)
      → List (FactRow P)
      → List (FactRow P)
  unfolding refresh
  refresh_rows changed [] ds facts = facts
  refresh_rows changed (d ∷ rest) ds facts =
      refresh_rows changed rest ds (if changed d then refresh d.fact_id ds facts else facts)

  -- A write of another row's key breaks the unique index.
  pub breaks_key : (f : FactRow P) → Text → Db P → Bool
  breaks_key f hash db = any (λ r. not (r.id == f.id) && fact_key_is f.fact_type hash r) db.facts
