-- ===== src/Search/Store.antt =====
-- crates/klams-core/src/retrieval.rs and crates/klams-store/src/lib.rs: the methods of the store that
-- a search calls, as a record, and its errors. A map is its rows, the newest first.
use klams.Common.{
  ℕ, Option, none, some, List, [], ◌∷◌, if◌then◌else◌, ◌==◌, Result, ok, err, Text, codes,
}
use klams.Facts.{StoreError}
use klams.Floats.{F32}
use klams.Search.{KnowledgeItem, Fact, Event, PublicAuthorRef}

-- The fields that a search reads.
pub record AuthorRecord : Type 0 where
  pub id : ℕ
  pub agent_name : Text
  pub model : Option Text
  pub repo : Option Text

abbrev pub from_record : AuthorRecord → PublicAuthorRef
from_record a = record { id = some a.id; agent_name = a.agent_name; model = a.model; repo = a.repo }

abbrev pub unknown : PublicAuthorRef
unknown = record { id = none; agent_name = codes "unknown"; model = none; repo = none }

-- The contexts and the messages are left out.
pub data RetrievalError : Type 0 where
  empty_query query_too_long invalid_top_k not_found : RetrievalError
  embed_error backend_error : StoreError → RetrievalError

-- `map_err(wrap)?`, then the rest.
abbrev pub try_with :
    {A B : Type 0}
    → (StoreError → RetrievalError)
    → Result StoreError A
    → (A → Result RetrievalError B)
    → Result RetrievalError B
try_with wrap (ok a) rest = rest a
try_with wrap (err e) rest = err (wrap e)

abbrev pub then_ok :
    {A B : Type 0}
    → Result RetrievalError A
    → (A → Result RetrievalError B)
    → Result RetrievalError B
then_ok (ok a) rest = rest a
then_ok (err e) rest = err e

-- The value of a key, the newest first.
abbrev pub value_of : {A : Type 0} → ℕ → List (ℕ × A) → Option A
value_of k [] = none
value_of k ((i, a) ∷ rows) = if i == k then some a else value_of k rows

pub record Store (f : F32) : Type 1 where
  pub Vector : Type 0
  pub embed_query : Text → Result StoreError Vector
  pub search_knowledge : Vector → ℕ → Result StoreError (List (KnowledgeItem × f.Float))
  pub search_knowledge_tagged :
      Vector → List Text → ℕ → Result StoreError (List (KnowledgeItem × f.Float))
  pub search_knowledge_curated : Vector → ℕ → Result StoreError (List (KnowledgeItem × f.Float))
  pub search_knowledge_lexical :
      Text → Vector → ℕ → Result StoreError (List (KnowledgeItem × f.Float))
  pub knowledge_authors_by_ids : List ℕ → Result StoreError (List (ℕ × ℕ))
  pub get_author_by_id : ℕ → Result StoreError (Option AuthorRecord)
  -- the hits, (id, score), of facts and of events
  pub search_text : Text → ℕ → Result StoreError (List (ℕ × f.Float) × List (ℕ × f.Float))
  pub fetch_facts_with_authors : List ℕ → Result StoreError (List (Fact × AuthorRecord))
  pub fetch_events_with_authors : List ℕ → Result StoreError (List (Event × AuthorRecord))
  pub get_point_vector : ℕ → Result StoreError (Option Vector)
  pub get_knowledge : ℕ → Result StoreError (Option KnowledgeItem)
