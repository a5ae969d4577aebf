-- ===== src/Search.antt =====
-- crates/klams-core/src/retrieval.rs with projection.rs and provenance.rs: the search over facts,
-- events and knowledge. Search.antt has the data and the filters; a JSON value is a `Value`, times
-- are numbers, an id is a number for a UUID.
pub mod Weights
pub mod Store
pub mod Knowledge
pub mod Texts
pub mod Pipeline
pub mod Run
pub mod Replies
pub mod Logs
pub mod Logged
pub mod Origins
pub mod Arms
pub mod Candidates
pub mod Places
pub mod Ranking
pub mod Related
pub mod Neighbours
pub mod HashOrder
pub mod Stages
pub mod Results
pub mod Answers
mod Sample
mod Tests
use klams.Common.{
  ℕ, Bool, true, false, not, ◌&&◌, ◌||◌, Option, none, some, List, [], ◌∷◌, if◌then◌else◌, ltb,
  ◌==◌, any, all, is_some, Text, codes, text_eq,
}
use klams.Copies.{
  Value, Values, Fields, string_value, list_value, struct_value, other_value, no_values, value, get,
  as_str,
}
use klams.Decay.{FactType}
use klams.Facts.{Source, trust_rank, type_eq}
use klams.Rerank.{MemoryKind}

-- Of an item, a fact and an event, the fields that a search reads.
pub record KnowledgeItem : Type 0 where
  pub id : ℕ
  pub text : Text
  pub content_hash : Text
  pub source : Source
  pub tags : List Text
  pub repo : Option Text
  pub file : Option Text
  pub machine : Option Text
  pub heading_path : Option Text
  pub language : Option Text
  pub chunk_index : Option ℕ
  pub volatility : Option Text
  pub supersedes : Option ℕ
  pub superseded_by : Option ℕ
  pub created_at : ℕ
  pub updated_at : ℕ

pub record Fact : Type 0 where
  pub id : ℕ
  pub fact_type : FactType
  pub payload : Value
  pub source : Source
  pub created_at : ℕ
  pub updated_at : ℕ

pub record Event : Type 0 where
  pub id : ℕ
  pub task_id : Option ℕ
  pub category : Text
  pub payload : Value
  pub source : Source
  pub created_at : ℕ

pub record KnowledgeCopy : Type 0 where
  pub id : ℕ
  pub host : Option Text
  pub file : Option Text

-- The fields of `PublicMemoryContent::Knowledge`, but for the copies.
pub record KnowledgeContent : Type 0 where
  pub text : Text
  pub source_path : Option Text
  pub repo : Option Text
  pub host : Option Text
  pub content_hash : Option Text
  pub heading_path : Option Text
  pub language : Option Text
  pub chunk_index : Option ℕ
  pub volatility : Option Text
  pub supersedes : Option ℕ
  pub superseded_by : Option ℕ

-- `PublicMemoryContent`
pub data Content : Type 0 where
  fact_content : FactType → Value → Content
  -- the body, and the copies that it absorbed
  knowledge_content : KnowledgeContent → List KnowledgeCopy → Content
  event_content : Text → Value → Option ℕ → Content

pub record PublicAuthorRef : Type 0 where
  pub id : Option ℕ
  pub agent_name : Text
  pub model : Option Text
  pub repo : Option Text

-- A live memory: `deleted_at` and its author are none on this path.
pub record PublicMemory : Type 0 where
  pub id : ℕ
  pub content : Content
  pub tags : List Text
  pub author : PublicAuthorRef
  pub created_at : ℕ
  pub updated_at : ℕ

abbrev pub content_kind : Content → MemoryKind
content_kind (fact_content t p) = MemoryKind.fact
content_kind (knowledge_content i cs) = MemoryKind.knowledge
content_kind (event_content c p t) = MemoryKind.event

abbrev pub kind : PublicMemory → MemoryKind
kind m = content_kind m.content

abbrev pub hash_in : Content → Option Text
hash_in (fact_content t p) = none
hash_in (knowledge_content i cs) = i.content_hash
hash_in (event_content c p t) = none

abbrev pub content_hash : PublicMemory → Option Text
content_hash m = hash_in m.content

abbrev pub copies_set : List KnowledgeCopy → Content → Content
copies_set absorbed (fact_content t p) = fact_content t p
copies_set absorbed (knowledge_content i cs) = knowledge_content i absorbed
copies_set absorbed (event_content c p t) = event_content c p t

abbrev pub set_copies : List KnowledgeCopy → PublicMemory → PublicMemory
set_copies absorbed m = record m { content = copies_set absorbed m.content }

abbrev pub project_fact : Fact → PublicAuthorRef → PublicMemory
project_fact f author = record {
  id = f.id;
  content = fact_content f.fact_type f.payload;
  tags = [];
  author = author;
  created_at = f.created_at;
  updated_at = f.updated_at;
}

-- The body of `PublicMemoryContent::knowledge_from`, whose copies are none.
abbrev pub knowledge_from : KnowledgeItem → KnowledgeContent
knowledge_from item = record {
  text = item.text;
  source_path = item.file;
  repo = item.repo;
  host = item.machine;
  content_hash = some item.content_hash;
  heading_path = item.heading_path;
  language = item.language;
  chunk_index = item.chunk_index;
  volatility = item.volatility;
  supersedes = item.supersedes;
  superseded_by = item.superseded_by;
}

abbrev pub project_knowledge : KnowledgeItem → PublicAuthorRef → PublicMemory
project_knowledge item author = record {
  id = item.id;
  content = knowledge_content (knowledge_from item) [];
  tags = item.tags;
  author = author;
  created_at = item.created_at;
  updated_at = item.updated_at;
}

abbrev pub project_event : Event → PublicAuthorRef → PublicMemory
project_event e author = record {
  id = e.id;
  content = event_content e.category e.payload e.task_id;
  tags = [];
  author = author;
  created_at = e.created_at;
  updated_at = e.created_at;
}

pub record RetrievalFilters : Type 0 where
  pub host : Option Text
  pub type_ : Option FactType
  pub tag : Option Text
  pub repo : Option Text
  pub file : Option Text
  pub source : Option Source
  pub since : Option ℕ
  pub until : Option ℕ

abbrev pub filters_active : RetrievalFilters → Bool
filters_active f =
    is_some f.host
    || (is_some f.type_
        || (is_some f.tag
            || (is_some f.repo
                || (is_some f.file || (is_some f.source || (is_some f.since || is_some f.until))))))

-- A wanted value that is none asks for nothing.
abbrev pub wanted : {A : Type 0} → (A → Bool) → Option A → Bool
wanted test none = true
wanted test (some want) = test want

abbrev pub is_text : Option Text → Text → Bool
is_text none want = false
is_text (some t) want = text_eq t want

abbrev pub same_source : Source → Source → Bool
same_source s want = trust_rank s == trust_rank want

unfoldable pub within_window : ℕ → RetrievalFilters → Bool
within_window ts f =
    wanted (λ since. not (ltb ts since)) f.since && wanted (λ until. not (ltb until ts)) f.until

unfoldable pub knowledge_matches_filters : KnowledgeItem → RetrievalFilters → Bool
knowledge_matches_filters item f =
    not (is_some f.type_)
    && (wanted (is_text item.machine) f.host
        && (wanted (is_text item.repo) f.repo
            && (wanted (is_text item.file) f.file
                && (wanted (λ want. any (λ t. text_eq t want) item.tags) f.tag
                    && (wanted (same_source item.source) f.source
                        && within_window item.created_at f)))))

abbrev pub key_of : Value → Text → Option Value
key_of (struct_value o) k = get k o
key_of (string_value t) k = none
key_of (list_value vs) k = none
key_of (other_value n) k = none

abbrev pub has_string : Text → Values → Bool
has_string want no_values = false
has_string want (value v vs) = is_text (as_str (some v)) want || has_string want vs

abbrev pub lists_string : Text → Option Value → Bool
lists_string want (some (list_value vs)) = has_string want vs
lists_string want (some (string_value t)) = false
lists_string want (some (struct_value o)) = false
lists_string want (some (other_value n)) = false
lists_string want none = false

unfoldable pub payload_matches_filters : Value → RetrievalFilters → Bool
payload_matches_filters payload f =
    wanted (is_text (as_str (key_of payload (codes "host")))) f.host
    && (wanted (is_text (as_str (key_of payload (codes "repo")))) f.repo
        && (wanted (is_text (as_str (key_of payload (codes "file")))) f.file
            && wanted (λ want. lists_string want (key_of payload (codes "tags"))) f.tag))

unfoldable pub fact_matches_filters : Fact → RetrievalFilters → Bool
fact_matches_filters fact f =
    wanted (type_eq fact.fact_type) f.type_
    && (wanted (same_source fact.source) f.source
        && (payload_matches_filters fact.payload f && within_window fact.created_at f))

unfoldable pub event_matches_filters : Event → RetrievalFilters → Bool
event_matches_filters event f =
    not (is_some f.type_)
    && (wanted (same_source event.source) f.source
        && (payload_matches_filters event.payload f && within_window event.created_at f))
