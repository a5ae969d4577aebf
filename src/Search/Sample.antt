-- ===== src/Search/Sample.antt =====
-- A small store for the tests: one content on two hosts, and a fact; and a store that fails.
use klams.Common.{ℕ, none, some, List, [], ◌∷◌, ok, err, Text, codes}
use klams.Floats.{milli}
use klams.Decay.{env_fact}
use klams.Facts.{backend_unavailable, embedding, user, task}
use klams.Copies.{struct_value, no_fields}
use klams.Hybrid.{rrf_with}
use klams.Rerank.Stage.{transport}
use klams.Search.{KnowledgeItem, Fact, RetrievalFilters}
use klams.Search.Store.{AuthorRecord, Store}
use klams.Search.Pipeline.{SearchParams, RetrievalConfig, Row}

abbrev pub item : ℕ → Text → Text → KnowledgeItem
item id machine hash = record {
  id = id;
  text = codes "klams";
  content_hash = hash;
  source = task;
  tags = [];
  repo = some (codes "klams");
  file = none;
  machine = some machine;
  heading_path = none;
  language = none;
  chunk_index = none;
  volatility = none;
  supersedes = none;
  superseded_by = none;
  created_at = 10;
  updated_at = 10;
}

abbrev pub a_fact : Fact
a_fact = record {
  id = 21;
  fact_type = env_fact;
  payload = struct_value no_fields;
  source = user;
  created_at = 10;
  updated_at = 10;
}

abbrev pub claude : AuthorRecord
claude = record { id = 1; agent_name = codes "claude"; model = none; repo = none }

abbrev pub small : Store milli
small = record {
  Vector = Unit;
  embed_query = λ t. ok tt;
  search_knowledge = λ v n. ok (
      (item 11 (codes "kai") (codes "h"), 800)
      ∷ (item 12 (codes "kubs0") (codes "h"), 790)
      ∷ (item 13 (codes "kai") (codes "i"), 600)
      ∷ []);
  search_knowledge_tagged = λ v tags n. err backend_unavailable;
  search_knowledge_curated = λ v n. ok [];
  search_knowledge_lexical = λ t v n. ok ((item 13 (codes "kai") (codes "i"), 600) ∷ []);
  knowledge_authors_by_ids = λ ids. ok [];
  get_author_by_id = λ id. ok none;
  search_text = λ t n. ok ((21, 90) ∷ [], []);
  fetch_facts_with_authors = λ ids. ok ((a_fact, claude) ∷ []);
  fetch_events_with_authors = λ ids. ok [];
  get_point_vector = λ id. ok (some tt);
  get_knowledge = λ id. ok (some (item 11 (codes "kai") (codes "h")));
}

abbrev pub broken : Store milli
broken = record small {
  embed_query = λ t. err embedding;
  search_text = λ t n. err backend_unavailable;
}

abbrev pub powf : ℕ → ℕ → ℕ
powf x y = x

abbrev pub age : ℕ → ℕ
age t = 0

abbrev pub in_order : List (Row milli) → List (Row milli)
in_order rows = rows

abbrev pub config : RetrievalConfig milli
config = record {
  fusion = rrf_with 60;
  reranker = some (λ query texts. err transport);
  rerank_window = 50;
}

abbrev pub no_filters : RetrievalFilters
no_filters = record {
  host = none;
  type_ = none;
  tag = none;
  repo = none;
  file = none;
  source = none;
  since = none;
  until = none;
}

abbrev pub params : SearchParams
params = record {
  query = codes " klams ";
  kinds = none;
  tags = none;
  filters = no_filters;
  top_k = some 2;
}
