-- ===== src/Search/Pipeline.antt =====
-- crates/klams-core/src/retrieval.rs: the stages of `search` after the candidates. The order in which
-- a hash map gives its values is a parameter, `into_values`.
use klams.Common.{
  ℕ, suc, Bool, true, false, Option, none, some, List, [], ◌∷◌, ◌++◌, map, if◌then◌else◌, ◌==◌, leb,
  filter_by, any, all, is_empty, Result, ok, err, Text, text_eq, unwrap_or,
}
use klams.Common.Sort.{sort_by}
use klams.Floats.{F32}
use klams.Dedupe.{collapse_duplicates}
use klams.Hybrid.{RetrievalSource, vector, fts, RankedRow, FusionStrategy, fuse}
use klams.Rerank.{MemoryKind, fact, event, knowledge, Scored, usize_max}
use klams.Rerank.Stage.{RerankHit, RerankError, rerank_stage}
use klams.Search.{
  KnowledgeCopy, Content, fact_content, knowledge_content, event_content, PublicMemory,
  RetrievalFilters, kind, content_hash, set_copies,
}
use klams.Search.Store.{RetrievalError, value_of}
use klams.Search.Knowledge.{KnowledgeCandidates}

abbrev pub same_kind : MemoryKind → MemoryKind → Bool
same_kind fact fact = true
same_kind fact event = false
same_kind fact knowledge = false
same_kind event fact = false
same_kind event event = true
same_kind event knowledge = false
same_kind knowledge fact = false
same_kind knowledge event = false
same_kind knowledge knowledge = true

pub data SourceTolerance : Type 0 where
  hard_fail degrade : SourceTolerance

pub record SearchParams : Type 0 where
  pub query : Text
  pub kinds : Option (List MemoryKind)
  pub tags : Option (List Text)
  pub filters : RetrievalFilters
  pub top_k : Option ℕ

abbrev pub max_top_k : ℕ
max_top_k = 50

abbrev pub max_query_len : ℕ
max_query_len = 1024

abbrev pub place_in : Content → Option Text × Option Text
place_in (fact_content t p) = (none, none)
place_in (knowledge_content i cs) = (i.host, i.source_path)
place_in (event_content c p t) = (none, none)

abbrev pub text_in : Content → Text
text_in (fact_content t p) = []
text_in (knowledge_content i cs) = i.text
text_in (event_content c p t) = []

abbrev pub as_copy : PublicMemory → KnowledgeCopy
as_copy m = let place = place_in m.content in record { id = m.id; host = place.0; file = place.1 }

-- The next rank of each kind: knowledge, facts, events.
abbrev pub rank_in : MemoryKind → ℕ × (ℕ × ℕ) → ℕ
rank_in knowledge next = next.0
rank_in fact next = next.1.0
rank_in event next = next.1.1

abbrev pub counted : MemoryKind → ℕ × (ℕ × ℕ) → ℕ × (ℕ × ℕ)
counted knowledge next = (suc next.0, next.1)
counted fact next = (next.0, (suc next.1.0, next.1.1))
counted event next = (next.0, (next.1.0, suc next.1.1))

abbrev pub all_kinds : List MemoryKind
all_kinds = fact ∷ knowledge ∷ event ∷ []

abbrev pub no_tags : Option (List Text) → List Text
no_tags none = []
no_tags (some tags) = tags

module _ (f : F32) where
  abbrev pub Entry : Type 0
  Entry = Scored f.Float PublicMemory

  abbrev pub with_copies : Entry × List KnowledgeCopy → Entry
  with_copies (e, []) = e
  with_copies (e, c ∷ cs) = record e { mem = set_copies (c ∷ cs) e.mem }

  unfoldable pub collapse_duplicates_in_place : List Entry → List Entry
  collapse_duplicates_in_place scored = map with_copies (
      collapse_duplicates Entry KnowledgeCopy (λ e. content_hash e.mem) (λ e. as_copy e.mem) scored)

  abbrev pub renumber_from : ℕ × (ℕ × ℕ) → List Entry → List Entry
  renumber_from next [] = []
  renumber_from next (e ∷ es) =
      record e { source_rank = rank_in (kind e.mem) next }
      ∷ renumber_from (counted (kind e.mem) next) es

  unfoldable pub renumber_source_ranks : List Entry → List Entry
  renumber_source_ranks scored = renumber_from (0, (0, 0)) scored

  abbrev pub Row : Type 0
  Row = RankedRow f.Float Unit

  module _ (weights : List (ℕ × f.Float)) where
    abbrev pub row_of : RetrievalSource → ℕ → Row
    row_of source id = record {
      source = source;
      id = id;
      score = f.of_nat 0;
      weight = unwrap_or (value_of id weights) (f.of_nat 1);
      payload = tt;
    }

    -- The rows of a kind, in the order of the list.
    abbrev pub rows_of_kind : MemoryKind → RetrievalSource → List Entry → List Row
    rows_of_kind k source scored =
        map (λ e. row_of source e.mem.id) (filter_by (λ e. same_kind (kind e.mem) k) scored)

    abbrev pub order_rows : List ℕ → List (List Row)
    order_rows [] = []
    order_rows (id ∷ ids) = map (row_of vector) (id ∷ ids) ∷ []

    abbrev pub sources_of : List Entry → (curated_order lexical_order : List ℕ) → List (List Row)
    sources_of scored curated_order lexical_order =
        (rows_of_kind knowledge vector scored
          ∷ rows_of_kind fact fts scored
          ∷ rows_of_kind event fts scored
          ∷ [])
        ++ (order_rows curated_order ++ order_rows lexical_order)

  -- `order`: the position and the score of each id.
  abbrev pub positions : ℕ → List Row → List (ℕ × (ℕ × f.Float)) → List (ℕ × (ℕ × f.Float))
  positions pos [] rows = rows
  positions pos (r ∷ rs) rows = positions (suc pos) rs ((r.id, (pos, r.score)) ∷ rows)

  abbrev pub rescored : Option (ℕ × f.Float) → Entry → Entry
  rescored none e = e
  rescored (some p) e = record e { score = p.1 }

  abbrev pub position : Option (ℕ × f.Float) → ℕ
  position none = usize_max
  position (some p) = p.0

  abbrev pub by_position : List (ℕ × (ℕ × f.Float)) → Entry → Entry → Bool
  by_position order a b =
      leb (position (value_of a.mem.id order)) (position (value_of b.mem.id order))

  module _ (into_values : List Row → List Row) where
    unfoldable pub fuse_in_place :
        List Entry
        → FusionStrategy f.Float
        → (weights : List (ℕ × f.Float)) → (curated_order lexical_order : List ℕ) → List Entry
    fuse_in_place scored strategy weights curated_order lexical_order =
        let fused =
          fuse f Unit into_values (sources_of weights scored curated_order lexical_order)
            strategy in
        let order = positions 0 fused [] in
        sort_by (by_position order) (map (λ e. rescored (value_of e.mem.id order) e) scored)

  abbrev pub Reranker : Type 0
  Reranker = List Text → Result RerankError (List (RerankHit f.Float))

  pub record RetrievalConfig : Type 0 where
    pub fusion : FusionStrategy f.Float
    -- The model server, for the query
    pub reranker : Option (Text → Reranker)
    pub rerank_window : ℕ

  pub record ScoredMemory : Type 0 where
    pub score : f.Float
    pub source_rank : ℕ
    pub raw_score : Option f.Float
    pub memory : PublicMemory

  pub record SearchOutcome : Type 0 where
    pub hits : List ScoredMemory
    pub degraded : Bool

  abbrev pub no_candidates : KnowledgeCandidates f
  no_candidates = record { scored = []; weights = []; curated_order = []; lexical_order = [] }

  -- What an arm gives, and whether it failed; a failure ends the search under `hard_fail`.
  abbrev pub tolerated :
      {A : Type 0}
      → SourceTolerance
      → A
      → Result RetrievalError A
      → Result RetrievalError (A × Bool)
  tolerated tolerance nothing (ok a) = ok (a, false)
  tolerated hard_fail nothing (err e) = err e
  tolerated degrade nothing (err e) = ok (nothing, true)

  abbrev pub or_none :
      Result RetrievalError (Option (KnowledgeCandidates f))
      → Result RetrievalError (KnowledgeCandidates f)
  or_none (ok (some k)) = ok k
  or_none (ok none) = ok no_candidates
  or_none (err e) = err e

  abbrev pub has_tags : List Text → Entry → Bool
  has_tags want_tags e = all (λ t. any (λ m. text_eq m t) e.mem.tags) want_tags

  abbrev pub tagged : List Text → List Entry → List Entry
  tagged want_tags scored =
      if is_empty want_tags then scored else filter_by (has_tags want_tags) scored

  abbrev pub alive : List Entry → List ℕ → List ℕ
  alive scored ids = filter_by (λ id. any (λ e. e.mem.id == id) scored) ids

  abbrev pub Lists : Type 0
  Lists = List Entry × (List ℕ × List ℕ)

  -- none is a panic
  abbrev pub reranked : Option (Text → Reranker) → Text → ℕ → Lists → Option Lists
  reranked none query window l = some l
  reranked (some post) query window l =
      rerank_stage f (λ m. m.id) kind (λ m. text_in m.content) (post query) l window

  abbrev pub hit_of : List (ℕ × f.Float) → Entry → ScoredMemory
  hit_of raw e = record {
    score = e.score;
    source_rank = e.source_rank;
    raw_score = value_of e.mem.id raw;
    memory = e.mem;
  }
