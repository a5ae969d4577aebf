-- ===== src/Search/Run.antt =====
-- crates/klams-core/src/retrieval.rs: `search` as a whole.
use klams.Common.{
  ℕ, Bool, false, not, ◌||◌, Option, none, some, List, [], ◌++◌, map, if◌then◌else◌, ◌==◌, ltb,
  take, any, is_empty, Result, ok, err, Text, trim, byte_len, unwrap_or,
}
use klams.Floats.{F32}
use klams.Rerank.{MemoryKind, fact, event, knowledge}
use klams.Search.{filters_active}
use klams.Search.Store.{Store, RetrievalError, empty_query, query_too_long, invalid_top_k, then_ok}
use klams.Search.Knowledge.{KnowledgeCandidates, knowledge_candidates, saturating_mul}
use klams.Search.Texts.{fts_candidates, collected}
use klams.Search.Pipeline.{
  SourceTolerance, SearchParams, RetrievalConfig, SearchOutcome, max_top_k, max_query_len,
  all_kinds, no_tags, same_kind, Entry, Lists, Row, no_candidates, tolerated, or_none, tagged,
  alive, reranked, hit_of, collapse_duplicates_in_place, renumber_source_ranks, fuse_in_place,
}

abbrev pub wants : SearchParams → MemoryKind → Bool
wants params k = any (λ x. same_kind x k) (unwrap_or params.kinds all_kinds)

abbrev pub checked_top_k : Text → ℕ → Result RetrievalError (Text × ℕ)
checked_top_k query top_k =
    if top_k == 0 || ltb max_top_k top_k then err invalid_top_k else ok (query, top_k)

-- The trimmed query and the number of hits that is asked for.
abbrev pub validated : SearchParams → Result RetrievalError (Text × ℕ)
validated params =
    let query = trim params.query in
    if is_empty query
    then err empty_query
    else (if ltb max_query_len (byte_len query)
        then err query_too_long
        else checked_top_k query (unwrap_or params.top_k 10))

module _ (f : F32) (s : Store f) (powf : f.Float → f.Float → f.Float) (seconds_since : ℕ → f.Float)
    (into_values : List (Row f) → List (Row f)) (config : RetrievalConfig f) where
  abbrev pub knowledge_arm :
      SearchParams
      → SourceTolerance
      → Text
      → ℕ
      → Result RetrievalError (KnowledgeCandidates f × Bool)
  knowledge_arm params tolerance query top_k =
      if wants params knowledge
      then tolerated f tolerance (no_candidates f) (
          or_none f (
            knowledge_candidates f s powf seconds_since query top_k params.filters
              (no_tags params.tags)))
      else ok (no_candidates f, false)

  abbrev pub fetch_size : SearchParams → ℕ → ℕ
  fetch_size params top_k =
      if filters_active params.filters || not (is_empty (no_tags params.tags))
      then saturating_mul top_k 3
      else top_k

  abbrev pub texts_arm :
      SearchParams → SourceTolerance → Text → ℕ → Result RetrievalError (List (Entry f) × Bool)
  texts_arm params tolerance query top_k =
      if wants params fact || wants params event
      then tolerated f tolerance [] (
          fts_candidates f s query (fetch_size params top_k) top_k (wants params fact)
            (wants params event) params.filters)
      else ok ([], false)

  -- The list before the rerank: tagged, collapsed and numbered anew.
  abbrev pub prepared : SearchParams → KnowledgeCandidates f → List (Entry f) → List (Entry f)
  prepared params k texts =
      renumber_source_ranks f
        (collapse_duplicates_in_place f (tagged f (no_tags params.tags) (k.scored ++ texts)))

  abbrev pub outcome :
      Bool
      → ℕ
      → List (ℕ × f.Float)
      → List (ℕ × f.Float)
      → Option (Lists f)
      → Option (SearchOutcome f)
  outcome degraded top_k weights raw none = none
  outcome degraded top_k weights raw (some (scored, (curated_order, lexical_order))) =
      some (record {
        hits = map (hit_of f raw) (
            take top_k (
              fuse_in_place f into_values scored config.fusion weights curated_order
                lexical_order));
        degraded = degraded;
      })

  -- The stages after the candidates.
  abbrev pub finished :
      SearchParams
      → Text
      → ℕ
      → KnowledgeCandidates f
      → List (Entry f)
      → Bool
      → Option (SearchOutcome f)
  finished params query top_k k texts degraded =
      let scored = prepared params k texts in
      let raw = collected (λ e. e.mem.id) (λ e. e.score) scored [] in
      outcome degraded top_k k.weights raw (
        reranked f config.reranker query config.rerank_window
          (scored, (alive f scored k.curated_order, alive f scored k.lexical_order)))

  abbrev pub run_arms :
      SearchParams
      → Text
      → ℕ
      → Result RetrievalError ((KnowledgeCandidates f × Bool) × (List (Entry f) × Bool))
      → Result RetrievalError (Option (SearchOutcome f))
  run_arms params query top_k (err e) = err e
  run_arms params query top_k (ok ((k, no_knowledge), (texts, no_texts))) =
      ok (finished params query top_k k texts (no_knowledge || no_texts))

  -- The knowledge, then facts and events.
  abbrev pub arms :
      SearchParams
      → SourceTolerance
      → Text
      → ℕ
      → Result RetrievalError ((KnowledgeCandidates f × Bool) × (List (Entry f) × Bool))
  arms params tolerance query top_k =
      then_ok (knowledge_arm params tolerance query top_k)
        (λ k. then_ok (texts_arm params tolerance query top_k) (λ t. ok (k, t)))

  -- An error, or the outcome; none is a panic.
  unfoldable pub search :
      SearchParams → SourceTolerance → Result RetrievalError (Option (SearchOutcome f))
  search params tolerance =
      then_ok (validated params) (λ q. run_arms params q.0 q.1 (arms params tolerance q.0 q.1))
