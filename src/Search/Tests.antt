-- ===== src/Search/Tests.antt =====
-- Searches in a small store with a failing model server, and in a store that fails.
use klams.Common.{
  ℕ, ◌≡◌, refl, Option, none, some, List, [], ◌∷◌, arith, map, false, Result, ok, err, codes,
  text_eq, trim, trim_start, trim_end,
}
use klams.Common.Sort.{sort_by, insert}
use klams.Common.Rearrange.{Rearranged, same, exchange}
use klams.Floats.{milli}
use klams.Hybrid.{fuse, rrf_sources, rrf_rows, bump, put, scored, finalize, source_order}
use klams.Dedupe.{collapse_duplicates, collapse_from, survivor, push_copy}
use klams.Rerank.Stage.{rerank, rerank_stage}
use klams.Search.{
  KnowledgeItem, PublicMemory, project_knowledge, knowledge_matches_filters, within_window,
  fact_matches_filters, payload_matches_filters,
}
use klams.Search.Store.{unknown, RetrievalError}
use klams.Search.Knowledge.{knowledge_candidates, global_arm, resolve_knowledge_authors, join_lists}
use klams.Search.Weights.{boost_threshold, knowledge_weight, classify, weight, volatility_demotion}
use klams.Search.Texts.{fts_candidates, walk_hits}
use klams.Search.Pipeline.{
  hard_fail, degrade, SearchOutcome, Row, collapse_duplicates_in_place, renumber_source_ranks,
  fuse_in_place,
}
use klams.Search.Run.{validated, search}
use klams.Search.Results.{Found}
use klams.Search.Ranking.{IsFalling, search-IsFalling}
use klams.Search.HashOrder.{search-into_values}
use klams.Search.Related.{related}
use klams.Search.Neighbours.{AreNeighbours, related-AreNeighbours}
use klams.Search.Logs.{Logs, search_logged, classify_miss}
use klams.Search.Logged.{AreTrue, search_logged-AreTrue}
use klams.Search.Answers.{search-Found, search-degrade}
use klams.Search.Sample.{item, small, broken, powf, age, in_order, config, params}

abbrev Reply : Type 0
Reply = Result RetrievalError (Option (SearchOutcome milli))

abbrev no_hits : SearchOutcome milli
no_hits = record { hits = []; degraded = false }

-- The outcome, where there is one.
abbrev outcome_in : Reply → SearchOutcome milli
outcome_in (ok (some out)) = out
outcome_in (ok none) = no_hits
outcome_in (err e) = no_hits

abbrev ids_in : SearchOutcome milli → List ℕ
ids_in out = map (λ h. h.memory.id) out.hits

run : Reply
run = search milli small powf age in_order config params hard_fail

-- The item on two lists leads; its neighbour stands for both copies of its content; the fact is third.
run-ids :
    (search milli small powf age in_order config params hard_fail ≡ ok (some (outcome_in run)))
    × (ids_in (outcome_in run) ≡ 13 ∷ 11 ∷ [])
unfolding run search trim trim_start trim_end knowledge_candidates global_arm
    resolve_knowledge_authors sort_by insert boost_threshold knowledge_weight classify weight
    volatility_demotion join_lists knowledge_matches_filters within_window fts_candidates walk_hits
    fact_matches_filters payload_matches_filters collapse_duplicates_in_place collapse_duplicates
    collapse_from survivor push_copy text_eq renumber_source_ranks rerank_stage rerank fuse_in_place
    fuse rrf_sources rrf_rows bump put scored finalize source_order
run-ids = (refl, refl)

search-Found_example :
    (out : SearchOutcome milli) × ((some (outcome_in run) ≡ some out)
      × Found milli small params hard_fail out)
search-Found_example =
    search-Found milli small powf age in_order config params hard_fail (some (outcome_in run))
      run-ids.0

search-IsFalling_example : IsFalling milli (λ x. x) (outcome_in run).hits
search-IsFalling_example =
    search-IsFalling milli (λ x. x) (λ x y. refl) in_order (λ rows. same rows) small powf age config
      params hard_fail (outcome_in run) run-ids.0

abbrev swapped : List (Row milli) → List (Row milli)
swapped [] = []
swapped (x ∷ []) = x ∷ []
swapped (x ∷ y ∷ rows) = y ∷ x ∷ rows

swapped-Rearranged : (rows : List (Row milli)) → Rearranged rows (swapped rows)
swapped-Rearranged [] = same []
swapped-Rearranged (x ∷ []) = same (x ∷ [])
swapped-Rearranged (x ∷ y ∷ rows) = exchange x y rows

search-into_values_example :
    search milli small powf age in_order config params hard_fail
    ≡ search milli small powf age swapped config params hard_fail
search-into_values_example =
    search-into_values milli (λ x. x) (λ x y. refl) in_order swapped (λ rows. same rows)
      swapped-Rearranged small powf age config params hard_fail

valid_lem : validated params ≡ ok (codes "klams", 2)
unfolding trim trim_start trim_end
valid_lem = refl

search-degrade_example :
    (out : SearchOutcome milli) × ((search milli broken powf age in_order config params degrade
        ≡ ok (some out))
      × Found milli broken params degrade out)
search-degrade_example =
    search-degrade milli broken powf age in_order config params (codes "klams", 2) valid_lem

abbrev near : List (KnowledgeItem × ℕ)
near =
    (item 11 (codes "kai") (codes "h"), 800)
    ∷ (item 12 (codes "kubs0") (codes "h"), 790)
    ∷ (item 13 (codes "kai") (codes "i"), 600)
    ∷ []

related-AreNeighbours_example :
    (mems : List PublicMemory) × ((related milli small 11 (some 2) ≡ ok mems)
      × AreNeighbours milli near 11 (some (codes "h")) 2 mems)
related-AreNeighbours_example =
    related-AreNeighbours milli small 11 (some 2) tt near (omega arith) (omega arith) refl refl refl

-- The neighbour on the other host has the item's content, and is left out.
related-ids :
    related milli small 11 (some 2)
    ≡ ok (project_knowledge (item 13 (codes "kai") (codes "i")) unknown ∷ [])
unfolding related resolve_knowledge_authors sort_by insert text_eq collapse_duplicates_in_place
    collapse_duplicates collapse_from survivor push_copy
related-ids = refl

abbrev no_logs : Logs milli
no_logs = record {
  miss = none;
  sample = record {
    query = [];
    caller = [];
    top_raw_score = none;
    top_kind = none;
    hit_count = 0;
    kinds = [];
    duplicates_collapsed = 0;
  };
}

abbrev logs_in : Result RetrievalError (Option (SearchOutcome milli × Logs milli)) → Logs milli
logs_in (ok (some x)) = x.1
logs_in (ok none) = no_logs
logs_in (err e) = no_logs

logged : Result RetrievalError (Option (SearchOutcome milli × Logs milli))
logged = search_logged milli small powf age in_order config params hard_fail none

-- Three memories after one copy is collapsed; the best raw score is no miss.
logged_lem :
    (search_logged milli small powf age in_order config params hard_fail none
      ≡ ok (some (outcome_in run, logs_in logged)))
    × ((logs_in logged).miss ≡ none)
    × ((logs_in logged).sample.hit_count ≡ 3)
    × ((logs_in logged).sample.duplicates_collapsed ≡ 1)
unfolding run logged search search_logged classify_miss trim trim_start trim_end
    knowledge_candidates global_arm resolve_knowledge_authors sort_by insert boost_threshold
    knowledge_weight classify weight volatility_demotion join_lists knowledge_matches_filters
    within_window fts_candidates walk_hits fact_matches_filters payload_matches_filters
    collapse_duplicates_in_place collapse_duplicates collapse_from survivor push_copy text_eq
    renumber_source_ranks rerank_stage rerank fuse_in_place fuse rrf_sources rrf_rows bump put
    scored finalize source_order
logged_lem = (refl, refl, refl, refl)

search_logged-AreTrue_example :
    (search milli small powf age in_order config params hard_fail ≡ ok (some (outcome_in run)))
    × AreTrue milli 2 (outcome_in run).hits (logs_in logged)
search_logged-AreTrue_example =
    search_logged-AreTrue milli small powf age in_order config params none hard_fail
      (outcome_in run) (logs_in logged) logged_lem.0
