-- ===== src/Search/Related.antt =====
-- crates/klams-core/src/retrieval.rs: `related`, the neighbours of an item. The nil id is 0.
use klams.Common.{
  ℕ, suc, ◌+◌, Bool, not, ◌||◌, ◌&&◌, Option, none, some, List, [], ◌∷◌, map, if◌then◌else◌, ◌==◌,
  ltb, take, filter_by, is_empty, unwrap_or, Result, ok, err, Text,
}
use klams.Facts.{StoreError}
use klams.Floats.{F32}
use klams.Rerank.{rank_u32}
use klams.Search.{KnowledgeItem, PublicMemory, is_text, project_knowledge}
use klams.Search.Store.{Store, RetrievalError, invalid_top_k, not_found, backend_error, try_with}
use klams.Search.Knowledge.{
  saturating_mul, KnowledgeAuthors, author_ref_for, resolve_knowledge_authors,
}
use klams.Search.Pipeline.{Entry, max_top_k, collapse_duplicates_in_place}

abbrev pub seed_hash : Result StoreError (Option KnowledgeItem) → Option Text
seed_hash (ok (some item)) = some item.content_hash
seed_hash (ok none) = none
seed_hash (err e) = none

-- Another item, with another content than the seed's, if that is known.
abbrev pub is_neighbour : ℕ → Option Text → ℕ → Text → Bool
is_neighbour id seed i hash = not (i == id) && not (is_text seed hash)

module _ (f : F32) where
  abbrev pub entries : KnowledgeAuthors → ℕ → List (KnowledgeItem × f.Float) → List (Entry f)
  entries authors rank [] = []
  entries authors rank ((item, score) ∷ hits) =
      record {
        score = score;
        source_rank = rank_u32 rank;
        mem = project_knowledge item (author_ref_for authors item.id);
      }
      ∷ entries authors (suc rank) hits

  module _ (s : Store f) where
    -- The neighbours among the hits.
    abbrev pub neighbours : ℕ → ℕ → List (KnowledgeItem × f.Float) → List PublicMemory
    neighbours id top_k raw =
        let seed = seed_hash (s.get_knowledge id) in
        let hits = filter_by (λ h. is_neighbour id seed h.0.id h.0.content_hash) raw in
        let authors = resolve_knowledge_authors f s (map (λ h. h.0.id) hits) in
        let scored = collapse_duplicates_in_place f (entries authors 0 hits) in
        if is_empty hits then [] else map (λ e. e.mem) (take top_k scored)

    abbrev pub from_vector : ℕ → ℕ → Option s.Vector → Result RetrievalError (List PublicMemory)
    from_vector id top_k none = err not_found
    from_vector id top_k (some vector) =
        try_with backend_error (s.search_knowledge vector (saturating_mul (top_k + 1) 2))
          (λ raw. ok (neighbours id top_k raw))

    unfoldable pub related : ℕ → Option ℕ → Result RetrievalError (List PublicMemory)
    related id asked =
        let top_k = unwrap_or asked 5 in
        if top_k == 0 || ltb max_top_k top_k
        then err invalid_top_k
        else (if id == 0
            then err not_found
            else try_with backend_error (s.get_point_vector id) (from_vector id top_k))
