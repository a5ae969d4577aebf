-- ===== src/Search/Knowledge.antt =====
-- crates/klams-core/src/retrieval.rs: the knowledge of a search, from the store to one list with its
-- weights and the two auxiliary orders.
use klams.Common.{
  ℕ, suc, ◌-◌, ◌*◌, ◌^◌, min, max, Bool, true, ◌&&◌, Option, none, some, List, [], ◌∷◌, ◌++◌, map,
  if◌then◌else◌, ◌==◌, leb, take, filter_by, any, is_empty, Result, ok, err, Text,
}
use klams.Common.Sort.{sort_by}
use klams.Facts.{StoreError}
use klams.Floats.{F32}
use klams.Rerank.{Scored, rank_u32}
use klams.Search.{
  KnowledgeItem, PublicAuthorRef, PublicMemory, RetrievalFilters, filters_active,
  knowledge_matches_filters, project_knowledge,
}
use klams.Search.Store.{
  AuthorRecord, from_record, unknown, RetrievalError, embed_error, backend_error, try_with,
  value_of, Store,
}
use klams.Search.Weights.{boost_threshold, knowledge_weight, at_least, max_of}

abbrev pub saturating_mul : ℕ → ℕ → ℕ
saturating_mul a b = min (a * b) (2 ^ 32 - 1)

-- `dedup` of a sorted list.
abbrev pub dedup_from : ℕ → List ℕ → List ℕ
dedup_from x [] = []
dedup_from x (y ∷ ys) = let rest = dedup_from y ys in if x == y then rest else y ∷ rest

abbrev pub dedup : List ℕ → List ℕ
dedup [] = []
dedup (x ∷ xs) = x ∷ dedup_from x xs

abbrev pub sorted_once : List ℕ → List ℕ
sorted_once ids = dedup (sort_by leb ids)

pub record KnowledgeAuthors : Type 0 where
  pub author_map : List (ℕ × ℕ)
  pub authors : List (ℕ × PublicAuthorRef)

abbrev pub found_or_unknown : Option PublicAuthorRef → PublicAuthorRef
found_or_unknown none = unknown
found_or_unknown (some a) = a

abbrev pub author_at : Option ℕ → List (ℕ × PublicAuthorRef) → Option PublicAuthorRef
author_at none authors = none
author_at (some aid) authors = value_of aid authors

abbrev pub author_ref_for : KnowledgeAuthors → ℕ → PublicAuthorRef
author_ref_for a id = found_or_unknown (author_at (value_of id a.author_map) a.authors)

-- The page while the lists join it; `present` holds the ids on it.
pub record KnowledgePage (f : F32) : Type 0 where
  pub present : List ℕ
  pub next_rank : ℕ
  pub weights : List (ℕ × f.Float)
  pub scored : List (Scored f.Float PublicMemory)

pub record KnowledgeCandidates (f : F32) : Type 0 where
  pub scored : List (Scored f.Float PublicMemory)
  pub weights : List (ℕ × f.Float)
  pub curated_order : List ℕ
  pub lexical_order : List ℕ

module _ (f : F32) (s : Store f) where
  abbrev pub or_no_rows : Result StoreError (List (ℕ × ℕ)) → List (ℕ × ℕ)
  or_no_rows (ok rows) = rows
  or_no_rows (err e) = []

  abbrev pub author_row :
      ℕ
      → Result StoreError (Option AuthorRecord)
      → List (ℕ × PublicAuthorRef)
      → List (ℕ × PublicAuthorRef)
  author_row aid (ok (some a)) rows = (aid, from_record a) ∷ rows
  author_row aid (ok none) rows = rows
  author_row aid (err e) rows = rows

  abbrev pub author_rows : List ℕ → List (ℕ × PublicAuthorRef)
  author_rows [] = []
  author_rows (aid ∷ aids) = author_row aid (s.get_author_by_id aid) (author_rows aids)

  unfoldable pub resolve_knowledge_authors : List ℕ → KnowledgeAuthors
  resolve_knowledge_authors ids =
      let author_map = or_no_rows (s.knowledge_authors_by_ids (sorted_once ids)) in
      record {
        author_map = author_map;
        authors = author_rows (sorted_once (map (λ row. row.1) author_map));
      }

  abbrev pub or_untagged :
      s.Vector
      → ℕ
      → Result StoreError (List (KnowledgeItem × f.Float))
      → Result StoreError (List (KnowledgeItem × f.Float))
  or_untagged embedding fetch_k (ok hits) = ok hits
  or_untagged embedding fetch_k (err e) = s.search_knowledge embedding fetch_k

  unfoldable pub global_arm :
      s.Vector → List Text → ℕ → Result StoreError (List (KnowledgeItem × f.Float))
  global_arm embedding want_tags fetch_k =
      if is_empty want_tags
      then s.search_knowledge embedding fetch_k
      else or_untagged embedding fetch_k (s.search_knowledge_tagged embedding want_tags fetch_k)

  abbrev pub top_of : f.Float → List (KnowledgeItem × f.Float) → f.Float
  top_of m [] = m
  top_of m (h ∷ hits) = top_of (max_of f m h.1) hits

  abbrev pub matching :
      RetrievalFilters → List (KnowledgeItem × f.Float) → List (KnowledgeItem × f.Float)
  matching filters hits = filter_by (λ h. knowledge_matches_filters h.0 filters) hits

  module _ (powf : f.Float → f.Float → f.Float) (seconds_since : ℕ → f.Float)
      (authors : KnowledgeAuthors) where
    -- One hit at the end of the list.
    abbrev pub push_hit :
        (boosted : f.Float → Bool) → KnowledgeItem × f.Float → KnowledgePage f → KnowledgePage f
    push_hit boosted (item, score) page =
        let author_ref = author_ref_for authors item.id in
        record {
          present = item.id ∷ page.present;
          next_rank = suc page.next_rank;
          weights =
              (
                item.id,
                knowledge_weight f powf seconds_since item author_ref.agent_name (boosted score),
              )
              ∷ page.weights;
          scored =
              page.scored
              ++ record {
                score = score;
                source_rank = rank_u32 page.next_rank;
                mem = project_knowledge item author_ref;
              }
                ∷ [];
        }

    abbrev pub push_all :
        (boosted : f.Float → Bool)
        → List (KnowledgeItem × f.Float)
        → KnowledgePage f
        → KnowledgePage f
    push_all boosted [] page = page
    push_all boosted (h ∷ hits) page = push_all boosted hits (push_hit boosted h page)

    abbrev pub append_aux_list :
        (boosted : f.Float → Bool)
        → List (KnowledgeItem × f.Float)
        → KnowledgePage f
        → List ℕ × KnowledgePage f
    append_aux_list boosted [] page = ([], page)
    append_aux_list boosted (h ∷ hits) page =
        let rest =
          append_aux_list boosted hits
            (if any (λ i. i == h.0.id) page.present then page else push_hit boosted h page) in
        (h.0.id ∷ rest.0, rest.1)

    abbrev pub no_page : KnowledgePage f
    no_page = record { present = []; next_rank = 0; weights = []; scored = [] }

    unfoldable pub join_lists :
        f.Float → (hits curated lexical : List (KnowledgeItem × f.Float)) → KnowledgeCandidates f
    join_lists threshold hits curated_hits lexical_hits =
        let clears : f.Float → Bool = λ score. at_least f score threshold in
        let page = push_all clears hits no_page in
        let (curated_order, page) = append_aux_list (λ score. true) curated_hits page in
        let (lexical_order, page) = append_aux_list clears lexical_hits page in
        record {
          scored = page.scored;
          weights = page.weights;
          curated_order = curated_order;
          lexical_order = lexical_order;
        }

  module _ (powf : f.Float → f.Float → f.Float) (seconds_since : ℕ → f.Float) where
    -- The lists, none if all are empty.
    abbrev pub gathered :
        (hits all_curated lexical_hits : List (KnowledgeItem × f.Float))
        → Option (KnowledgeCandidates f)
    gathered hits all_curated lexical_hits =
        let top_raw = top_of (f.of_nat 0) (hits ++ all_curated) in
        let threshold = boost_threshold f top_raw in
        let curated_hits = filter_by (λ h. at_least f h.1 threshold) all_curated in
        let ids = map (λ h. h.0.id) (hits ++ (curated_hits ++ lexical_hits)) in
        if is_empty hits && (is_empty curated_hits && is_empty lexical_hits)
        then none
        else some (
            join_lists powf seconds_since (resolve_knowledge_authors ids) threshold hits
              curated_hits lexical_hits)

    abbrev pub overfetch : RetrievalFilters → ℕ
    overfetch filters = if filters_active filters then max 2 3 else 2

    unfoldable pub knowledge_candidates :
        Text
        → ℕ
        → RetrievalFilters
        → List Text
        → Result RetrievalError (Option (KnowledgeCandidates f))
    knowledge_candidates query top_k filters want_tags =
        try_with embed_error (s.embed_query query) (λ embedding.
          try_with backend_error
            (global_arm embedding want_tags (saturating_mul top_k (overfetch filters)))
            (λ raw_hits.
              try_with backend_error (s.search_knowledge_curated embedding top_k) (λ curated.
                try_with backend_error (s.search_knowledge_lexical query embedding top_k)
                  (λ lexical.
                    let hits = take (saturating_mul top_k 2) (matching filters raw_hits) in
                    ok (gathered hits (matching filters curated) (matching filters lexical))))))
