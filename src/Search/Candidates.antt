-- ===== src/Search/Candidates.antt =====
-- The knowledge that a search gets, whatever the store answers.
use klams.Common.{
  ℕ, ◌≡◌, inl, inr, Bool, true, ◌&&◌, Option, none, some, List, [], ◌∷◌, ◌++◌, ◌==◌, map, take, All,
  All-append, filter_by, any, is_empty, Result, ok, err, Text, Bool-cases,
}
use klams.Floats.{F32}
use klams.Rerank.Filter.{filter_by-All}
use klams.Timeline.Merge.{All-take}
use klams.Search.{
  KnowledgeItem, PublicAuthorRef, PublicMemory, RetrievalFilters, knowledge_matches_filters,
  project_knowledge,
}
use klams.Search.Weights.{at_least, boost_threshold}
use klams.Search.Store.{Store, RetrievalError, embed_error, backend_error}
use klams.Search.Knowledge.{
  KnowledgeAuthors, author_ref_for, KnowledgePage, KnowledgeCandidates, push_hit, push_all,
  append_aux_list, no_page, join_lists, gathered, knowledge_candidates, global_arm, matching,
  saturating_mul, overfetch, resolve_knowledge_authors, top_of,
}
use klams.Search.Replies.{
  Given, AllGiven, search_knowledge_curated-Given, search_knowledge_lexical-Given, global_arm-Given,
}
use klams.Search.Pipeline.{Entry, or_none}
use klams.Search.Stages.{All-filter_by}
use klams.Search.Arms.{Good, try_with-Good, try_with-Holds, Each}

module _ (f : F32) (P : PublicMemory → Type 0) where
  -- The page while every item that joins it has what P asks of its projection.
  abbrev Fit : Store f → RetrievalFilters → KnowledgeItem × f.Float → Type 0
  Fit s filters h = Given f s h.0 × (knowledge_matches_filters h.0 filters ≡ true)

  abbrev Fits : Store f → RetrievalFilters → List (KnowledgeItem × f.Float) → Type 0
  Fits s filters hits = All (Fit s filters) hits

  abbrev pub EachIf : Option (KnowledgeCandidates f) → Type 0
  EachIf none = Unit
  EachIf (some k) = Each f P k.scored

  module _ (powf : f.Float → f.Float → f.Float) (seconds_since : ℕ → f.Float) (s : Store f)
      (filters : RetrievalFilters)
      (g : (item : KnowledgeItem) (a : PublicAuthorRef)
        → Given f s item
        → knowledge_matches_filters item filters ≡ true
        → P (project_knowledge item a)) where
    push_all-Each :
        (authors : KnowledgeAuthors) (boosted : f.Float → Bool)
        (hits : List (KnowledgeItem × f.Float)) (page : KnowledgePage f)
        → Fits s filters hits
        → Each f P page.scored
        → Each f P (push_all f s powf seconds_since authors boosted hits page).scored
    push_all-Each authors boosted [] page fit h = h
    push_all-Each authors boosted (x ∷ hits) page fit h =
        push_all-Each authors boosted hits (push_hit f s powf seconds_since authors boosted x page)
          fit.1
          (All-append (λ (e : Entry f). P e.mem) page.scored _ h
            (g x.0 (author_ref_for authors x.0.id) fit.0.0 fit.0.1, tt))

    append_aux_list-Each :
        (authors : KnowledgeAuthors) (boosted : f.Float → Bool)
        (hits : List (KnowledgeItem × f.Float)) (page : KnowledgePage f)
        → Fits s filters hits
        → Each f P page.scored
        → Each f P (append_aux_list f s powf seconds_since authors boosted hits page).1.scored
    append_aux_list-Each authors boosted [] page fit h = h
    append_aux_list-Each authors boosted (x ∷ hits) page fit h =
        elim (Bool-cases (any (λ i. i == x.0.id) page.present)) [
          | inl e ↦ rw e (append_aux_list-Each authors boosted hits page fit.1 h)
          | inr e ↦ rw e (
              append_aux_list-Each authors boosted hits
                (push_hit f s powf seconds_since authors boosted x page) fit.1
                (All-append (λ (e : Entry f). P e.mem) page.scored _ h
                  (g x.0 (author_ref_for authors x.0.id) fit.0.0 fit.0.1, tt)))
        ]

    join_lists-Each :
        (authors : KnowledgeAuthors) (threshold : f.Float)
        (hits curated lexical : List (KnowledgeItem × f.Float))
        → Fits s filters hits
        → Fits s filters curated
        → Fits s filters lexical
        → Each f P (join_lists f s powf seconds_since authors threshold hits curated lexical).scored
    unfolding join_lists
    join_lists-Each authors threshold hits curated lexical a b c =
        let clears : f.Float → Bool = λ score. at_least f score threshold in
        let page =
          push_all f s powf seconds_since authors clears hits
            (no_page f s powf seconds_since authors) in
        let one = push_all-Each authors clears hits (no_page f s powf seconds_since authors) a tt in
        let two = append_aux_list-Each authors (λ score. true) curated page b one in
        append_aux_list-Each authors clears lexical
          (append_aux_list f s powf seconds_since authors (λ score. true) curated page).1 c two

    gathered-Each :
        (hits curated lexical : List (KnowledgeItem × f.Float))
        → Fits s filters hits
        → Fits s filters curated
        → Fits s filters lexical
        → EachIf (gathered f s powf seconds_since hits curated lexical)
    gathered-Each hits curated lexical a b c =
        let threshold = boost_threshold f (top_of f s (f.of_nat 0) (hits ++ curated)) in
        let kept = filter_by (λ (h : KnowledgeItem × f.Float). at_least f h.1 threshold) curated in
        let fit =
          All-filter_by (Fit s filters) (λ (h : KnowledgeItem × f.Float). at_least f h.1 threshold)
            curated b in
        let authors =
          resolve_knowledge_authors f s
            (map (λ (h : KnowledgeItem × f.Float). h.0.id) (hits ++ (kept ++ lexical))) in
        let each = join_lists-Each authors threshold hits kept lexical a fit c in
        elim (Bool-cases (is_empty hits && (is_empty kept && is_empty lexical))) [
          | inl e ↦ rw e tt
          | inr e ↦ rw e each
        ]

    both :
        (hits : List (KnowledgeItem × f.Float))
        → AllGiven f s hits
        → All (λ (h : KnowledgeItem × f.Float). knowledge_matches_filters h.0 filters ≡ true) hits
        → Fits s filters hits
    both [] a b = tt
    both (h ∷ hits) a b = ((a.0, b.0), both hits a.1 b.1)

    matching-Fits :
        (hits : List (KnowledgeItem × f.Float))
        → AllGiven f s hits
        → Fits s filters (matching f s filters hits)
    matching-Fits hits all =
        let test : KnowledgeItem × f.Float → Bool = λ h. knowledge_matches_filters h.0 filters in
        both (filter_by test hits)
          (All-filter_by (λ (h : KnowledgeItem × f.Float). Given f s h.0) test hits all)
          (filter_by-All test hits)

    pub knowledge_candidates-Each :
        (query : Text) (top_k : ℕ) (want_tags : List Text)
        → Good EachIf (knowledge_candidates f s powf seconds_since query top_k filters want_tags)
    unfolding knowledge_candidates
    knowledge_candidates-Each query top_k want_tags =
        let size = saturating_mul top_k (overfetch f s powf seconds_since filters) in
        let limit = saturating_mul top_k 2 in
        try_with-Good EachIf embed_error (s.embed_query query) _ (λ v.
          try_with-Holds (AllGiven f s) EachIf backend_error (global_arm f s v want_tags size) _
            (global_arm-Given f s v want_tags size)
            (λ raw a.
              try_with-Holds (AllGiven f s) EachIf backend_error
                (s.search_knowledge_curated v top_k) _ (search_knowledge_curated-Given f s v top_k)
                (λ curated b.
                  try_with-Holds (AllGiven f s) EachIf backend_error
                    (s.search_knowledge_lexical query v top_k) _
                    (search_knowledge_lexical-Given f s query v top_k)
                    (λ lexical c.
                      gathered-Each (take limit (matching f s filters raw))
                        (matching f s filters curated) (matching f s filters lexical)
                        (All-take (Fit s filters) limit (matching f s filters raw)
                          (matching-Fits raw a))
                        (matching-Fits curated b) (matching-Fits lexical c)))))

  pub or_none-Each :
      (r : Result RetrievalError (Option (KnowledgeCandidates f)))
      → Good EachIf r
      → Good (λ (k : KnowledgeCandidates f). Each f P k.scored) (or_none f r)
  or_none-Each (ok (some k)) h = h
  or_none-Each (ok none) h = tt
  or_none-Each (err e) h = tt
