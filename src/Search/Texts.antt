-- ===== src/Search/Texts.antt =====
-- crates/klams-core/src/retrieval.rs: the facts and events of a search, `fts_candidates`. The maps by
-- id are rows, the newest first. The loops over facts and over events are one function.
use klams.Common.{
  ℕ, suc, Bool, not, ◌&&◌, Option, none, some, List, [], ◌∷◌, ◌++◌, map, if◌then◌else◌, ◌==◌, leb,
  filter_by, is_empty, Result, ok, Text,
}
use klams.Facts.{StoreError}
use klams.Floats.{F32}
use klams.Rerank.{Scored, rank_u32}
use klams.Search.{
  PublicAuthorRef, PublicMemory, RetrievalFilters, fact_matches_filters, event_matches_filters,
  project_fact, project_event,
}
use klams.Search.Store.{
  AuthorRecord, from_record, Store, RetrievalError, backend_error, try_with, then_ok, value_of,
}

-- `into_iter().map(…).collect()` into a map
abbrev pub collected : {A B : Type 0} → (A → ℕ) → (A → B) → List A → List (ℕ × B) → List (ℕ × B)
collected key val [] rows = rows
collected key val (a ∷ as_) rows = collected key val as_ ((key a, val a) ∷ rows)

abbrev pub removed : {A : Type 0} → ℕ → List (ℕ × A) → List (ℕ × A)
removed id rows = filter_by (λ row. not (row.0 == id)) rows

module _ (f : F32) where
  abbrev pub or_zero : Option f.Float → f.Float
  or_zero none = f.of_nat 0
  or_zero (some s) = s

  module _ {T : Type 0} (matches : T → Bool) (project : T → PublicAuthorRef → PublicMemory)
      (top_k : ℕ) (scores : List (ℕ × f.Float)) where
    abbrev pub Rows : Type 0
    Rows = List (ℕ × (T × AuthorRecord))

    abbrev pub text_entry : ℕ → ℕ → T → AuthorRecord → Scored f.Float PublicMemory
    text_entry id rank t a = record {
      score = or_zero (value_of id scores);
      source_rank = rank_u32 rank;
      mem = project t (from_record a);
    }

    -- One hit, with the loop over the others from a rank and a map on.
    abbrev pub hit_row :
        ℕ
        → Option (T × AuthorRecord)
        → ℕ
        → Rows
        → (ℕ → Rows → List (Scored f.Float PublicMemory))
        → List (Scored f.Float PublicMemory)
    hit_row id none rank rows rest = rest rank rows
    hit_row id (some (t, a)) rank rows rest =
        let later = rest (if matches t then suc rank else rank) (removed id rows) in
        if not (matches t)
        then later
        else (if leb top_k rank then [] else text_entry id rank t a ∷ later)

    unfoldable pub walk_hits : List (ℕ × f.Float) → ℕ → Rows → List (Scored f.Float PublicMemory)
    walk_hits [] rank rows = []
    walk_hits (h ∷ hits) rank rows =
        hit_row h.0 (value_of h.0 rows) rank rows (λ r m. walk_hits hits r m)

  -- One kind: nothing is fetched if it is not wanted or has no hits.
  abbrev pub arm :
      {T : Type 0}
      → Bool
      → List (ℕ × f.Float)
      → (List ℕ → Result StoreError (List (T × AuthorRecord)))
      → (T → ℕ)
      → (T → Bool)
      → (T → PublicAuthorRef → PublicMemory)
      → ℕ
      → Result RetrievalError (List (Scored f.Float PublicMemory))
  arm want hits fetch id_of matches project top_k =
      if want && not (is_empty hits)
      then try_with backend_error (fetch (map (λ h. h.0) hits)) (λ rows. ok (
          walk_hits matches project top_k (collected (λ h. h.0) (λ h. h.1) hits []) hits 0
            (collected (λ r. id_of r.0) (λ r. r) rows [])))
      else ok []

  unfoldable pub fts_candidates :
      (s : Store f)
      → Text
      → (fetch_k top_k : ℕ) → (want_fact want_event : Bool) → RetrievalFilters
      → Result RetrievalError (List (Scored f.Float PublicMemory))
  fts_candidates s query fetch_k top_k want_fact want_event filters =
      try_with backend_error (s.search_text query fetch_k) (λ found.
        then_ok
          (arm want_fact found.0 s.fetch_facts_with_authors (λ t. t.id)
            (λ t. fact_matches_filters t filters) project_fact top_k)
          (λ facts.
            then_ok
              (arm want_event found.1 s.fetch_events_with_authors (λ e. e.id)
                (λ e. event_matches_filters e filters) project_event top_k)
              (λ events. ok (facts ++ events))))
