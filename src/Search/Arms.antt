-- ===== src/Search/Arms.antt =====
-- What holds of a reply, and the facts and events that a search gets, whatever the store answers.
use klams.Common.{
  ℕ, suc, ◌≡◌, refl, inl, inr, Bool, true, false, not, Option, none, some, List, [], ◌∷◌, ◌==◌, leb,
  map, All, All-append, Result, ok, err, Text, Bool-cases,
}
use klams.Facts.{StoreError}
use klams.Floats.{F32}
use klams.Search.{
  Fact, Event, PublicAuthorRef, PublicMemory, RetrievalFilters, fact_matches_filters,
  event_matches_filters, project_fact, project_event,
}
use klams.Search.Store.{
  AuthorRecord, from_record, Store, RetrievalError, backend_error, try_with, then_ok, value_of,
}
use klams.Search.Texts.{collected, removed, walk_hits, hit_row, arm, fts_candidates}
use klams.Search.Replies.{
  Replied, Holds, reply-Replied, IfSome, Rows, value_of-IfSome, collected-Rows,
}
use klams.Search.Pipeline.{Entry}
use klams.Search.Stages.{All-filter_by}

-- What holds of the result, if there is one.
abbrev pub Good : {A : Type 0} → (A → Type 0) → Result RetrievalError A → Type 0
Good P (ok a) = P a
Good P (err e) = Unit

pub try_with-Good :
    {A B : Type 0} (P : B → Type 0) (wrap : StoreError → RetrievalError) (r : Result StoreError A)
    (rest : A → Result RetrievalError B)
    → ((a : A) → Good P (rest a))
    → Good P (try_with wrap r rest)
try_with-Good P wrap (ok a) rest h = h a
try_with-Good P wrap (err e) rest h = tt

pub try_with-Holds :
    {A B : Type 0} (Q : A → Type 0) (P : B → Type 0) (wrap : StoreError → RetrievalError)
    (r : Result StoreError A) (rest : A → Result RetrievalError B)
    → Holds Q r
    → ((a : A) → Q a → Good P (rest a))
    → Good P (try_with wrap r rest)
try_with-Holds Q P wrap (ok a) rest g h = h a g
try_with-Holds Q P wrap (err e) rest g h = tt

pub then_ok-Good :
    {A B : Type 0} (Q : A → Type 0) (P : B → Type 0) (r : Result RetrievalError A)
    (rest : A → Result RetrievalError B)
    → Good Q r
    → ((a : A) → Q a → Good P (rest a))
    → Good P (then_ok r rest)
then_ok-Good Q P (ok a) rest g h = h a g
then_ok-Good Q P (err e) rest g h = tt

module _ (f : F32) (P : PublicMemory → Type 0) where
  abbrev pub Each : List (Entry f) → Type 0
  Each es = All (λ (e : Entry f). P e.mem) es

  module _ {T : Type 0} (Q : T × AuthorRecord → Type 0) (matches : T → Bool)
      (project : T → PublicAuthorRef → PublicMemory) (top_k : ℕ)
      (h : (t : T) (a : AuthorRecord)
        → matches t ≡ true
        → Q (t, a)
        → P (project t (from_record a))) where
    walk_hits-Each :
        (scores : List (ℕ × f.Float)) (hits : List (ℕ × f.Float)) (rank : ℕ)
        (rows : List (ℕ × (T × AuthorRecord)))
        → Rows Q rows
        → Each (walk_hits f matches project top_k scores hits rank rows)
    unfolding walk_hits
    walk_hits-Each scores [] rank rows q = tt
    walk_hits-Each scores (x ∷ hits) rank rows q =
        by_row (value_of x.0 rows) (value_of-IfSome Q x.0 rows q)
          (λ r m k. walk_hits-Each scores hits r m k)
      where
        by_row :
            (o : Option (T × AuthorRecord))
            → IfSome Q o
            → ((r : ℕ) (m : List (ℕ × (T × AuthorRecord)))
                → Rows Q m
                → Each (walk_hits f matches project top_k scores hits r m))
            → Each (
                hit_row f matches project top_k scores x.0 o rank rows
                  (λ r m. walk_hits f matches project top_k scores hits r m))
        by_row none k ih = ih rank rows q
        by_row (some (t, a)) k ih =
            let left =
              All-filter_by _ (λ (row : ℕ × (T × AuthorRecord)). not (row.0 == x.0)) rows q in
            elim (Bool-cases (matches t)) [
              | inr e ↦ rw e (ih rank (removed x.0 rows) left)
              | inl e ↦ elim (Bool-cases (leb top_k rank)) [
                | inl y ↦ rw (e, y) tt
                | inr y ↦ rw (e, y) (h t a e k, ih (suc rank) (removed x.0 rows) left)
              ]
            ]

  arm-Each :
      {T : Type 0} (want : Bool) (hits : List (ℕ × f.Float))
      (fetch : List ℕ → Result StoreError (List (T × AuthorRecord))) (id_of : T → ℕ)
      (matches : T → Bool) (project : T → PublicAuthorRef → PublicMemory) (top_k : ℕ)
      → ((t : T) (a : AuthorRecord) (ids : List ℕ)
          → Replied (t, a) (fetch ids)
          → want ≡ true
          → matches t ≡ true
          → P (project t (from_record a)))
      → Good Each (arm f want hits fetch id_of matches project top_k)
  arm-Each false hits fetch id_of matches project top_k h = tt
  arm-Each true [] fetch id_of matches project top_k h = tt
  arm-Each {T} true (x ∷ hits) fetch id_of matches project top_k h =
      let ids = map (λ (h : ℕ × f.Float). h.0) (x ∷ hits) in
      let Q : T × AuthorRecord → Type 0 = λ r. Replied r (fetch ids) in
      try_with-Holds (All Q) Each backend_error (fetch ids) _ (reply-Replied (fetch ids))
        (λ rows all.
          walk_hits-Each Q matches project top_k (λ t a m q. h t a ids q refl m)
            (collected (λ h. h.0) (λ h. h.1) (x ∷ hits) []) (x ∷ hits) 0
            (collected (λ r. id_of r.0) (λ r. r) rows [])
            (collected-Rows Q (λ r. id_of r.0) (λ r. r) rows [] all tt))

  pub fts_candidates-Each :
      (s : Store f) (query : Text) (fetch_k top_k : ℕ) (want_fact want_event : Bool)
      (filters : RetrievalFilters)
      → ((t : Fact) (a : AuthorRecord) (ids : List ℕ)
          → Replied (t, a) (s.fetch_facts_with_authors ids)
          → want_fact ≡ true
          → fact_matches_filters t filters ≡ true
          → P (project_fact t (from_record a)))
      → ((t : Event) (a : AuthorRecord) (ids : List ℕ)
          → Replied (t, a) (s.fetch_events_with_authors ids)
          → want_event ≡ true
          → event_matches_filters t filters ≡ true
          → P (project_event t (from_record a)))
      → Good Each (fts_candidates f s query fetch_k top_k want_fact want_event filters)
  unfolding fts_candidates
  fts_candidates-Each s query fetch_k top_k want_fact want_event filters hf he =
      try_with-Good Each backend_error (s.search_text query fetch_k) _ (λ found.
        then_ok-Good Each Each
          (arm f want_fact found.0 s.fetch_facts_with_authors (λ t. t.id)
            (λ t. fact_matches_filters t filters) project_fact top_k)
          _
          (arm-Each want_fact found.0 s.fetch_facts_with_authors (λ t. t.id)
            (λ t. fact_matches_filters t filters) project_fact top_k hf)
          (λ facts af.
            then_ok-Good Each Each
              (arm f want_event found.1 s.fetch_events_with_authors (λ t. t.id)
                (λ t. event_matches_filters t filters) project_event top_k)
              _
              (arm-Each want_event found.1 s.fetch_events_with_authors (λ t. t.id)
                (λ t. event_matches_filters t filters) project_event top_k he)
              (λ events ae. All-append (λ (e : Entry f). P e.mem) facts events af ae)))
