-- ===== src/Search/Answers.antt =====
-- The whole search: what its outcomes hold, and when it has one.
use klams.Common.{
  ℕ, ◌≤◌, ◌≡◌, refl, sym, ap, ◌∙◌, inl, inr, Bool, true, false, ◌||◌, Option, none, some, List, [],
  if◌then◌else◌, ◌==◌, ltb, arith, is_empty, unwrap_or, Result, ok, err, Text, trim, byte_len,
  Bool-cases,
}
use klams.Floats.{F32}
use klams.Rerank.{fact, event, knowledge}
use klams.Search.Store.{Store, RetrievalError}
use klams.Search.Knowledge.{KnowledgeCandidates, knowledge_candidates}
use klams.Search.Texts.{fts_candidates}
use klams.Search.Pipeline.{
  SourceTolerance, hard_fail, degrade, SearchParams, RetrievalConfig, SearchOutcome, max_top_k,
  max_query_len, no_tags, Entry, Row, no_candidates, tolerated, or_none,
}
use klams.Search.Run.{wants, validated, knowledge_arm, texts_arm, fetch_size, run_arms, search}
use klams.Search.Origins.{Comes, of_knowledge, of_fact, of_event}
use klams.Search.Results.{Quiet, Found, ComeBy, finished-Found}
use klams.Search.Candidates.{or_none-Each, knowledge_candidates-Each}
use klams.Search.Arms.{Good, then_ok-Good, fts_candidates-Each}

-- The number of hits that is asked for, within the limit.
abbrev pub Asked : SearchParams → Text × ℕ → Type 0
Asked params q = (q.1 ≡ unwrap_or params.top_k 10) × (1 ≤ q.1) × (q.1 ≤ max_top_k)

pub validated-Asked : (params : SearchParams) → Good (Asked params) (validated params)
validated-Asked params = elim (Bool-cases (is_empty (trim params.query))) [
  | inl e ↦ rw e tt
  | inr e ↦ elim (Bool-cases (ltb max_query_len (byte_len (trim params.query)))) [
    | inl y ↦ rw (e, y) tt
    | inr y ↦
        elim (Bool-cases
          (unwrap_or params.top_k 10 == 0 || ltb max_top_k (unwrap_or params.top_k 10))) [
            | inl z ↦ rw (e, y, z) tt
            | inr z ↦
                rw (e, y, z) (let p = inside (unwrap_or params.top_k 10) z in (refl, p.0, p.1))
          ]
  ]
]
  where
    inside : (n : ℕ) → (n == 0 || ltb max_top_k n) ≡ false → (1 ≤ n) × (n ≤ max_top_k)
    inside n h = ground (arith, h)

module _ (f : F32) (s : Store f) (powf : f.Float → f.Float → f.Float) (seconds_since : ℕ → f.Float)
    (into_values : List (Row f) → List (Row f)) (config : RetrievalConfig f)
    (params : SearchParams) where
  -- An outcome, and no panic.
  abbrev Answer : SourceTolerance → Option (SearchOutcome f) → Type 0
  Answer tolerance none = ⊥
  Answer tolerance (some out) = Found f s params tolerance out

  tolerated-Good :
      {A : Type 0} (P : A → Type 0) (tolerance : SourceTolerance) (nothing : A)
      (r : Result RetrievalError A)
      → P nothing
      → Good P r
      → Good (λ (x : A × Bool). P x.0 × Quiet tolerance x.1) (tolerated f tolerance nothing r)
  tolerated-Good P hard_fail nothing (ok a) n g = (g, refl)
  tolerated-Good P degrade nothing (ok a) n g = (g, tt)
  tolerated-Good P hard_fail nothing (err e) n g = tt
  tolerated-Good P degrade nothing (err e) n g = (n, tt)

  no_failure : (tolerance : SourceTolerance) → Quiet tolerance false
  no_failure hard_fail = refl
  no_failure degrade = tt

  abbrev Known : SourceTolerance → KnowledgeCandidates f × Bool → Type 0
  Known tolerance x = ComeBy f s params x.0.scored × Quiet tolerance x.1

  abbrev Read : SourceTolerance → List (Entry f) × Bool → Type 0
  Read tolerance x = ComeBy f s params x.0 × Quiet tolerance x.1

  knowledge_arm-Known :
      (tolerance : SourceTolerance) (query : Text) (top_k : ℕ)
      → Good
          (Known tolerance)
          (knowledge_arm f s powf seconds_since into_values config params tolerance query top_k)
  knowledge_arm-Known tolerance query top_k = elim (Bool-cases (wants params knowledge)) [
    | inr e ↦ rw e (tt, no_failure tolerance)
    | inl e ↦
        let r =
          knowledge_candidates f s powf seconds_since query top_k params.filters
            (no_tags params.tags) in
        let c =
          knowledge_candidates-Each f (Comes f s params) powf seconds_since s params.filters
            (λ item a given m. of_knowledge item a given e m) query top_k (no_tags params.tags) in
        rw e (
          tolerated-Good (λ (k : KnowledgeCandidates f). ComeBy f s params k.scored) tolerance
            (no_candidates f) (or_none f r) tt (or_none-Each f (Comes f s params) r c))
  ]

  texts_arm-Read :
      (tolerance : SourceTolerance) (query : Text) (top_k : ℕ)
      → Good
          (Read tolerance)
          (texts_arm f s powf seconds_since into_values config params tolerance query top_k)
  texts_arm-Read tolerance query top_k =
      elim (Bool-cases (wants params fact || wants params event)) [
        | inr e ↦ rw e (tt, no_failure tolerance)
        | inl e ↦
            let size = fetch_size f s powf seconds_since into_values config params top_k in
            let r =
              fts_candidates f s query size top_k (wants params fact) (wants params event)
                params.filters in
            let c =
              fts_candidates-Each f (Comes f s params) s query size top_k (wants params fact)
                (wants params event) params.filters (λ t a ids r w m. of_fact t a ids r w m)
                (λ t a ids r w m. of_event t a ids r w m) in
            rw e (tolerated-Good (ComeBy f s params) tolerance [] r tt c)
      ]

  or_both :
      (tolerance : SourceTolerance) (a b : Bool)
      → Quiet tolerance a
      → Quiet tolerance b
      → Quiet tolerance (a || b)
  or_both hard_fail a b h k = rw (h, k) refl
  or_both degrade a b h k = tt

  run_arms-Answer :
      (tolerance : SourceTolerance) (query : Text) (top_k : ℕ)
      (r : Result RetrievalError ((KnowledgeCandidates f × Bool) × (List (Entry f) × Bool)))
      → Asked params (query, top_k)
      → Good
          (λ (x : (KnowledgeCandidates f × Bool) × (List (Entry f) × Bool)).
            Known tolerance x.0 × Read tolerance x.1)
          r
      → Good
          (Answer tolerance)
          (run_arms f s powf seconds_since into_values config params query top_k r)
  run_arms-Answer tolerance query top_k (err e) a g = tt
  run_arms-Answer tolerance query top_k (ok ((k, u), (texts, v))) a g =
      let (out, (e, found)) =
        finished-Found f s params powf seconds_since into_values config tolerance query top_k k
          texts (u || v) a.0 a.2 g.0.0 g.1.0 (or_both tolerance u v g.0.1 g.1.1) in
      rw e found

  search-Good :
      (tolerance : SourceTolerance)
      → Good (Answer tolerance) (search f s powf seconds_since into_values config params tolerance)
  unfolding search
  search-Good tolerance =
      then_ok-Good (Asked params) (Answer tolerance) (validated params) _ (validated-Asked params)
        (λ q asked. run_arms-Answer tolerance q.0 q.1 _ asked (
          then_ok-Good (Known tolerance)
            (λ (x : (KnowledgeCandidates f × Bool) × (List (Entry f) × Bool)).
              Known tolerance x.0 × Read tolerance x.1)
            (knowledge_arm f s powf seconds_since into_values config params tolerance q.0 q.1) _
            (knowledge_arm-Known tolerance q.0 q.1)
            (λ k known.
              then_ok-Good (Read tolerance)
                (λ (x : (KnowledgeCandidates f × Bool) × (List (Entry f) × Bool)).
                  Known tolerance x.0 × Read tolerance x.1)
                (texts_arm f s powf seconds_since into_values config params tolerance q.0 q.1) _
                (texts_arm-Read tolerance q.0 q.1) (λ t read. (known, read)))))

  outcome_of :
      (tolerance : SourceTolerance) (r : Result RetrievalError (Option (SearchOutcome f)))
      (o : Option (SearchOutcome f))
      → Good (Answer tolerance) r
      → r ≡ ok o
      → (out : SearchOutcome f) × ((o ≡ some out) × Found f s params tolerance out)
  outcome_of tolerance (err e) o g h = elim (not_ok h) [ ]
    where
      not_ok : ◌≡◌ {A = Result RetrievalError (Option (SearchOutcome f))} (err e) (ok o) → ⊥
      not_ok h = cc
  outcome_of tolerance (ok none) o g h = elim g [ ]
  outcome_of tolerance (ok (some out)) o g h = let e : some out ≡ o = cc in (out, (sym e, g))

  -- Whatever the store and the model server reply, a search that ends without an error has not
  -- panicked, and its outcome is this: at most as many hits as were asked for, and at most 50; each
  -- hit is the projection of an item, a fact or an event that a call of the store replied, of a kind
  -- that was wanted, which the filters admit, up to the copies that it absorbed, a fact and an event
  -- with the author that came with it; each hit has every tag that was asked for, and if there is
  -- one, is knowledge; no content hash comes twice; and under hard_fail the outcome is not degraded.
  pub search-Found :
      (tolerance : SourceTolerance) (o : Option (SearchOutcome f))
      → search f s powf seconds_since into_values config params tolerance ≡ ok o
      → (out : SearchOutcome f) × ((o ≡ some out) × Found f s params tolerance out)
  search-Found tolerance o h =
      outcome_of tolerance (search f s powf seconds_since into_values config params tolerance) o
        (search-Good tolerance) h

  tolerated-ok :
      {A : Type 0} (nothing : A) (r : Result RetrievalError A)
      → (x : A × Bool) × (tolerated f degrade nothing r ≡ ok x)
  tolerated-ok nothing (ok a) = ((a, false), refl)
  tolerated-ok nothing (err e) = ((nothing, true), refl)

  if-ok :
      {A : Type 0} (b : Bool) (r : Result RetrievalError A) (a : A)
      → ((x : A) × (r ≡ ok x))
      → (x : A) × ((if b then r else ok a) ≡ ok x)
  if-ok true r a h = h
  if-ok false r a h = (a, refl)

  -- Under degrade, a search whose query and number of hits are valid ends with such an outcome,
  -- however many of the calls of the store and of the model server fail.
  pub search-degrade :
      (q : Text × ℕ)
      → validated params ≡ ok q
      → (out : SearchOutcome f) × ((search f s powf seconds_since into_values config params degrade
            ≡ ok (some out))
          × Found f s params degrade out)
  unfolding search
  search-degrade q v =
      let (k, ke) =
        if-ok (wants params knowledge) _ (no_candidates f, false)
          (tolerated-ok (no_candidates f) (
            or_none f (
              knowledge_candidates f s powf seconds_since q.0 q.1 params.filters
                (no_tags params.tags)))) in
      let size = fetch_size f s powf seconds_since into_values config params q.1 in
      let (t, te) =
        if-ok (wants params fact || wants params event) _ ([], false)
          (tolerated-ok [] (
            fts_candidates f s q.0 size q.1 (wants params fact) (wants params event)
              params.filters)) in
      let ran : search f s powf seconds_since into_values config params degrade
          ≡ run_arms f s powf seconds_since into_values config params q.0 q.1 (ok (k, t)) =
        rw (v, ke, te) refl in
      let (out, (e, found)) = search-Found degrade _ ran in
      (out, (ran ∙ ap (λ (x : Option (SearchOutcome f)). ok x) e, found))
