-- ===== src/Search/Logged.antt =====
-- What the logs of a search say of its outcome.
use klams.Common.{
  ℕ, ◌-◌, ◌≤◌, ◌≡◌, refl, sym, ap, subst, ◌∙◌, inl, inr, min, Bool, true, false, ◌||◌, Option, none,
  some, List, [], ◌∷◌, ◌++◌, arith, map, ◌==◌, ==_iff, text_eq_refl, is_empty, length, length-map,
  length-take, take, sum_by, Result, ok, err, Text, text_eq, codes, unwrap_or, Bool-cases, tests,
}
use klams.Floats.{F32}
use klams.Rerank.{fact, event, knowledge}
use klams.Search.Store.{Store, RetrievalError, then_ok}
use klams.Search.Knowledge.{KnowledgeCandidates}
use klams.Search.Replies.{IfSome}
use klams.Search.Pipeline.{
  hit_of, SourceTolerance, SearchParams, RetrievalConfig, SearchOutcome, ScoredMemory, max_top_k,
  all_kinds, no_tags, Entry, Row, tagged,
}
use klams.Search.Weights.{is_lt, hundredths}
use klams.Search.Texts.{collected}
use klams.Search.Run.{validated, prepared, finished, run_arms, search}
use klams.Search.Logs.{
  SearchMiss, SearchSample, Logs, Top, as_i32, caller_label, kinds_label, raw_top, low_top,
  classify_miss, missed, top_score, top_kind, logs, with_logs, run_logged, search_logged,
}
use klams.Search.Results.{finished-Keeps}
use klams.Search.Arms.{Good, then_ok-Good}
use klams.Search.Answers.{validated-Asked, Asked}

module _ (f : F32) where
  abbrev says_zero : Option (SearchMiss f) → Bool
  says_zero none = false
  says_zero (some m) = text_eq m.reason (codes "zero_hit")

  -- The entry of the miss log repeats what the sample says.
  abbrev Repeats : SearchSample f → SearchMiss f → Type 0
  Repeats sample m =
      (m.query ≡ sample.query)
      × (m.caller ≡ sample.caller)
      × (m.top_score ≡ sample.top_raw_score)
      × (m.hit_count ≡ sample.hit_count)
      × (m.kinds ≡ sample.kinds)

  -- What the logs say of the hits.
  pub record AreTrue (top_k : ℕ) (hits : List (ScoredMemory f)) (l : Logs f) : Type 0 where
    pub counted : length hits ≡ min top_k l.sample.hit_count
    pub zero : says_zero l.miss ≡ is_empty hits
    pub repeated : IfSome (Repeats l.sample) l.miss

  reasons : text_eq (codes "low_score") (codes "zero_hit") ≡ false
  unfolding text_eq
  reasons = refl

  low_says :
      (query caller kinds : Text) (n : ℕ) (top of_hit : Top f)
      → says_zero (missed f query caller kinds n top (low_top f of_hit)) ≡ false
  low_says query caller kinds n top none = refl
  low_says query caller kinds n top (some (score, fact)) = refl
  low_says query caller kinds n top (some (score, event)) = refl
  low_says query caller kinds n top (some (score, knowledge)) =
      elim (Bool-cases (is_lt (f.partial_cmp score (hundredths f 45)))) [
        | inl e ↦ rw e reasons
        | inr e ↦ rw e refl
      ]

  empty_of : {A : Type 0} (xs : List A) → length xs ≡ 0 → is_empty xs ≡ true
  empty_of [] h = refl
  empty_of (x ∷ xs) h = absurd (omega (arith, h))

  full_of : {A : Type 0} (xs : List A) → 1 ≤ length xs → is_empty xs ≡ false
  full_of [] h = absurd (omega (arith, h))
  full_of (x ∷ xs) h = refl

  missed_zero :
      (query caller kinds : Text) (n top_k : ℕ) (top : Top f) (hits : List (ScoredMemory f))
      → 1 ≤ top_k
      → length hits ≡ min top_k n
      → says_zero (missed f query caller kinds n top (classify_miss f n top)) ≡ is_empty hits
  unfolding classify_miss
  missed_zero query caller kinds n top_k top hits low h = elim (Bool-cases (n == 0)) [
    | inl e ↦
        let none_left : length hits ≡ 0 = grind (tests, h, (==_iff n 0).0 e) in
        rw (e, empty_of hits none_left) (text_eq_refl (codes "zero_hit"))
    | inr e ↦
        let some_left : 1 ≤ length hits = ground (arith, h, low, e) in
        rw (e, full_of hits some_left) (low_says query caller kinds n top top)
  ]

  missed-Repeats :
      (query caller kinds : Text) (n : ℕ) (top : Top f) (reason : Option Text) (collapsed : ℕ)
      → IfSome
          (Repeats (record {
            query = query;
            caller = caller;
            top_raw_score = top_score f top;
            top_kind = top_kind f top;
            hit_count = as_i32 n;
            kinds = kinds;
            duplicates_collapsed = collapsed;
          }))
          (missed f query caller kinds n top reason)
  missed-Repeats query caller kinds n top none collapsed = tt
  missed-Repeats query caller kinds n top (some reason) collapsed = (refl, refl, refl, refl, refl)

  length-sum : (xs : List (Entry f)) → sum_by (λ (e : Entry f). 1) xs ≡ length xs
  length-sum [] = refl
  length-sum (x ∷ xs) = omega (arith, length-sum xs)

  module _ (s : Store f) (powf : f.Float → f.Float → f.Float) (seconds_since : ℕ → f.Float)
      (into_values : List (Row f) → List (Row f)) (config : RetrievalConfig f)
      (params : SearchParams) (caller : Option Text) where
    abbrev IsLogged : SearchOutcome f × Logs f → Type 0
    IsLogged x = AreTrue (unwrap_or params.top_k 10) x.0.hits x.1

    -- No panic, and true logs.
    abbrev Told : Option (SearchOutcome f × Logs f) → Type 0
    Told none = ⊥
    Told (some x) = IsLogged x

    finished-Told :
        (query : Text) (top_k : ℕ) (k : KnowledgeCandidates f) (texts : List (Entry f))
        (degraded : Bool)
        → top_k ≡ unwrap_or params.top_k 10
        → 1 ≤ top_k
        → top_k ≤ max_top_k
        → Told (
            with_logs f s powf seconds_since into_values config
              (finished f s powf seconds_since into_values config params query top_k k texts
                degraded)
              (logs f s powf seconds_since into_values config params caller query k texts))
    finished-Told query top_k k texts degraded same low high =
        let scored = prepared f s powf seconds_since into_values config params k texts in
        let n = length scored in
        let top = raw_top f scored in
        let kinds = kinds_label (unwrap_or params.kinds all_kinds) in
        let name = caller_label caller in
        let before = length (tagged f (no_tags params.tags) (k.scored ++ texts)) in
        let collapsed = as_i32 (before - n) in
        let (fused, (e, kept)) =
          finished-Keeps f s params powf seconds_since into_values config query top_k k texts
            degraded in
        let raw = collected (λ (e : Entry f). e.mem.id) (λ (e : Entry f). e.score) scored [] in
        let hits = map (hit_of f raw) (take top_k fused) in
        let counted : length hits ≡ min top_k n = omega (
          arith,
          length-map (take top_k fused) (hit_of f raw),
          length-take top_k fused,
          kept.total (λ m. 1),
          length-sum fused,
          length-sum scored,
        ) in
        let all : AreTrue (unwrap_or params.top_k 10) hits
            (logs f s powf seconds_since into_values config params caller query k texts) =
          record {
            counted = omega (arith, counted, same, high);
            zero = missed_zero query name kinds n top_k top hits low counted;
            repeated = missed-Repeats query name kinds n top (classify_miss f n top) collapsed;
          } in
        rw e all

    run_logged-Told :
        (query : Text) (top_k : ℕ)
        (r : Result RetrievalError ((KnowledgeCandidates f × Bool) × (List (Entry f) × Bool)))
        → Asked params (query, top_k)
        → Good Told
            (run_logged f s powf seconds_since into_values config params caller query top_k r)
    run_logged-Told query top_k (err e) a = tt
    run_logged-Told query top_k (ok ((k, u), (texts, v))) a =
        finished-Told query top_k k texts (u || v) a.0 a.1 a.2

    search_logged-Told :
        (tolerance : SourceTolerance)
        → Good Told
            (search_logged f s powf seconds_since into_values config params tolerance caller)
    unfolding search_logged
    search_logged-Told tolerance =
        then_ok-Good (Asked params) Told (validated params) _ (validated-Asked params)
          (λ q asked. run_logged-Told q.0 q.1 _ asked)

    -- The reply without the logs.
    abbrev forget :
        Result RetrievalError (Option (SearchOutcome f × Logs f))
        → Result RetrievalError (Option (SearchOutcome f))
    forget (ok (some x)) = ok (some x.0)
    forget (ok none) = ok none
    forget (err e) = err e

    then_ok-forget :
        {A : Type 0} (r : Result RetrievalError A)
        (g : A → Result RetrievalError (Option (SearchOutcome f × Logs f)))
        (h : A → Result RetrievalError (Option (SearchOutcome f)))
        → ((a : A) → forget (g a) ≡ h a)
        → forget (then_ok r g) ≡ then_ok r h
    then_ok-forget (ok a) g h e = e a
    then_ok-forget (err x) g h e = refl

    forget-with_logs :
        (o : Option (SearchOutcome f)) (l : Logs f)
        → forget (ok (with_logs f s powf seconds_since into_values config o l)) ≡ ok o
    forget-with_logs none l = refl
    forget-with_logs (some out) l = refl

    forget-run_logged :
        (query : Text) (top_k : ℕ)
        (r : Result RetrievalError ((KnowledgeCandidates f × Bool) × (List (Entry f) × Bool)))
        → forget (run_logged f s powf seconds_since into_values config params caller query top_k r)
          ≡ run_arms f s powf seconds_since into_values config params query top_k r
    forget-run_logged query top_k (err e) = refl
    forget-run_logged query top_k (ok ((k, u), (texts, v))) = forget-with_logs _ _

    forget-search_logged :
        (tolerance : SourceTolerance)
        → forget (search_logged f s powf seconds_since into_values config params tolerance caller)
          ≡ search f s powf seconds_since into_values config params tolerance
    unfolding search_logged search
    forget-search_logged tolerance =
        then_ok-forget (validated params) _ _ (λ q. forget-run_logged q.0 q.1 _)

    -- If a search ends with an outcome, then with the one that it has without its logs, and the logs
    -- are true: the hits are the number in the sample log, or as many of them as were asked for; there
    -- is an entry in the miss log with the reason zero_hit exactly when there is no hit; and an entry
    -- of the miss log has the query, caller, top score, count and kinds of the sample.
    pub search_logged-AreTrue :
        (tolerance : SourceTolerance) (out : SearchOutcome f) (l : Logs f)
        → search_logged f s powf seconds_since into_values config params tolerance caller
          ≡ ok (some (out, l))
        → (search f s powf seconds_since into_values config params tolerance ≡ ok (some out))
          × AreTrue (unwrap_or params.top_k 10) out.hits l
    search_logged-AreTrue tolerance out l h = (
      sym (forget-search_logged tolerance) ∙ ap forget h,
      subst (Good Told) h (search_logged-Told tolerance),
    )
