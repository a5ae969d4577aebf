-- ===== src/Search/Results.antt =====
-- What a search answers, whatever the store and the model server reply.
use klams.Common.{
  ℕ, zero, suc, ◌+◌, ◌≤◌, ◌≡◌, refl, ap, ◌∙◌, inl, inr, ◌⊎◌, Bool, true, false, some, List, [], ◌∷◌,
  ◌++◌, arith, map, length, length-map, length-take, take, sum_by, All, All-append, filter_by,
  unwrap_or, Text,
}
use klams.Floats.{F32}
use klams.Rerank.Filter.{filter_by-All}
use klams.Timeline.Merge.{All-take}
use klams.Rerank.{knowledge}
use klams.Search.{
  KnowledgeCopy, PublicMemory, Content, fact_content, knowledge_content, event_content,
  content_kind, kind, copies_set, set_copies,
}
use klams.Search.Store.{Store}
use klams.Search.Knowledge.{KnowledgeCandidates}
use klams.Search.Texts.{collected}
use klams.Search.Pipeline.{
  SourceTolerance, hard_fail, degrade, SearchParams, RetrievalConfig, ScoredMemory, SearchOutcome,
  max_top_k, no_tags, Entry, Lists, Row, tagged, has_tags, alive, hit_of,
  collapse_duplicates_in_place, fuse_in_place,
}
use klams.Search.Run.{prepared, finished}
use klams.Search.Origins.{
  Comes, of_knowledge, of_fact, of_event, of_copies, IsTagged, hash_count, collapse-each,
  collapse-once,
}
use klams.Search.Stages.{
  Keeps, Keeps-trans, All-filter_by, renumber_source_ranks-Keeps, reranked-Keeps,
  fuse_in_place-Keeps,
}

pub sum_by-take-le :
    {A : Type 0} (g : A → ℕ) (n : ℕ) (xs : List A) → sum_by g (take n xs) ≤ sum_by g xs
sum_by-take-le g zero xs = omega arith
sum_by-take-le g (suc n) [] = omega arith
sum_by-take-le g (suc n) (x ∷ xs) = let i = sum_by-take-le g n xs in omega (arith, i)

-- Under `hard_fail` nothing is left out.
abbrev pub Quiet : SourceTolerance → Bool → Type 0
Quiet hard_fail degraded = degraded ≡ false
Quiet degrade degraded = Unit

-- If a tag is wanted, the memory is knowledge.
abbrev pub IsTaggable : List Text → PublicMemory → Type 0
IsTaggable want m = (want ≡ []) ⊎ (kind m ≡ knowledge)

pub kind-copies_set :
    (cs : List KnowledgeCopy) (c : Content) → content_kind (copies_set cs c) ≡ content_kind c
kind-copies_set cs (fact_content t p) = refl
kind-copies_set cs (knowledge_content i xs) = refl
kind-copies_set cs (event_content c p t) = refl

module _ (f : F32) (s : Store f) (params : SearchParams) where
  -- The projections of facts and events give no tags.
  Comes-knowledge :
      (t : Text) (ts : List Text) (m : PublicMemory)
      → Comes f s params m
      → IsTagged (t ∷ ts) m
      → kind m ≡ knowledge
  Comes-knowledge t ts m (of_knowledge item a g e k) h = refl
  Comes-knowledge t ts m (of_fact x a ids r w k) h = let k : ◌≡◌ {A = Bool} false true = h in cc
  Comes-knowledge t ts m (of_event x a ids r w k) h = let k : ◌≡◌ {A = Bool} false true = h in cc
  Comes-knowledge t ts m (of_copies cs n c) h =
      kind-copies_set cs n.content ∙ Comes-knowledge t ts n c h

  -- The memory comes from the store as it should, and has every tag.
  abbrev pub Meets : PublicMemory → Type 0
  Meets m = Comes f s params m × IsTagged (no_tags params.tags) m

  Meets-set_copies :
      (cs : List KnowledgeCopy) (m : PublicMemory) → Meets m → Meets (set_copies cs m)
  Meets-set_copies cs m h = (of_copies cs m h.0, h.1)

  Comes-IsTaggable :
      (want : List Text) (m : PublicMemory)
      → Comes f s params m
      → IsTagged want m
      → IsTaggable want m
  Comes-IsTaggable [] m c h = inl refl
  Comes-IsTaggable (t ∷ ts) m c h = inr (Comes-knowledge t ts m c h)

  -- What is asked of an outcome.
  pub record Found (tolerance : SourceTolerance) (out : SearchOutcome f) : Type 0 where
    pub few : length out.hits ≤ unwrap_or params.top_k 10
    pub at_most : unwrap_or params.top_k 10 ≤ max_top_k
    pub met : All (λ (h : ScoredMemory f). Meets h.memory) out.hits
    pub taggable : All (λ (h : ScoredMemory f). IsTaggable (no_tags params.tags) h.memory) out.hits
    -- no content comes twice
    pub once :
        (hash : Text) → sum_by (λ (h : ScoredMemory f). hash_count hash h.memory) out.hits ≤ 1
    pub quiet : Quiet tolerance out.degraded

  abbrev MetBy : List (Entry f) → Type 0
  MetBy es = All (λ (e : Entry f). Meets e.mem) es

  abbrev pub ComeBy : List (Entry f) → Type 0
  ComeBy es = All (λ (e : Entry f). Comes f s params e.mem) es

  both :
      (want : List Text) (xs : List (Entry f))
      → ComeBy xs
      → All (λ (e : Entry f). has_tags f want e ≡ true) xs
      → All (λ (e : Entry f). Comes f s params e.mem × IsTagged want e.mem) xs
  both want [] h k = tt
  both want (x ∷ xs) h k = ((h.0, k.0), both want xs h.1 k.1)

  untagged : (xs : List (Entry f)) → All (λ (e : Entry f). has_tags f [] e ≡ true) xs
  untagged [] = tt
  untagged (x ∷ xs) = (refl, untagged xs)

  tagged-Meets :
      (want : List Text) (xs : List (Entry f))
      → ComeBy xs
      → All (λ (e : Entry f). Comes f s params e.mem × IsTagged want e.mem) (tagged f want xs)
  tagged-Meets [] xs h = both [] xs h (untagged xs)
  tagged-Meets (t ∷ ts) xs h =
      both (t ∷ ts) (filter_by (has_tags f (t ∷ ts)) xs)
        (All-filter_by (λ (e : Entry f). Comes f s params e.mem) (has_tags f (t ∷ ts)) xs h)
        (filter_by-All (has_tags f (t ∷ ts)) xs)

  hits-met :
      (raw : List (ℕ × f.Float)) (xs : List (Entry f))
      → MetBy xs
      → All (λ (h : ScoredMemory f). Meets h.memory) (map (hit_of f raw) xs)
  hits-met raw [] h = tt
  hits-met raw (x ∷ xs) h = (h.0, hits-met raw xs h.1)

  hits-IsTaggable :
      (hits : List (ScoredMemory f))
      → All (λ (h : ScoredMemory f). Meets h.memory) hits
      → All (λ (h : ScoredMemory f). IsTaggable (no_tags params.tags) h.memory) hits
  hits-IsTaggable [] h = tt
  hits-IsTaggable (x ∷ xs) h =
      (Comes-IsTaggable (no_tags params.tags) x.memory h.0.0 h.0.1, hits-IsTaggable xs h.1)

  hits-sum :
      (g : PublicMemory → ℕ) (raw : List (ℕ × f.Float)) (xs : List (Entry f))
      → sum_by (λ (h : ScoredMemory f). g h.memory) (map (hit_of f raw) xs)
        ≡ sum_by (λ (e : Entry f). g e.mem) xs
  hits-sum g raw [] = refl
  hits-sum g raw (x ∷ xs) = ap (λ (n : ℕ). g x.mem + n) (hits-sum g raw xs)

  module _ (powf : f.Float → f.Float → f.Float) (seconds_since : ℕ → f.Float)
      (into_values : List (Row f) → List (Row f)) (config : RetrievalConfig f) where
    prepared-met :
        (k : KnowledgeCandidates f) (texts : List (Entry f))
        → ComeBy k.scored
        → ComeBy texts
        → MetBy (prepared f s powf seconds_since into_values config params k texts)
    prepared-met k texts a b =
        let one =
          tagged-Meets (no_tags params.tags) (k.scored ++ texts)
            (All-append (λ (e : Entry f). Comes f s params e.mem) k.scored texts a b) in
        let list = tagged f (no_tags params.tags) (k.scored ++ texts) in
        let two = collapse-each f (Meets) list Meets-set_copies one in
        (renumber_source_ranks-Keeps f (collapse_duplicates_in_place f list)).each (Meets) two

    prepared-once :
        (k : KnowledgeCandidates f) (texts : List (Entry f)) (hash : Text)
        → sum_by
            (λ (e : Entry f). hash_count hash e.mem)
            (prepared f s powf seconds_since into_values config params k texts)
          ≤ 1
    prepared-once k texts hash =
        let list = tagged f (no_tags params.tags) (k.scored ++ texts) in
        let a = collapse-once f hash list in
        let b =
          (renumber_source_ranks-Keeps f (collapse_duplicates_in_place f list)).total
            (hash_count hash) in
        omega (arith, a, b)

    -- The list that the hits are taken from holds the prepared memories, each as often.
    pub finished-Keeps :
        (query : Text) (top_k : ℕ) (k : KnowledgeCandidates f) (texts : List (Entry f))
        (degraded : Bool)
        → let scored = prepared f s powf seconds_since into_values config params k texts in
          let raw = collected (λ (e : Entry f). e.mem.id) (λ (e : Entry f). e.score) scored [] in
          (fused : List (Entry f)) × ((finished f s powf seconds_since into_values config params
                query top_k k texts degraded
              ≡ some (record { hits = map (hit_of f raw) (take top_k fused); degraded = degraded }))
            × Keeps f scored fused)
    finished-Keeps query top_k k texts degraded =
        let scored = prepared f s powf seconds_since into_values config params k texts in
        let l : Lists f =
          (scored, (alive f scored k.curated_order, alive f scored k.lexical_order)) in
        let (next, (e, kept)) = reranked-Keeps f config.reranker query config.rerank_window l in
        let fused = fuse_in_place f into_values next.0 config.fusion k.weights next.1.0 next.1.1 in
        (
          fused,
          (
            rw e refl,
            Keeps-trans f scored next.0 fused kept (
                fuse_in_place-Keeps f into_values next.0 config.fusion k.weights next.1.0 next.1.1),
          ),
        )

    pub finished-Found :
        (tolerance : SourceTolerance) (query : Text) (top_k : ℕ) (k : KnowledgeCandidates f)
        (texts : List (Entry f)) (degraded : Bool)
        → top_k ≡ unwrap_or params.top_k 10
        → top_k ≤ max_top_k
        → ComeBy k.scored
        → ComeBy texts
        → Quiet tolerance degraded
        → (out : SearchOutcome f) × ((finished f s powf seconds_since into_values config params
                query top_k k texts degraded
              ≡ some out)
            × Found tolerance out)
    finished-Found tolerance query top_k k texts degraded same small a b quiet =
        let scored = prepared f s powf seconds_since into_values config params k texts in
        let raw = collected (λ (e : Entry f). e.mem.id) (λ (e : Entry f). e.score) scored [] in
        let (fused, (e, all_kept)) = finished-Keeps query top_k k texts degraded in
        let hits = map (hit_of f raw) (take top_k fused) in
        let met = hits-met raw (take top_k fused) (
          All-take (λ (e : Entry f). Meets e.mem) top_k fused
            (all_kept.each (Meets) (prepared-met k texts a b))) in
        (
          record { hits = hits; degraded = degraded },
          (
            e,
            record {
              few =
                  let x = length-map (take top_k fused) (hit_of f raw) in
                  let y = length-take top_k fused in omega (arith, x, y, same);
              at_most = omega (arith, small, same);
              met = met;
              taggable = hits-IsTaggable hits met;
              once = λ hash.
                  let x = hits-sum (hash_count hash) raw (take top_k fused) in
                  let y = sum_by-take-le (λ (e : Entry f). hash_count hash e.mem) top_k fused in
                  let z = all_kept.total (hash_count hash) in
                  let w = prepared-once k texts hash in omega (arith, x, y, z, w);
              quiet = quiet;
            },
          ),
        )
