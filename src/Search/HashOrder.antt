-- ===== src/Search/HashOrder.antt =====
-- The outcome of a search does not hang on the order in which a hash map yields its values.
use Prim.Native.Nat.{compare}
use klams.Common.{
  ℕ, ◌≡◌, refl, ap, Bool, ◌||◌, Option, none, some, List, [], map, Result, ok, err, Text, take,
}
use klams.Common.Sort.{sort_by}
use klams.Common.Rearrange.{Rearranged}
use klams.Floats.{F32}
use klams.Hybrid.{FusionStrategy}
use klams.Hybrid.Order.{fuse-order}
use klams.Search.Store.{Store, RetrievalError, value_of, then_ok}
use klams.Search.Knowledge.{KnowledgeCandidates}
use klams.Search.Pipeline.{
  SourceTolerance, SearchParams, RetrievalConfig, SearchOutcome, Entry, Lists, Row, positions,
  sources_of, rescored, by_position, fuse_in_place, hit_of,
}
use klams.Search.Run.{validated, outcome, arms, run_arms, search}

then_ok-same :
    {A B : Type 0} (r : Result RetrievalError A) (g h : A → Result RetrievalError B)
    → ((a : A) → g a ≡ h a)
    → then_ok r g ≡ then_ok r h
then_ok-same (ok a) g h e = e a
then_ok-same (err x) g h e = refl

module _ (f : F32) (rank : f.Float → ℕ)
    (total : (a b : f.Float) → f.partial_cmp a b ≡ some (compare (rank a) (rank b)))
    (values other : List (Row f) → List (Row f))
    (yields : (rows : List (Row f)) → Rearranged rows (values rows))
    (yields_other : (rows : List (Row f)) → Rearranged rows (other rows)) where
  fuse_in_place-into_values :
      (xs : List (Entry f)) (strategy : FusionStrategy f.Float) (weights : List (ℕ × f.Float))
      (curated lexical : List ℕ)
      → fuse_in_place f values xs strategy weights curated lexical
        ≡ fuse_in_place f other xs strategy weights curated lexical
  unfolding fuse_in_place
  fuse_in_place-into_values xs strategy weights curated lexical =
      let placed : List (Row f) → List (Entry f) = λ fused.
        let order = positions f 0 fused [] in
        sort_by (by_position f order) (map (λ e. rescored f (value_of e.mem.id order) e) xs) in
      ap placed (
        fuse-order f Unit rank total values other (sources_of f weights xs curated lexical) strategy
          yields yields_other)

  module _ (s : Store f) (powf : f.Float → f.Float → f.Float) (seconds_since : ℕ → f.Float)
      (config : RetrievalConfig f) (params : SearchParams) where
    outcome-into_values :
        (degraded : Bool) (top_k : ℕ) (weights raw : List (ℕ × f.Float)) (l : Option (Lists f))
        → outcome f s powf seconds_since values config degraded top_k weights raw l
          ≡ outcome f s powf seconds_since other config degraded top_k weights raw l
    outcome-into_values degraded top_k weights raw none = refl
    outcome-into_values degraded top_k weights raw (some (scored, (curated, lexical))) =
        let out : List (Entry f) → Option (SearchOutcome f) = λ fused.
          some (record { hits = map (hit_of f raw) (take top_k fused); degraded = degraded }) in
        ap out (fuse_in_place-into_values scored config.fusion weights curated lexical)

    run_arms-into_values :
        (query : Text) (top_k : ℕ)
        (r : Result RetrievalError ((KnowledgeCandidates f × Bool) × (List (Entry f) × Bool)))
        → run_arms f s powf seconds_since values config params query top_k r
          ≡ run_arms f s powf seconds_since other config params query top_k r
    run_arms-into_values query top_k (err e) = refl
    run_arms-into_values query top_k (ok ((k, u), (texts, v))) =
        ap (λ (o : Option (SearchOutcome f)). ok o)
          (outcome-into_values (u || v) top_k k.weights _ _)

    -- For scores in total order (no NaN): in whatever two orders the hash map of the fusion yields
    -- its rows, a search ends with one reply, be it an error or an outcome.
    pub search-into_values :
        (tolerance : SourceTolerance)
        → search f s powf seconds_since values config params tolerance
          ≡ search f s powf seconds_since other config params tolerance
    unfolding search
    search-into_values tolerance = then_ok-same (validated params) _ _ (λ q.
        run_arms-into_values q.0 q.1
          (arms f s powf seconds_since values config params tolerance q.0 q.1))
