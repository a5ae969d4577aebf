-- ===== src/Search/Ranking.antt =====
-- The order of a search's hits.
use Prim.Native.Nat.{compare}
use klams.Common.{
  ℕ, zero, suc, ◌≤◌, ◌≡◌, refl, subst, inl, inr, Bool, true, false, ◌||◌, Option, none, some, List,
  [], ◌∷◌, arith, map, leb, leb→le, take, All, Option-cases, Result, ok, err, Text, is_some,
}
use klams.Common.Sort.{sort_by, sort_by-All, IsSorted, sort_by-IsSorted}
use klams.Common.Rearrange.{Rearranged, Each}
use klams.Floats.{F32}
use klams.Hybrid.{FusionStrategy, fuse}
use klams.Hybrid.Order.{fuse-Falls}
use klams.Search.Store.{Store, RetrievalError, value_of, then_ok}
use klams.Search.Knowledge.{KnowledgeCandidates}
use klams.Search.Pipeline.{
  SourceTolerance, SearchParams, RetrievalConfig, SearchOutcome, ScoredMemory, Entry, Lists, Row,
  positions, sources_of, rescored, by_position, fuse_in_place, hit_of,
}
use klams.Search.Run.{validated, outcome, arms, run_arms, search}
use klams.Search.Places.{Ordered, value_of-Ordered, places-Ordered, entries_placed}
use klams.Search.Arms.{Good}

-- No hit has a greater score than one before it.
abbrev pub IsFalling : (f : F32) → (f.Float → ℕ) → List (ScoredMemory f) → Type 0
IsFalling f rank = Each (λ a b. rank b.score ≤ rank a.score)

module _ (f : F32) (rank : f.Float → ℕ)
    (total : (a b : f.Float) → f.partial_cmp a b ≡ some (compare (rank a) (rank b))) where
  abbrev Order : Type 0
  Order = List (ℕ × (ℕ × f.Float))

  by_position_trans :
      (order : Order) (a b c : Entry f)
      → by_position f order a b ≡ true
      → by_position f order b c ≡ true
      → by_position f order a c ≡ true
  by_position_trans order a b c h k = ground (arith, h, k)

  by_position_total :
      (order : Order) (a b : Entry f)
      → by_position f order a b ≡ false
      → by_position f order b a ≡ true
  by_position_total order a b h = ground (arith, h)

  -- The entry has the score of its place.
  abbrev Placed : Order → Entry f → Type 0
  Placed order e =
      (v : ℕ × f.Float) × ((value_of e.mem.id order ≡ some v) × (rank e.score ≡ rank v.1))

  rescored-Placed :
      (order : Order) (e : Entry f)
      → is_some (value_of e.mem.id order) ≡ true
      → Placed order (rescored f (value_of e.mem.id order) e)
  rescored-Placed order e h = elim (Option-cases (value_of e.mem.id order)) [
    | inl n ↦ let k : ◌≡◌ {A = Bool} false true = rw n at h in absurd (false_true k)
    | inr (v, y) ↦ rw y (v, (y, refl))
  ]
    where
      false_true : ◌≡◌ {A = Bool} false true → ⊥
      false_true k = cc

  map-Placed :
      (order : Order) (xs : List (Entry f))
      → All (λ (e : Entry f). is_some (value_of e.mem.id order) ≡ true) xs
      → All (Placed order) (map (λ e. rescored f (value_of e.mem.id order) e) xs)
  map-Placed order [] h = tt
  map-Placed order (x ∷ xs) h = (rescored-Placed order x h.0, map-Placed order xs h.1)

  abbrev Falls : Entry f → Entry f → Type 0
  Falls a b = rank b.score ≤ rank a.score

  Placed-Falls :
      (order : Order) (a b : Entry f)
      → Ordered f rank order
      → Placed order a
      → Placed order b
      → by_position f order a b ≡ true
      → Falls a b
  Placed-Falls order a b o (v, (h, s)) (w, (k, t)) l =
      let l' : leb v.0 w.0 ≡ true = rw (h, k) at l in
      let d = value_of-Ordered f rank order a.mem.id b.mem.id v w o h k (leb→le v.0 w.0 l') in
      omega (arith, d, s, t)

  first-Falls :
      (order : Order) (a : Entry f) (xs : List (Entry f))
      → Ordered f rank order
      → Placed order a
      → All (Placed order) xs
      → All (λ b. by_position f order a b ≡ true) xs
      → All (Falls a) xs
  first-Falls order a [] o p ps h = tt
  first-Falls order a (x ∷ xs) o p ps h =
      (Placed-Falls order a x o p ps.0 h.0, first-Falls order a xs o p ps.1 h.1)

  sorted-Falls :
      (order : Order) (xs : List (Entry f))
      → Ordered f rank order
      → All (Placed order) xs
      → IsSorted (by_position f order) xs
      → Each Falls xs
  sorted-Falls order [] o p s = tt
  sorted-Falls order (x ∷ xs) o p s =
      (first-Falls order x xs o p.0 p.1 s.0, sorted-Falls order xs o p.1 s.1)

  module _ (into_values : List (Row f) → List (Row f))
      (yields : (rows : List (Row f)) → Rearranged rows (into_values rows)) where
    fuse_in_place-Falls :
        (xs : List (Entry f)) (strategy : FusionStrategy f.Float) (weights : List (ℕ × f.Float))
        (curated lexical : List ℕ)
        → Each Falls (fuse_in_place f into_values xs strategy weights curated lexical)
    unfolding fuse_in_place
    fuse_in_place-Falls xs strategy weights curated lexical =
        let sources = sources_of f weights xs curated lexical in
        let order = positions f 0 (fuse f Unit into_values sources strategy) [] in
        let all =
          map-Placed order xs
            (entries_placed f weights into_values strategy xs curated lexical yields) in
        let ys = map (λ (e : Entry f). rescored f (value_of e.mem.id order) e) xs in
        sorted-Falls order (sort_by (by_position f order) ys)
          (places-Ordered f rank (fuse f Unit into_values sources strategy)
            (fuse-Falls f Unit rank total into_values sources strategy))
          (sort_by-All (by_position f order) (Placed order) ys all)
          (sort_by-IsSorted (by_position f order) (by_position_total order)
            (by_position_trans order) ys)

    hits-below :
        (raw : List (ℕ × f.Float)) (a : Entry f) (n : ℕ) (xs : List (Entry f))
        → All (Falls a) xs
        → All (λ (b : ScoredMemory f). rank b.score ≤ rank a.score) (map (hit_of f raw) (take n xs))
    hits-below raw a zero xs h = tt
    hits-below raw a (suc n) [] h = tt
    hits-below raw a (suc n) (x ∷ xs) h = (h.0, hits-below raw a n xs h.1)

    hits-IsFalling :
        (raw : List (ℕ × f.Float)) (n : ℕ) (xs : List (Entry f))
        → Each Falls xs
        → IsFalling f rank (map (hit_of f raw) (take n xs))
    hits-IsFalling raw zero xs h = tt
    hits-IsFalling raw (suc n) [] h = tt
    hits-IsFalling raw (suc n) (x ∷ xs) h = (hits-below raw x n xs h.0, hits-IsFalling raw n xs h.1)

    abbrev Sorted : Option (SearchOutcome f) → Type 0
    Sorted none = Unit
    Sorted (some out) = IsFalling f rank out.hits

    then_ok-Sorted :
        {A : Type 0} (r : Result RetrievalError A)
        (rest : A → Result RetrievalError (Option (SearchOutcome f)))
        → ((a : A) → Good Sorted (rest a))
        → Good Sorted (then_ok r rest)
    then_ok-Sorted (ok a) rest h = h a
    then_ok-Sorted (err e) rest h = tt

    module _ (s : Store f) (powf : f.Float → f.Float → f.Float) (seconds_since : ℕ → f.Float)
        (config : RetrievalConfig f) (params : SearchParams) where
      outcome-Sorted :
          (degraded : Bool) (top_k : ℕ) (weights raw : List (ℕ × f.Float)) (l : Option (Lists f))
          → Sorted (outcome f s powf seconds_since into_values config degraded top_k weights raw l)
      outcome-Sorted degraded top_k weights raw none = tt
      outcome-Sorted degraded top_k weights raw (some (scored, (curated, lexical))) =
          hits-IsFalling raw top_k _
            (fuse_in_place-Falls scored config.fusion weights curated lexical)

      run_arms-Sorted :
          (query : Text) (top_k : ℕ)
          (r : Result RetrievalError ((KnowledgeCandidates f × Bool) × (List (Entry f) × Bool)))
          → Good Sorted (run_arms f s powf seconds_since into_values config params query top_k r)
      run_arms-Sorted query top_k (err e) = tt
      run_arms-Sorted query top_k (ok ((k, u), (texts, v))) =
          outcome-Sorted (u || v) top_k k.weights _ _

      search-Sorted :
          (tolerance : SourceTolerance)
          → Good Sorted (search f s powf seconds_since into_values config params tolerance)
      unfolding search
      search-Sorted tolerance =
          then_ok-Sorted (validated params)
            (λ q.
              run_arms f s powf seconds_since into_values config params q.0 q.1
                (arms f s powf seconds_since into_values config params tolerance q.0 q.1))
            (λ q.
              run_arms-Sorted q.0 q.1
                (arms f s powf seconds_since into_values config params tolerance q.0 q.1))

      -- For scores in total order (no NaN), however the hash map of the fusion yields its rows: no hit
      -- of a search has a greater score than one before it.
      pub search-IsFalling :
          (tolerance : SourceTolerance) (out : SearchOutcome f)
          → search f s powf seconds_since into_values config params tolerance ≡ ok (some out)
          → IsFalling f rank out.hits
      search-IsFalling tolerance out h = subst (Good Sorted) h (search-Sorted tolerance)
