-- ===== src/Hybrid/First.antt =====
-- Fusion gives each id of the sources once, with the payload of the first row that has it.
use klams.Common.{
  ℕ, suc, ◌+◌, ◌≡◌, refl, sym, ◌∙◌, inl, inr, Bool, false, ◌||◌, List, [], ◌∷◌, map, arith,
  if◌then◌else◌, ◌==◌, Bool-cases, length, length-map, sum_by, any,
}
use klams.Common.Sort.{sum_by-sort_by}
use klams.Common.Rearrange.{Rearranged, same, under, exchange, twice}
use klams.Floats.{F32}
use klams.Hybrid.{
  Maps, FusionStrategy, WeightedNorm, min_max, z_score, rrf_with, weighted_with, Row, put, enter,
  rrf_rows, rrf_sources, weighted_rows, weighted_sources, normalise_scores, scored, ranked,
  finalize, gathered, no_maps, fuse,
}

pub sum_by-Rearranged :
    {A : Type 0} (g : A → ℕ) (xs ys : List A) → Rearranged xs ys → sum_by g xs ≡ sum_by g ys
sum_by-Rearranged g _ _ (same xs) = refl
sum_by-Rearranged g _ _ (under x xs ys p) = omega (arith, sum_by-Rearranged g xs ys p)
sum_by-Rearranged g _ _ (exchange x y xs) = omega arith
sum_by-Rearranged g _ _ (twice xs ys zs p q) =
    sum_by-Rearranged g xs ys p ∙ sum_by-Rearranged g ys zs q

module _ (f : F32) (J : Type 0) (h : J → ℕ) (i : ℕ) where
  -- The weight of the payloads that rows with the id have.
  abbrev pub weight : List (Row f J) → ℕ
  weight = sum_by (λ (r : Row f J). if r.id == i then h r.payload else 0)

  abbrev pub present : List (Row f J) → Bool
  present = any (λ (r : Row f J). r.id == i)

  -- The weight of the first such row.
  abbrev pub first_weight : List (Row f J) → ℕ
  first_weight [] = 0
  first_weight (r ∷ rows) = if r.id == i then h r.payload else first_weight rows

  abbrev pub first_of : List (List (Row f J)) → ℕ
  first_of [] = 0
  first_of (rows ∷ sources) = if present rows then first_weight rows else first_of sources

  put-present :
      (row : Row f J) (xs : List (Row f J)) → present (put f J row xs) ≡ (present xs || row.id == i)
  unfolding put
  put-present row [] = ground arith
  put-present row (r ∷ xs) = ground (arith, put-present row xs)

  put-weight :
      (row : Row f J) (xs : List (Row f J))
      → weight (put f J row xs)
        ≡ weight xs + (if row.id == i then (if present xs then 0 else h row.payload) else 0)
  unfolding put
  put-weight row [] = ground arith
  put-weight row (r ∷ xs) = ground (arith, put-weight row xs)

  -- What a run over rows adds to what is gathered.
  record Adds (before after : List (Row f J)) (found : Bool) (first : ℕ) : Type 0 where
    presence : present after ≡ (present before || found)
    sum : weight after ≡ weight before + (if present before then 0 else first)

  none_yet : (xs : List (Row f J)) → Adds xs xs false 0
  none_yet xs = record { presence = ground arith; sum = ground arith }

  first_row :
      (row : Row f J) (rows acc after : List (Row f J))
      → Adds (put f J row acc) after (present rows) (first_weight rows)
      → Adds acc after (present (row ∷ rows)) (first_weight (row ∷ rows))
  first_row row rows acc after a =
      let p = a.presence in
      let s = a.sum in
      let pp = put-present row acc in
      let pw = put-weight row acc in
      record { presence = ground (arith, p, pp); sum = ground (arith, s, pp, pw) }

  absent : (rows : List (Row f J)) → present rows ≡ false → first_weight rows ≡ 0
  absent [] e = refl
  absent (r ∷ rows) e = ground (arith, e, absent rows)

  first_source :
      (rows : List (Row f J)) (sources : List (List (Row f J))) (a b c : List (Row f J))
      → Adds a b (present rows) (first_weight rows)
      → Adds b c (any present sources) (first_of sources)
      → Adds a c (any present (rows ∷ sources)) (first_of (rows ∷ sources))
  first_source rows sources a b c x y =
      let p = x.presence in
      let q = y.presence in
      let s = x.sum in
      let t = y.sum in
      let n = absent rows in
      record { presence = ground (arith, p, q); sum = ground (arith, s, t, p, n) }

  rrf_rows-Adds :
      (k rank : ℕ) (rows : List (Row f J)) (maps : Maps (F32.Float f) J)
      → Adds maps.acc (rrf_rows f J k rank rows maps).acc (present rows) (first_weight rows)
  unfolding rrf_rows
  rrf_rows-Adds k rank [] maps = none_yet maps.acc
  rrf_rows-Adds k rank (row ∷ rows) maps =
      first_row row rows maps.acc _ (rrf_rows-Adds k (suc rank) rows (enter f J row _ maps))

  rrf_sources-Adds :
      (k : ℕ) (sources : List (List (Row f J))) (maps : Maps (F32.Float f) J)
      → Adds maps.acc (rrf_sources f J k sources maps).acc (any present sources) (first_of sources)
  unfolding rrf_sources
  rrf_sources-Adds k [] maps = none_yet maps.acc
  rrf_sources-Adds k (rows ∷ sources) maps =
      first_source rows sources maps.acc _ _ (rrf_rows-Adds k 0 rows maps)
        (rrf_sources-Adds k sources (rrf_rows f J k 0 rows maps))

  weighted_rows-Adds :
      (wv wf : F32.Float f) (rows : List (Row f J)) (ns : List (F32.Float f))
      (maps : Maps (F32.Float f) J)
      → length ns ≡ length rows
      → Adds maps.acc (weighted_rows f J wv wf rows ns maps).acc (present rows) (first_weight rows)
  unfolding weighted_rows
  weighted_rows-Adds wv wf [] ns maps e = none_yet maps.acc
  weighted_rows-Adds wv wf (row ∷ rows) [] maps e = absurd (omega (arith, e))
  weighted_rows-Adds wv wf (row ∷ rows) (n ∷ ns) maps e =
      first_row row rows maps.acc _
        (weighted_rows-Adds wv wf rows ns (enter f J row _ maps) (omega (arith, e)))

  normalise_scores-length :
      (rows : List (Row f J)) (norm : WeightedNorm)
      → length (normalise_scores f J rows norm) ≡ length rows
  unfolding normalise_scores
  normalise_scores-length [] norm = refl
  normalise_scores-length (r ∷ rows) min_max = length-map (r ∷ rows) _
  normalise_scores-length (r ∷ rows) z_score = length-map (r ∷ rows) _

  weighted_sources-Adds :
      (wv wf : F32.Float f) (norm : WeightedNorm) (sources : List (List (Row f J)))
      (maps : Maps (F32.Float f) J)
      → Adds maps.acc
          (weighted_sources f J wv wf norm sources maps).acc
          (any present sources)
          (first_of sources)
  unfolding weighted_sources
  weighted_sources-Adds wv wf norm [] maps = none_yet maps.acc
  weighted_sources-Adds wv wf norm (rows ∷ sources) maps =
      first_source rows sources maps.acc _ _
        (weighted_rows-Adds wv wf rows (normalise_scores f J rows norm) maps
          (normalise_scores-length rows norm))
        (weighted_sources-Adds wv wf norm sources _)

  gathered-weight :
      (sources : List (List (Row f J))) (strategy : FusionStrategy (F32.Float f))
      → weight (gathered f J sources strategy).acc ≡ first_of sources
  gathered-weight sources (rrf_with k) =
      omega (arith, (rrf_sources-Adds k sources (no_maps f J)).sum)
  gathered-weight sources (weighted_with wv wf norm) =
      omega (arith, (weighted_sources-Adds wv wf norm sources (no_maps f J)).sum)

  scored-weight :
      (s : List (ℕ × F32.Float f)) (row : Row f J)
      → weight (scored f J s row ∷ []) ≡ weight (row ∷ [])
  unfolding scored
  scored-weight [] row = refl
  scored-weight ((j, x) ∷ more) row = elim (Bool-cases (j == row.id)) [
    | inl e ↦ rw e
    | inr e ↦ rw e (scored-weight more row)
  ]

  map-scored-weight :
      (s : List (ℕ × F32.Float f)) (rows : List (Row f J))
      → weight (map (scored f J s) rows) ≡ weight rows
  map-scored-weight s [] = refl
  map-scored-weight s (r ∷ rows) = omega (arith, scored-weight s r, map-scored-weight s rows)

  -- By either strategy, in whatever order the hash map yields the rows: for an id, the payloads that
  -- the result has under it weigh what the payload of the first row with that id weighs, in the
  -- order of the sources, and nothing if no source has it. So every id of the sources stands in
  -- the result, once, with its first payload.
  pub fuse-first :
      (values : List (Row f J) → List (Row f J)) (sources : List (List (Row f J)))
      (strategy : FusionStrategy (F32.Float f))
      → ((xs : List (Row f J)) → Rearranged xs (values xs))
      → weight (fuse f J values sources strategy) ≡ first_of sources
  unfolding fuse finalize
  fuse-first values sources strategy p =
      let m = gathered f J sources strategy in
      let rows = map (scored f J m.score) m.acc in
      sum_by-sort_by (ranked f J) (λ (r : Row f J). if r.id == i then h r.payload else 0)
        (values rows)
      ∙ sym (sum_by-Rearranged _ rows (values rows) (p rows))
      ∙ map-scored-weight m.score m.acc
      ∙ gathered-weight sources strategy
