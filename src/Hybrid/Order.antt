-- ===== src/Hybrid/Order.antt =====
-- The result of fusion does not hang on the order in which the hash map yields its rows.
use Prim.Native.Nat.{compare}
use klams.Common.{
  ℕ, suc, ◌≡◌, ◌≢◌, refl, sym, ap, ◌∙◌, inl, inr, Bool, true, false, not, some, List, [], ◌∷◌, map,
  arith, if◌then◌else◌, ltb, leb, ◌==◌, ==_iff, Bool-cases, All, All-mono, ◌≤◌,
}
use klams.Common.Sort.{sort_by, IsSorted, sort_by-IsSorted}
use klams.Common.Rearrange.{Rearranged, Each, sort_by-Rearranged}
use klams.Floats.{F32}
use klams.Hybrid.{
  Maps, FusionStrategy, WeightedNorm, rrf_with, weighted_with, source_order, Row, put, rrf_rows,
  rrf_sources, weighted_rows, weighted_sources, scored, ranked, by_key, finalize, gathered, no_maps,
  fuse,
}

-- The order of `ranked` on numbers: score downwards, source, id.
abbrev lexed : ℕ → ℕ → ℕ → ℕ → ℕ → ℕ → Bool
lexed s o i t p j =
    by_key (compare t s) (if ltb o p then true else if o == p then leb i j else false)

lexed_trans :
    (s o i t p j u q k : ℕ)
    → lexed s o i t p j ≡ true
    → lexed t p j u q k ≡ true
    → lexed s o i u q k ≡ true
lexed_trans s o i t p j u q k a b = ground arith

lexed_untied : (s o i t p j : ℕ) → i ≢ j → lexed s o i t p j ≡ not (lexed t p j s o i)
lexed_untied s o i t p j n = ground arith

lexed_total : (s o i t p j : ℕ) → lexed s o i t p j ≡ false → lexed t p j s o i ≡ true
lexed_total s o i t p j h = ground arith

lexed-le : (s o i t p j : ℕ) → lexed s o i t p j ≡ true → t ≤ s
lexed-le s o i t p j h = ground arith

scored_id :
    (f : F32) (J : Type 0) (s : List (ℕ × F32.Float f)) (row : Row f J)
    → (scored f J s row).id ≡ row.id
unfolding scored
scored_id f J [] row = refl
scored_id f J ((i, s) ∷ more) row = elim (Bool-cases (i == row.id)) [
  | inl e ↦ rw e
  | inr e ↦ rw e (scored_id f J more row)
]

module _ (f : F32) (J : Type 0) where
  abbrev Apart : Row f J → Row f J → Type 0
  Apart a b = a.id ≢ b.id

  -- No two rows have one id.
  abbrev Distinct : List (Row f J) → Type 0
  Distinct = Each Apart

  put-All :
      (i : ℕ) (row : Row f J) (xs : List (Row f J))
      → i ≢ row.id
      → All (λ x. i ≢ x.id) xs
      → All (λ x. i ≢ x.id) (put f J row xs)
  unfolding put
  put-All i row [] n h = (n, tt)
  put-All i row (r ∷ xs) n h = elim (Bool-cases (r.id == row.id)) [
    | inl e ↦ rw e h
    | inr e ↦ rw e (h.0, put-All i row xs n h.1)
  ]

  put-Distinct : (row : Row f J) (xs : List (Row f J)) → Distinct xs → Distinct (put f J row xs)
  unfolding put
  put-Distinct row [] h = (tt, tt)
  put-Distinct row (r ∷ xs) h = elim (Bool-cases (r.id == row.id)) [
    | inl e ↦ rw e h
    | inr e ↦
        let n : r.id ≢ row.id = λ q. let k = (==_iff r.id row.id).1 q in cc in
        rw e (put-All r.id row xs n h.0, put-Distinct row xs h.1)
  ]

  rrf_rows-Distinct :
      (k rank : ℕ) (rows : List (Row f J)) (maps : Maps (F32.Float f) J)
      → Distinct maps.acc
      → Distinct (rrf_rows f J k rank rows maps).acc
  unfolding rrf_rows
  rrf_rows-Distinct k rank [] maps h = h
  rrf_rows-Distinct k rank (row ∷ rows) maps h =
      rrf_rows-Distinct k (suc rank) rows _ (put-Distinct row maps.acc h)

  rrf_sources-Distinct :
      (k : ℕ) (sources : List (List (Row f J))) (maps : Maps (F32.Float f) J)
      → Distinct maps.acc
      → Distinct (rrf_sources f J k sources maps).acc
  unfolding rrf_sources
  rrf_sources-Distinct k [] maps h = h
  rrf_sources-Distinct k (rows ∷ sources) maps h =
      rrf_sources-Distinct k sources _ (rrf_rows-Distinct k 0 rows maps h)

  weighted_rows-Distinct :
      (wv wf : F32.Float f) (rows : List (Row f J)) (ns : List (F32.Float f))
      (maps : Maps (F32.Float f) J)
      → Distinct maps.acc
      → Distinct (weighted_rows f J wv wf rows ns maps).acc
  unfolding weighted_rows
  weighted_rows-Distinct wv wf [] ns maps h = h
  weighted_rows-Distinct wv wf (row ∷ rows) [] maps h = h
  weighted_rows-Distinct wv wf (row ∷ rows) (n ∷ ns) maps h =
      weighted_rows-Distinct wv wf rows ns _ (put-Distinct row maps.acc h)

  weighted_sources-Distinct :
      (wv wf : F32.Float f) (norm : WeightedNorm) (sources : List (List (Row f J)))
      (maps : Maps (F32.Float f) J)
      → Distinct maps.acc
      → Distinct (weighted_sources f J wv wf norm sources maps).acc
  unfolding weighted_sources
  weighted_sources-Distinct wv wf norm [] maps h = h
  weighted_sources-Distinct wv wf norm (rows ∷ sources) maps h =
      weighted_sources-Distinct wv wf norm sources _ (weighted_rows-Distinct wv wf rows _ maps h)

  gathered-Distinct :
      (sources : List (List (Row f J))) (strategy : FusionStrategy (F32.Float f))
      → Distinct (gathered f J sources strategy).acc
  gathered-Distinct sources (rrf_with k) = rrf_sources-Distinct k sources (no_maps f J) tt
  gathered-Distinct sources (weighted_with wv wf norm) =
      weighted_sources-Distinct wv wf norm sources (no_maps f J) tt

  scored-All :
      (s : List (ℕ × F32.Float f)) (row : Row f J) (xs : List (Row f J))
      → All (Apart row) xs
      → All (Apart (scored f J s row)) (map (scored f J s) xs)
  scored-All s row [] h = tt
  scored-All s row (x ∷ xs) h =
      ((λ q. h.0 (sym (scored_id f J s row) ∙ q ∙ scored_id f J s x)), scored-All s row xs h.1)

  scored-Distinct :
      (s : List (ℕ × F32.Float f)) (xs : List (Row f J))
      → Distinct xs
      → Distinct (map (scored f J s) xs)
  scored-Distinct s [] h = tt
  scored-Distinct s (x ∷ xs) h = (scored-All s x xs h.0, scored-Distinct s xs h.1)

  module _ (rank : F32.Float f → ℕ)
      (total : (a b : F32.Float f) → F32.partial_cmp f a b ≡ some (compare (rank a) (rank b))) where
    ranked_lem :
        (a b : Row f J)
        → ranked f J a b
          ≡ lexed
              (rank a.score)
              (source_order a.source)
              a.id
              (rank b.score)
              (source_order b.source)
              b.id
    ranked_lem a b = rw (total b.score a.score)

    ranked_trans :
        (a b c : Row f J) → ranked f J a b ≡ true → ranked f J b c ≡ true → ranked f J a c ≡ true
    ranked_trans a b c h k =
        ranked_lem a c
        ∙ lexed_trans (rank a.score) (source_order a.source) a.id (rank b.score)
            (source_order b.source) b.id (rank c.score) (source_order c.source) c.id
            (sym (ranked_lem a b) ∙ h) (sym (ranked_lem b c) ∙ k)

    untied-All :
        (a : Row f J) (xs : List (Row f J))
        → All (Apart a) xs
        → All (λ b. ranked f J a b ≡ not (ranked f J b a)) xs
    untied-All a [] h = tt
    untied-All a (b ∷ xs) h = (
      ranked_lem a b
          ∙ lexed_untied (rank a.score) (source_order a.source) a.id (rank b.score)
              (source_order b.source) b.id h.0
          ∙ ap not (sym (ranked_lem b a)),
      untied-All a xs h.1,
    )

    untied :
        (xs : List (Row f J)) → Distinct xs → Each (λ a b. ranked f J a b ≡ not (ranked f J b a)) xs
    untied [] h = tt
    untied (x ∷ xs) h = (untied-All x xs h.0, untied xs h.1)

    -- For scores that are in total order (no NaN), fusion by either strategy gives one list, in
    -- whatever two orders the hash map yields the rows.
    pub fuse-order :
        (values other : List (Row f J) → List (Row f J)) (sources : List (List (Row f J)))
        (strategy : FusionStrategy (F32.Float f))
        → ((xs : List (Row f J)) → Rearranged xs (values xs))
        → ((xs : List (Row f J)) → Rearranged xs (other xs))
        → fuse f J values sources strategy ≡ fuse f J other sources strategy
    unfolding fuse finalize
    fuse-order values other sources strategy p q =
        let m = gathered f J sources strategy in
        let rows = map (scored f J m.score) m.acc in
        let apart =
          untied rows (scored-Distinct m.score m.acc (gathered-Distinct sources strategy)) in
        sym (sort_by-Rearranged (ranked f J) ranked_trans rows (values rows) (p rows) apart)
        ∙ sort_by-Rearranged (ranked f J) ranked_trans rows (other rows) (q rows) apart

    -- The second row has no greater score.
    abbrev pub Falls : Row f J → Row f J → Type 0
    Falls a b = rank b.score ≤ rank a.score

    ranked-Falls : (a b : Row f J) → ranked f J a b ≡ true → Falls a b
    ranked-Falls a b h =
        lexed-le (rank a.score) (source_order a.source) a.id (rank b.score) (source_order b.source)
          b.id (sym (ranked_lem a b) ∙ h)

    ranked_total : (a b : Row f J) → ranked f J a b ≡ false → ranked f J b a ≡ true
    ranked_total a b h =
        ranked_lem b a
        ∙ lexed_total (rank a.score) (source_order a.source) a.id (rank b.score)
            (source_order b.source) b.id (sym (ranked_lem a b) ∙ h)

    sorted-Falls : (xs : List (Row f J)) → IsSorted (ranked f J) xs → Each Falls xs
    sorted-Falls [] h = tt
    sorted-Falls (x ∷ xs) h = (
      All-mono (λ y. ranked f J x y ≡ true) (Falls x) xs (ranked-Falls x) h.0,
      sorted-Falls xs h.1,
    )

    pub fuse-Falls :
        (values : List (Row f J) → List (Row f J)) (sources : List (List (Row f J)))
        (strategy : FusionStrategy (F32.Float f))
        → Each Falls (fuse f J values sources strategy)
    unfolding fuse finalize
    fuse-Falls values sources strategy =
        let m = gathered f J sources strategy in
        let rows = map (scored f J m.score) m.acc in
        sorted-Falls (sort_by (ranked f J) (values rows))
          (sort_by-IsSorted (ranked f J) ranked_total ranked_trans (values rows))
