-- ===== src/Hybrid.antt =====
-- crates/klams-core/src/hybrid.rs: the fusion of ranked lists from several sources into one.
-- `f32` and the payload are parameters. The two `HashMap`s are lists of rows: `into_values`, whose
-- order is arbitrary, is any rearrangement of them.
pub mod Order
pub mod First
mod Tests
use Prim.Native.Nat.{Ordering, compare}
use klams.Common.{
  ℕ, suc, ◌+◌, min, Bool, true, false, not, ◌||◌, Option, none, some, List, [], ◌∷◌, ◌++◌, map,
  if◌then◌else◌, ltb, leb, ◌==◌, length,
}
use klams.Common.Sort.{sort_by}
use klams.Floats.{F32, or_equal}

pub data RetrievalSource : Type 0 where
  vector fts metadata_only : RetrievalSource

unfoldable pub source_order : RetrievalSource → ℕ
source_order vector = 0
source_order fts = 1
source_order metadata_only = 2

-- `RankedRow`: scores are of type S, payloads of type J, UUIDs are numbers.
pub record RankedRow (S J : Type 0) : Type 0 where
  pub source : RetrievalSource
  pub id : ℕ
  pub score : S
  pub weight : S
  pub payload : J

-- The two maps, `acc` and `score`.
pub record Maps (S J : Type 0) : Type 0 where
  pub acc : List (RankedRow S J)
  pub score : List (ℕ × S)

pub data WeightedNorm : Type 0 where
  min_max z_score : WeightedNorm

pub data FusionStrategy (S : Type 0) : Type 0 where
  rrf_with : ℕ → FusionStrategy S
  weighted_with : (vector fts : S) → WeightedNorm → FusionStrategy S

-- `cmp.then_with(rest) != Greater`
abbrev pub by_key : Ordering → Bool → Bool
by_key Ordering.lt rest = true
by_key Ordering.eq rest = rest
by_key Ordering.gt rest = false

abbrev is_less : Option Ordering → Bool
is_less (some Ordering.lt) = true
is_less (some Ordering.eq) = false
is_less (some Ordering.gt) = false
is_less none = false

abbrev is_at_most : Option Ordering → Bool
is_at_most (some Ordering.lt) = true
is_at_most (some Ordering.eq) = true
is_at_most (some Ordering.gt) = false
is_at_most none = false

module _ (f : F32) (J : Type 0) where
  open f use {Float, partial_cmp, of_nat, mul, div, sqrt, epsilon}

  abbrev pub Row : Type 0
  Row = RankedRow Float J

  -- `*score.entry(id).or_insert(0.0) += inc`
  unfoldable pub bump : ℕ → Float → List (ℕ × Float) → List (ℕ × Float)
  bump id inc [] = (id, f.add (of_nat 0) inc) ∷ []
  bump id inc ((i, s) ∷ more) =
      let rest = bump id inc more in if i == id then (i, f.add s inc) ∷ more else (i, s) ∷ rest

  -- `acc.entry(row.id).and_modify(|r| r.score = 0.0).or_insert(row)`
  unfoldable pub put : Row → List Row → List Row
  put row [] = row ∷ []
  put row (r ∷ more) =
      let rest = put row more in
      if r.id == row.id then record r { score = of_nat 0 } ∷ more else r ∷ rest

  abbrev pub enter : Row → Float → Maps Float J → Maps Float J
  enter row inc maps = record { acc = put row maps.acc; score = bump row.id inc maps.score }

  -- The inner loop of `rrf`, from a rank on.
  unfoldable pub rrf_rows : (k rank : ℕ) → List Row → Maps Float J → Maps Float J
  unfolding put bump
  rrf_rows k rank [] maps = maps
  rrf_rows k rank (row ∷ rows) maps =
      let inc = div row.weight (f.add (of_nat (min k 65535)) (f.add (of_nat rank) (of_nat 1))) in
      rrf_rows k (suc rank) rows (enter row inc maps)

  unfoldable pub rrf_sources : ℕ → List (List Row) → Maps Float J → Maps Float J
  unfolding rrf_rows
  rrf_sources k [] maps = maps
  rrf_sources k (rows ∷ sources) maps = rrf_sources k sources (rrf_rows k 0 rows maps)

  abbrev source_weight : (w_vector w_fts : Float) → RetrievalSource → Float
  source_weight w_vector w_fts vector = w_vector
  source_weight w_vector w_fts fts = w_fts
  source_weight w_vector w_fts metadata_only = of_nat 0

  abbrev less : Float → Float → Bool
  less a b = is_less (partial_cmp a b)

  abbrev at_most : Float → Float → Bool
  at_most a b = is_at_most (partial_cmp a b)

  -- `f32::min` and `f32::max`, on numbers that are no NaN.
  abbrev fmin : Float → Float → Float
  fmin a b = if less b a then b else a

  abbrev fmax : Float → Float → Float
  fmax a b = if less a b then b else a

  -- `.map(g).sum()`, from a number on.
  pub sum_scores : (Row → Float) → Float → List Row → Float
  sum_scores g total [] = total
  sum_scores g total (r ∷ rows) = sum_scores g (f.add total (g r)) rows

  -- The least and the greatest score of a list that is not empty.
  pub least : Float → List Row → Float
  least m [] = m
  least m (r ∷ rows) = least (fmin m r.score) rows

  pub greatest : Float → List Row → Float
  greatest m [] = m
  greatest m (r ∷ rows) = greatest (fmax m r.score) rows

  pub normalise_scores : List Row → WeightedNorm → List Float
  unfolding least greatest sum_scores
  normalise_scores [] norm = []
  normalise_scores (r ∷ rows) min_max =
      let mn = least r.score rows in
      let span = f.sub (greatest r.score rows) mn in
      map (λ x. if at_most span epsilon then of_nat 1 else div (f.sub x.score mn) span) (r ∷ rows)
  normalise_scores (r ∷ rows) z_score =
      let n = of_nat (length (r ∷ rows)) in
      let mean = div (sum_scores (λ x. x.score) (of_nat 0) (r ∷ rows)) n in
      let square : Row → Float = λ x. mul (f.sub x.score mean) (f.sub x.score mean) in
      let sd = sqrt (div (sum_scores square (of_nat 0) (r ∷ rows)) n) in
      map (λ x. if at_most sd epsilon then of_nat 0 else div (f.sub x.score mean) sd) (r ∷ rows)

  pub weighted_rows : (w_vector w_fts : Float) → List Row → List Float → Maps Float J → Maps Float J
  unfolding put bump
  weighted_rows wv wf [] ns maps = maps
  weighted_rows wv wf (row ∷ rows) [] maps = maps
  weighted_rows wv wf (row ∷ rows) (n ∷ ns) maps =
      weighted_rows wv wf rows ns
        (enter row (mul (mul n (source_weight wv wf row.source)) row.weight) maps)

  pub weighted_sources :
      (w_vector w_fts : Float) → WeightedNorm → List (List Row) → Maps Float J → Maps Float J
  unfolding weighted_rows normalise_scores
  weighted_sources wv wf norm [] maps = maps
  weighted_sources wv wf norm (rows ∷ sources) maps =
      weighted_sources wv wf norm sources
        (weighted_rows wv wf rows (normalise_scores rows norm) maps)

  -- The row with its sum, if there is one.
  unfoldable pub scored : List (ℕ × Float) → Row → Row
  scored [] row = row
  scored ((i, s) ∷ more) row =
      let rest = scored more row in if i == row.id then record row { score = s } else rest

  -- `cmp(a, b) != Greater`: by score downwards, then by source, then by id.
  abbrev pub by_rest : Row → Row → Bool
  by_rest a b =
      if ltb (source_order a.source) (source_order b.source)
      then true
      else if source_order a.source == source_order b.source
      then leb a.id b.id
      else false

  abbrev pub ranked : Row → Row → Bool
  ranked a b = by_key (or_equal (partial_cmp b.score a.score)) (by_rest a b)

  -- `into_values` gives the rows in some order.
  unfoldable pub finalize : (List Row → List Row) → Maps Float J → List Row
  unfolding scored
  finalize into_values maps = sort_by ranked (into_values (map (scored maps.score) maps.acc))

  abbrev pub no_maps : Maps Float J
  no_maps = record { acc = []; score = [] }

  abbrev pub gathered : List (List Row) → FusionStrategy Float → Maps Float J
  gathered sources (rrf_with k) = rrf_sources k sources no_maps
  gathered sources (weighted_with wv wf norm) = weighted_sources wv wf norm sources no_maps

  unfoldable pub fuse : (List Row → List Row) → List (List Row) → FusionStrategy Float → List Row
  unfolding rrf_sources weighted_sources finalize
  fuse into_values sources strategy = finalize into_values (gathered sources strategy)
