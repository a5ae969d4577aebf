-- ===== src/Hybrid/Tests.antt =====
-- Runs of fusion, and the theorems of this folder at concrete inputs.
use klams.Common.{ℕ, ◌≡◌, refl, List, [], ◌∷◌, map}
use klams.Common.Sort.{sort_by, insert}
use klams.Common.Rearrange.{Rearranged, same, exchange}
use klams.Floats.{milli}
use klams.Hybrid.{
  rrf_with, weighted_with, min_max, vector, fts, source_order, Row, fuse, finalize, scored,
  rrf_sources, rrf_rows, put, bump, weighted_sources, weighted_rows, normalise_scores, least,
  greatest,
}
use klams.Hybrid.Order.{fuse-order}
use klams.Hybrid.First.{weight, first_of, fuse-first}

abbrev a : Row milli ℕ
a = record { source = vector; id = 1; score = 900; weight = 1000; payload = 11 }

abbrev b : Row milli ℕ
b = record { source = vector; id = 2; score = 500; weight = 1000; payload = 12 }

abbrev c : Row milli ℕ
c = record { source = fts; id = 2; score = 700; weight = 1000; payload = 22 }

abbrev sources : List (List (Row milli ℕ))
sources = (a ∷ b ∷ []) ∷ (c ∷ []) ∷ []

-- The payload of the second row is that of its first source.
by_rank :
    map (λ (r : Row milli ℕ). r.payload) (fuse milli ℕ (λ xs. xs) sources (rrf_with 0))
    ≡ 12 ∷ 11 ∷ []
unfolding fuse finalize scored rrf_sources rrf_rows put bump sort_by insert source_order
by_rank = refl

by_score :
    map
      (λ (r : Row milli ℕ). r.id)
      (fuse milli ℕ (λ xs. xs) sources (weighted_with 1000 500 min_max))
    ≡ 1 ∷ 2 ∷ []
unfolding fuse finalize scored weighted_sources weighted_rows normalise_scores least greatest put
    bump sort_by insert source_order
by_score = refl

abbrev swapped : List (Row milli ℕ) → List (Row milli ℕ)
swapped [] = []
swapped (x ∷ []) = x ∷ []
swapped (x ∷ y ∷ xs) = y ∷ x ∷ xs

swapped_lem : (xs : List (Row milli ℕ)) → Rearranged xs (swapped xs)
swapped_lem [] = same []
swapped_lem (x ∷ []) = same (x ∷ [])
swapped_lem (x ∷ y ∷ xs) = exchange x y xs

fuse-order_example :
    fuse milli ℕ (λ xs. xs) sources (rrf_with 60) ≡ fuse milli ℕ swapped sources (rrf_with 60)
fuse-order_example =
    fuse-order milli ℕ (λ x. x) (λ x y. refl) (λ xs. xs) swapped sources (rrf_with 60)
      (λ xs. same xs) swapped_lem

fuse-first_example :
    weight milli ℕ (λ x. x) 2 (fuse milli ℕ (λ xs. xs) sources (rrf_with 60))
    ≡ first_of milli ℕ (λ x. x) 2 sources
fuse-first_example = fuse-first milli ℕ (λ x. x) 2 (λ xs. xs) sources (rrf_with 60) (λ xs. same xs)
