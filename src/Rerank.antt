-- ===== src/Rerank.antt =====
-- crates/klams-core/src/retrieval.rs: the second-stage rerank of the knowledge hits of a search. The
-- scores and the memories are of types S and M; an id is a number, for a UUID.
pub mod Filter
pub mod Ranks
pub mod Order
pub mod Stage
pub mod Distinct
pub mod Total
mod Tests
use klams.Common.{
  ℕ, zero, suc, ◌+◌, ◌-◌, ◌^◌, min, Bool, true, false, not, ◌&&◌, Option, none, some, List, [], ◌∷◌,
  ◌++◌, if◌then◌else◌, leb, ◌==◌, length, any, filter_by,
}
use klams.Common.Sort.{sort_by}

pub data MemoryKind : Type 0 where
  fact event knowledge : MemoryKind

abbrev pub is_knowledge : MemoryKind → Bool
is_knowledge fact = false
is_knowledge event = false
is_knowledge knowledge = true

-- An entry of the result list: score, rank within its source, and the memory.
pub record Scored (S M : Type 0) : Type 0 where
  pub score : S
  pub source_rank : ℕ
  pub mem : M

-- `HashMap<Uuid, usize>`, as rows.
abbrev pub Ranking : Type 0
Ranking = List (ℕ × ℕ)

abbrev pub lookup : ℕ → Ranking → Option ℕ
lookup id [] = none
lookup id ((i, r) ∷ rows) = if i == id then some r else lookup id rows

abbrev pub contains_key : ℕ → Ranking → Bool
contains_key id m = any (λ row. row.0 == id) m

-- `insert`: a row of the id is replaced.
abbrev pub put : ℕ → ℕ → Ranking → Ranking
put id r m = (id, r) ∷ filter_by (λ row. not (row.0 == id)) m

abbrev pub get_elem? : List ℕ → ℕ → Option ℕ
get_elem? [] n = none
get_elem? (x ∷ xs) zero = some x
get_elem? (x ∷ xs) (suc n) = get_elem? xs n

abbrev pub and_then : {A B : Type 0} → Option A → (A → Option B) → Option B
and_then none f = none
and_then (some a) f = f a

-- The ranks of the hits, by their indices into the window; an index past its end panics.
abbrev pub rank_hits : List ℕ → List ℕ → ℕ → Ranking → Option Ranking
rank_hits window_ids [] n m = some m
rank_hits window_ids (index ∷ hits) n m =
    and_then (get_elem? window_ids index) (λ id. rank_hits window_ids hits (suc n) (put id n m))

abbrev pub usize_max : ℕ
usize_max = 2 ^ 64 - 1

abbrev pub or_last : Option ℕ → ℕ
or_last none = usize_max
or_last (some r) = r

abbrev pub rank_of : Ranking → ℕ → ℕ
rank_of m id = or_last (lookup id m)

abbrev pub rank_u32 : ℕ → ℕ
rank_u32 rank = min rank (2 ^ 32 - 1)

abbrev pub ids_by_rank : Ranking → ℕ → ℕ → Bool
ids_by_rank m a b = leb (rank_of m a) (rank_of m b)

module _ {S M : Type 0} (id : M → ℕ) (kind : M → MemoryKind) where
  abbrev pub is_hit : Scored S M → Bool
  is_hit e = is_knowledge (kind e.mem)

  -- Knowledge that is beyond the window comes after it, in its prior order.
  abbrev pub rank_tail : List (Scored S M) → ℕ → Ranking → Ranking
  rank_tail [] next m = m
  rank_tail (e ∷ es) next m =
      let is_new = is_hit e && not (contains_key (id e.mem) m) in
      rank_tail es (if is_new then suc next else next) (if is_new then put (id e.mem) next m else m)

  abbrev pub by_rank : Ranking → Scored S M → Scored S M → Bool
  by_rank m a b = leb (rank_of m (id a.mem)) (rank_of m (id b.mem))

  abbrev pub number_from : ℕ → List (Scored S M) → List (Scored S M)
  number_from n [] = []
  number_from n (e ∷ es) = record e { source_rank = rank_u32 n } ∷ number_from (suc n) es

  abbrev pub reordered :
      List (Scored S M) → List ℕ → List ℕ → Ranking → List (Scored S M) × (List ℕ × List ℕ)
  reordered scored curated_order lexical_order m =
      let others = filter_by (λ e. not (is_hit e)) scored in
      let hits = number_from 0 (sort_by (by_rank m) (filter_by is_hit scored)) in
      (
        hits ++ others,
        (sort_by (ids_by_rank m) curated_order, sort_by (ids_by_rank m) lexical_order),
      )

  -- The list, the curated order and the lexical order after a rerank; none is a panic.
  unfoldable pub apply_rerank_order :
      List (Scored S M)
      → List ℕ
      → List ℕ
      → List ℕ
      → List ℕ
      → Option (List (Scored S M) × (List ℕ × List ℕ))
  apply_rerank_order scored curated_order lexical_order window_ids hits =
      and_then (rank_hits window_ids hits 0 []) (λ ranks.
        some (reordered scored curated_order lexical_order (rank_tail scored (length ranks) ranks)))
