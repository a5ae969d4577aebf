-- ===== src/Rerank/Stage.antt =====
-- crates/klams-store/src/rerank.rs and `rerank_stage` of crates/klams-core/src/retrieval.rs: what is
-- asked of the model server, the test of its reply, and the stage. The server is a function from
-- the texts of a request to a parsed reply or an error.
use Prim.Native.Nat.{Ordering, compare}
use klams.Common.{
  ℕ, Bool, true, false, not, ◌||◌, Option, some, List, [], ◌∷◌, map, if◌then◌else◌, ltb, leb, ◌==◌,
  length, any, take, filter_by, Text, Result, ok, err,
}
use klams.Common.Sort.{sort_by}
use klams.Floats.{F32, or_equal, is_greater}
use klams.Rerank.{MemoryKind, Scored, is_hit, apply_rerank_order}

-- Why a rerank fails: the request, or a reply that does not cover every text once.
pub data RerankError : Type 0 where
  transport bad_index wrong_count : RerankError

-- `RerankHit`, and an item of the reply.
pub record RerankHit (F : Type 0) : Type 0 where
  pub index : ℕ
  pub score : F

-- The loop over the items; `seen` holds the indices whose flag is set.
abbrev pub all_valid : {F : Type 0} → ℕ → List (RerankHit F) → List ℕ → Bool
all_valid n [] seen = true
all_valid n (item ∷ items) seen =
    let rest = all_valid n items (item.index ∷ seen) in
    if leb n item.index || any (λ i. i == item.index) seen then false else rest

abbrev pub then_by : Ordering → Ordering → Ordering
then_by Ordering.eq o = o
then_by Ordering.lt o = Ordering.lt
then_by Ordering.gt o = Ordering.gt

module _ (f : F32) where
  abbrev pub best_first : RerankHit f.Float → RerankHit f.Float → Bool
  best_first a b =
      not
        (is_greater (then_by (or_equal (f.partial_cmp b.score a.score)) (compare a.index b.index)))

  abbrev pub checked : ℕ → List (RerankHit f.Float) → Result RerankError (List (RerankHit f.Float))
  checked n items =
      if not (all_valid n items [])
      then err bad_index
      else (if not (length items == n) then err wrong_count else ok (sort_by best_first items))

  abbrev pub reply_checked :
      ℕ
      → Result RerankError (List (RerankHit f.Float))
      → Result RerankError (List (RerankHit f.Float))
  reply_checked n (err e) = err e
  reply_checked n (ok items) = checked n items

  unfoldable pub rerank :
      (List Text → Result RerankError (List (RerankHit f.Float)))
      → List Text
      → Result RerankError (List (RerankHit f.Float))
  rerank post [] = ok []
  rerank post (t ∷ ts) = reply_checked (length (t ∷ ts)) (post (t ∷ ts))

  module _ {M : Type 0} (id : M → ℕ) (kind : M → MemoryKind) (text : M → Text) where
    -- The list, the curated order and the lexical order.
    abbrev pub Lists : Type 0
    Lists = List (Scored f.Float M) × (List ℕ × List ℕ)

    abbrev pub applied :
        Lists → List ℕ → Result RerankError (List (RerankHit f.Float)) → Option Lists
    applied l window_ids (err e) = some l
    applied l window_ids (ok hits) =
        apply_rerank_order id kind l.0 l.1.0 l.1.1 window_ids (map (λ h. h.index) hits)

    abbrev pub candidates : List (Scored f.Float M) → ℕ → List (Scored f.Float M)
    candidates scored window = take window (filter_by (λ e. is_hit id kind e) scored)

    -- none is a panic
    unfoldable pub rerank_stage :
        (List Text → Result RerankError (List (RerankHit f.Float))) → Lists → ℕ → Option Lists
    rerank_stage post l window =
        let cs = candidates l.0 window in
        if ltb (length cs) 2
        then some l
        else applied l (map (λ e. id e.mem) cs) (rerank post (map (λ e. text e.mem) cs))
