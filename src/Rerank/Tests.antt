-- ===== src/Rerank/Tests.antt =====
-- Two knowledge hits that a reranker puts the other way round, one beyond the window, and a fact.
use klams.Common.{
  ℕ, List, [], ◌∷◌, some, Option, ◌≡◌, refl, sym, Text, Result, ok, ◌<◌, ◌⊎◌, tests, ◌∙◌, arith,
}
use klams.Common.Sort.{sort_by, insert}
use klams.Rerank.{MemoryKind, fact, knowledge, Scored, Ranking, apply_rerank_order}
use klams.Floats.{milli}
use klams.Rerank.Stage.{RerankError, RerankHit, rerank, rerank_stage, Lists}
use klams.Rerank.Distinct.{NoDup}
use klams.Rerank.Total.{Staged, rerank_stage-Staged}
use klams.Rerank.Ranks.{DistinctHits}
use klams.Rerank.Order.{Reranked, apply_rerank_order-Reranked}

-- A memory is its id and its kind.
abbrev Memory : Type 0
Memory = ℕ × MemoryKind

abbrev id_of : Memory → ℕ
id_of m = m.0

abbrev kind_of : Memory → MemoryKind
kind_of m = m.1

abbrev entry : ℕ → ℕ → MemoryKind → Scored ℕ Memory
entry rank id kind = record { score = 0; source_rank = rank; mem = (id, kind) }

abbrev page : List (Scored ℕ Memory)
page = entry 0 11 knowledge ∷ entry 1 12 knowledge ∷ entry 2 13 knowledge ∷ entry 0 21 fact ∷ []

reranked_lem :
    apply_rerank_order id_of kind_of page (11 ∷ 12 ∷ []) [] (11 ∷ 12 ∷ []) (1 ∷ 0 ∷ [])
    ≡ some (
      entry 0 12 knowledge ∷ entry 1 11 knowledge ∷ entry 2 13 knowledge ∷ entry 0 21 fact ∷ [],
      (12 ∷ 11 ∷ [], []),
    )
unfolding apply_rerank_order sort_by insert
reranked_lem = refl

two_hits : DistinctHits (11 ∷ 12 ∷ []) (1 ∷ 0 ∷ [])
two_hits = (λ id e. (λ h. apart id e h, tt), (λ id e. tt, tt))
  where
    apart :
        (id : ℕ)
        → ◌≡◌ {A = Option ℕ} (some 12) (some id)
        → ◌≡◌ {A = Option ℕ} (some 11) (some id)
        → ⊥
    apart id e h =
        let k : ◌≡◌ {A = Option ℕ} (some 12) (some 11) = e ∙ sym h in
        let l : ◌≡◌ {A = ℕ} 12 11 = cc in omega (arith, l)

apply_rerank_order-Reranked_example :
    (r : List (Scored ℕ Memory) × (List ℕ × List ℕ)) × ((apply_rerank_order id_of kind_of page
          (11 ∷ 12 ∷ [])
          []
          (11 ∷ 12 ∷ [])
          (1 ∷ 0 ∷ [])
        ≡ some r)
      × ((m : Ranking) × Reranked id_of kind_of
            (11 ∷ 12 ∷ [])
            (1 ∷ 0 ∷ [])
            page
            r.0
            (11 ∷ 12 ∷ [])
            r.1.0
            []
            r.1.1
            m))
apply_rerank_order-Reranked_example =
    apply_rerank_order-Reranked id_of kind_of (11 ∷ 12 ∷ []) (1 ∷ 0 ∷ []) page (11 ∷ 12 ∷ []) []
      (omega arith, (omega arith, tt)) two_hits

abbrev text_of : Memory → Text
text_of m = m.0 ∷ []

-- The second text scores higher.
abbrev post : List Text → Result RerankError (List (RerankHit milli.Float))
post texts = ok (record { index = 0; score = 200 } ∷ record { index = 1; score = 900 } ∷ [])

abbrev lists : Lists milli id_of kind_of text_of
lists = (page, (11 ∷ 12 ∷ [], []))

page-NoDup : NoDup (11 ∷ 12 ∷ 13 ∷ 21 ∷ [])
page-NoDup x = grind (tests, arith)

rerank_stage-Staged_example :
    (out : Lists milli id_of kind_of text_of) × ((rerank_stage milli id_of kind_of text_of post
          lists 2
        ≡ some out)
      × (((2 < 2) × (out ≡ lists))
          ⊎ Staged milli id_of kind_of text_of lists
              (11 ∷ 12 ∷ [])
              (rerank milli post ((11 ∷ []) ∷ (12 ∷ []) ∷ []))
              out))
rerank_stage-Staged_example =
    rerank_stage-Staged milli id_of kind_of text_of post lists 2 page-NoDup
