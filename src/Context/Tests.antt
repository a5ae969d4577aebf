-- ===== src/Context/Tests.antt =====
-- Runs of `allocate_budget`, and the theorems of this folder at concrete inputs.
use klams.Common.{ℕ, ◌+◌, ◌≡◌, refl, true, none, List, [], ◌∷◌, map, arith}
use klams.Common.Sort.{sort_by}
use klams.Floats.{milli}
use klams.Context.{
  ContextItem, raw, facts, Sections, u32_max, fill, passes, spend, sort_kept, allocate_budget,
  rescue, best_of,
}
use klams.Context.Spend.{IsWithin}
use klams.Context.Budget.{allocate_budget-IsWithin, fill-overflow}

abbrev item : ℕ → ℕ → ℕ → ContextItem ℕ Unit
item id score tokens = record {
  kind = raw;
  id = id;
  score = score;
  tokens = tokens;
  payload = tt;
  source_ids = none;
}

abbrev three : Sections (ContextItem ℕ Unit)
three = record {
  of_facts = item 1 500 30 ∷ item 2 900 40 ∷ [];
  of_knowledge = item 3 700 50 ∷ [];
  of_events = item 4 100 20 ∷ [];
}

abbrev ids : List (ContextItem ℕ Unit) → List ℕ
ids = map (λ it. it.id)

-- 40 + 50 tokens meet the floors of facts and knowledge; no other item fits into 105.
run_three :
    (ids (allocate_budget milli Unit three 105).kept.of_facts ≡ 2 ∷ [])
    × (ids (allocate_budget milli Unit three 105).kept.of_knowledge ≡ 3 ∷ [])
    × ((allocate_budget milli Unit three 105).total_spent ≡ 90)
    × ((allocate_budget milli Unit three 105).truncated ≡ true)
unfolding allocate_budget spend passes sort_kept sort_by rescue best_of
run_three = (refl, refl, refl, refl)

abbrev huge : Sections (ContextItem ℕ Unit)
huge = record { of_facts = []; of_knowledge = item 3 700 50 ∷ []; of_events = [] }

run_huge : (allocate_budget milli Unit huge 10).total_spent ≡ 50
unfolding allocate_budget spend passes sort_kept sort_by rescue best_of
run_huge = refl

allocate_budget-IsWithin_example :
    IsWithin (λ p. p.1.tokens) 105 three (allocate_budget milli Unit three 105)
allocate_budget-IsWithin_example = allocate_budget-IsWithin milli Unit three 105 (omega arith)

fill-overflow_example :
    (fill milli Unit u32_max 4294967290 ((facts, item 1 1 10) ∷ [])).spent + 4294967296 ≡ 4294967300
fill-overflow_example =
    (fill-overflow milli Unit 4294967290 facts (item 1 1 10) (omega arith) (omega arith)
      (omega arith)).1
