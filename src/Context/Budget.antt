-- ===== src/Context/Budget.antt =====
-- What `allocate_budget` promises: the tokens that it reports, the budget, the items that it keeps.
use klams.Common.{
  ℕ, ◌+◌, ◌≤◌, ◌<◌, ◌≡◌, refl, sym, ◌∙◌, inl, inr, ◌||◌, arith, [], ◌∷◌, Bool-cases, ◌==◌,
}
use klams.Common.Sort.{sum_by-sort_by, length-sort_by}
use klams.Floats.{F32}
use klams.Context.{
  Section, facts, knowledge, events, Sections, u32_max, Allocation, count_kept, Item, fill, spend,
  sort_kept, allocate_budget, by_score_desc,
}
use klams.Context.Passes.{weigh}
use klams.Context.Spend.{IsWithin, spend-IsWithin, spend-weight}

-- The promise depends on the weight and the number of the items only.
IsWithin-resort :
    {A : Type 0} (tokens : Section × A → ℕ) (budget : ℕ) (s t : Sections A) (a : Allocation A)
    (k : Sections A)
    → IsWithin tokens budget s a
    → weigh tokens k ≡ weigh tokens a.kept
    → count_kept k ≡ count_kept a.kept
    → count_kept s ≡ count_kept t
    → IsWithin tokens budget t (record a { kept = k })
IsWithin-resort tokens budget s t a k w hw hk hs = record {
  counted = w.counted ∙ sym hw;
  bounded = ground (arith, w.bounded);
  flagged = ((λ h. ground (arith, w.flagged.0 h)), (λ h. w.flagged.1 (ground arith)));
}

module _ (f : F32) (J : Type 0) where
  weigh-sort_kept :
      (h : Section × Item f J → ℕ) (k : Sections (Item f J)) → weigh h (sort_kept f J k) ≡ weigh h k
  unfolding sort_kept
  weigh-sort_kept h k = omega (
    arith,
    sum_by-sort_by (by_score_desc f J) (λ it. h (facts, it)) k.of_facts,
    sum_by-sort_by (by_score_desc f J) (λ it. h (knowledge, it)) k.of_knowledge,
    sum_by-sort_by (by_score_desc f J) (λ it. h (events, it)) k.of_events,
  )

  count_kept-sort_kept : (k : Sections (Item f J)) → count_kept (sort_kept f J k) ≡ count_kept k
  unfolding sort_kept
  count_kept-sort_kept k = omega (
    arith,
    length-sort_by (by_score_desc f J) k.of_facts,
    length-sort_by (by_score_desc f J) k.of_knowledge,
    length-sort_by (by_score_desc f J) k.of_events,
  )

  abbrev sorted_spend : Sections (Item f J) → ℕ → Allocation (Item f J)
  sorted_spend s budget =
      let t = sort_kept f J s in spend f J budget t.of_facts t.of_knowledge t.of_events

  -- For a budget below 2^32 - 1, the reported total is the sum of the kept items' tokens; it is
  -- within the budget, or one item was kept alone that exceeds it; and `truncated` is set exactly
  -- when an item was left out or that one item exceeds the budget.
  pub allocate_budget-IsWithin :
      (s : Sections (Item f J)) (budget : ℕ)
      → budget < u32_max
      → IsWithin (λ p. p.1.tokens) budget s (allocate_budget f J s budget)
  unfolding allocate_budget
  allocate_budget-IsWithin s budget hb = elim (Bool-cases (count_kept s == 0 || budget == 0)) [
    | inl e ↦ rw e (record { counted = refl; bounded = inl (omega arith); flagged = ground arith })
    | inr e ↦
        let a = sorted_spend s budget in
        rw e (
          IsWithin-resort (λ p. p.1.tokens) budget (sort_kept f J s) s a (sort_kept f J a.kept)
            (spend-IsWithin f J budget _ _ _ hb) (weigh-sort_kept (λ p. p.1.tokens) a.kept)
            (count_kept-sort_kept a.kept) (count_kept-sort_kept s))
  ]

  -- Whatever the weights of the items, those kept weigh no more than those given: every item kept
  -- stands in its own section of the input, and at least as often.
  pub allocate_budget-weight :
      (s : Sections (Item f J)) (budget : ℕ) (h : Section × Item f J → ℕ)
      → weigh h (allocate_budget f J s budget).kept ≤ weigh h s
  unfolding allocate_budget
  allocate_budget-weight s budget h = elim (Bool-cases (count_kept s == 0 || budget == 0)) [
    | inl e ↦ rw e (omega arith)
    | inr e ↦
        let t = sort_kept f J s in
        rw e (
          omega (
            arith,
            weigh-sort_kept h (sorted_spend s budget).kept,
            weigh-sort_kept h s,
            spend-weight f J budget t.of_facts t.of_knowledge t.of_events h,
          ))
  ]

  -- With the greatest budget, 2^32 - 1, the guard of the pool pass lets everything through: an
  -- item that takes the total past 2^32 - 1 is kept, and the total that is left has wrapped.
  pub fill-overflow :
      (spent : ℕ) (s : Section) (it : Item f J)
      → spent ≤ u32_max
      → it.tokens ≤ u32_max
      → u32_max < spent + it.tokens
      → let r = fill f J u32_max spent ((s, it) ∷ []) in
        (count_kept r.kept ≡ 1) × (r.spent + 4294967296 ≡ spent + it.tokens)
  unfolding fill
  fill-overflow spent facts it hs ht h = ground arith
  fill-overflow spent knowledge it hs ht h = ground arith
  fill-overflow spent events it hs ht h = ground arith
