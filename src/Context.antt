-- ===== src/Context.antt =====
-- crates/klams-core/src/context.rs: how a context bundle is fitted into the caller's token budget.
-- This file has the types and `allocate_budget`; the children prove what it promises.
mod Passes
mod Spend
pub mod Budget
mod Tests
use klams.Common.{
  ℕ, ◌+◌, ◌%◌, ◌≤◌, min, Bool, true, false, not, ◌&&◌, ◌||◌, Option, none, some, List, [], ◌∷◌,
  ◌++◌, map, if◌then◌else◌, ltb, leb, ◌==◌, length, head?,
}
use klams.Common.Sort.{sort_by}
use klams.Floats.{F32, or_equal, is_greater}

-- `ItemKind` of klams-types.
pub data ItemKind : Type 0 where
  raw summary digest : ItemKind

-- `ContextItem`: scores are of type S, JSON payloads of type J, UUIDs are numbers.
pub record ContextItem (S J : Type 0) : Type 0 where
  pub kind : ItemKind
  pub id : ℕ
  pub score : S
  pub tokens : ℕ
  pub payload : J
  pub source_ids : Option (List ℕ)

pub data Section : Type 0 where
  facts knowledge events : Section

-- One list for each section of the bundle.
pub record Sections (A : Type 0) : Type 0 where
  pub of_facts : List A
  pub of_knowledge : List A
  pub of_events : List A

abbrev pub u32_max : ℕ
u32_max = 4294967295

-- `u32::saturating_add`
abbrev pub saturating_add : ℕ → ℕ → ℕ
saturating_add a b = min (a + b) u32_max

-- `+=` on `u32`, as a release build has it
abbrev pub wrapping_add : ℕ → ℕ → ℕ
wrapping_add a b = (a + b) % 4294967296

-- What `take_floor` leaves in `keep`, `rest` and `*spent`.
pub record Floor (A : Type 0) : Type 0 where
  pub keep : List A
  pub rest : List A
  pub spent : ℕ

-- What a pass over the pool adds to the three `keep_*`, and leaves in `spent` and `dropped`.
pub record Fill (A : Type 0) : Type 0 where
  pub kept : Sections A
  pub spent : ℕ
  pub dropped : Bool

-- The tuple that `allocate_budget` returns.
pub record Allocation (A : Type 0) : Type 0 where
  pub kept : Sections A
  pub total_spent : ℕ
  pub truncated : Bool

abbrev pub none_kept : {A : Type 0} → Sections A
none_kept = record { of_facts = []; of_knowledge = []; of_events = [] }

-- `keep_facts.push(item)` and the like; the caller has put the items in the loop's order.
pub push : {A : Type 0} → Section → A → Sections A → Sections A
push facts it k = record k { of_facts = it ∷ k.of_facts }
push knowledge it k = record k { of_knowledge = it ∷ k.of_knowledge }
push events it k = record k { of_events = it ∷ k.of_events }

pub join : {A : Type 0} → Sections A → Sections A → Sections A
join a b = record {
  of_facts = a.of_facts ++ b.of_facts;
  of_knowledge = a.of_knowledge ++ b.of_knowledge;
  of_events = a.of_events ++ b.of_events;
}

abbrev pub count_kept : {A : Type 0} → Sections A → ℕ
count_kept k = length k.of_facts + length k.of_knowledge + length k.of_events

module _ (f : F32) (J : Type 0) where
  open f use {Float, partial_cmp, mul, of_nat, to_u32, recip}

  abbrev pub Item : Type 0
  Item = ContextItem Float J

  -- `by_score_desc(a, b) != Greater`
  pub by_score_desc : Item → Item → Bool
  by_score_desc a b = not (is_greater (or_equal (partial_cmp b.score a.score)))

  -- `(budget as f32 * SECTION_FLOOR_FRACTION) as u32`
  pub floor_of : ℕ → ℕ
  floor_of budget = to_u32 (mul (of_nat budget) (recip 10))

  -- One round for each item that `pop_front` gives. An item is kept while the section is below its
  -- floor and the item fits; `section_spent` starts at 0.
  pub take_floor : (floor budget section_spent spent : ℕ) → List Item → Floor Item
  take_floor floor budget section_spent spent [] = record { keep = []; rest = []; spent = spent }
  take_floor floor budget section_spent spent (it ∷ section) =
      let would = saturating_add spent it.tokens in
      let take_it = ltb section_spent floor && leb would budget in
      let r =
        take_floor floor budget
          (if take_it then wrapping_add section_spent it.tokens else section_spent)
          (if take_it then would else spent) section in
      if take_it then record r { keep = it ∷ r.keep } else record r { rest = it ∷ r.rest }

  -- The greedy pass over the pool.
  pub fill : (budget spent : ℕ) → List (Section × Item) → Fill Item
  unfolding push
  fill budget spent [] = record { kept = none_kept; spent = spent; dropped = false }
  fill budget spent ((section, it) ∷ pool) =
      let fits = leb (saturating_add spent it.tokens) budget in
      let r = fill budget (if fits then wrapping_add spent it.tokens else spent) pool in
      if fits then record r { kept = push section it r.kept } else record r { dropped = true }

  abbrev pub pool_of : List Item → List Item → List Item → List (Section × Item)
  pool_of rf rk re =
      map (λ it. (facts, it)) rf ++ (map (λ it. (knowledge, it)) rk ++ map (λ it. (events, it)) re)

  pub pool_score_desc : Section × Item → Section × Item → Bool
  unfolding by_score_desc
  pool_score_desc a b = by_score_desc a.1 b.1

  -- `Iterator::max_by` on scores: the last of the greatest.
  pub better : Option (Section × Item) → Section → Option Item → Option (Section × Item)
  better best s none = best
  better none s (some it) = some (s, it)
  better (some (t, top)) s (some it) =
      if is_greater (or_equal (partial_cmp top.score it.score)) then some (t, top) else some (s, it)

  -- The best of the three top items, when nothing fitted.
  pub best_of : Option Item → Option Item → Option Item → Option (Section × Item)
  unfolding better
  best_of tf tk te = better (better (better none facts tf) knowledge tk) events te

  -- The edge case: nothing fitted, so the best item is returned alone and over budget.
  pub rescue : Option (Section × Item) → Allocation Item → Allocation Item
  unfolding push
  rescue none a = a
  rescue (some (s, it)) a = record {
    kept = push s it a.kept;
    total_spent = it.tokens;
    truncated = true;
  }

  -- The floor passes and the pool pass of `allocate_budget` over the three sorted sections.
  pub passes : (budget : ℕ) → List Item → List Item → List Item → Allocation Item
  unfolding floor_of take_floor fill pool_score_desc join
  passes budget fs ks es =
      let floor = floor_of budget in
      let ff = take_floor floor budget 0 0 fs in
      let fk = take_floor floor budget 0 ff.spent ks in
      let fe = take_floor floor budget 0 fk.spent es in
      let pool = pool_of ff.rest fk.rest fe.rest in
      let r = fill budget fe.spent (sort_by pool_score_desc pool) in
      record {
        kept =
            join (record { of_facts = ff.keep; of_knowledge = fk.keep; of_events = fe.keep })
              r.kept;
        total_spent = r.spent;
        truncated = r.dropped;
      }

  -- The passes, and the edge case where they keep nothing.
  pub spend : (budget : ℕ) → List Item → List Item → List Item → Allocation Item
  spend budget fs ks es =
      let a = passes budget fs ks es in
      if count_kept a.kept == 0 then rescue (best_of (head? fs) (head? ks) (head? es)) a else a

  -- The three final sorts.
  pub sort_kept : Sections Item → Sections Item
  unfolding by_score_desc
  sort_kept k = record {
    of_facts = sort_by by_score_desc k.of_facts;
    of_knowledge = sort_by by_score_desc k.of_knowledge;
    of_events = sort_by by_score_desc k.of_events;
  }

  pub allocate_budget : Sections Item → ℕ → Allocation Item
  allocate_budget s budget =
      let total_input = count_kept s in
      let t = sort_kept s in
      if total_input == 0 || budget == 0
      then record { kept = none_kept; total_spent = 0; truncated = ltb 0 total_input }
      else (let a = spend budget t.of_facts t.of_knowledge t.of_events in
          record a { kept = sort_kept a.kept })
