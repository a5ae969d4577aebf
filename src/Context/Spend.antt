-- ===== src/Context/Spend.antt =====
-- `passes` and `spend` of `allocate_budget`: the tokens, the budget, and the items kept.
use klams.Common.{
  ℕ, ◌+◌, ◌≤◌, ◌<◌, ◌≡◌, refl, ◌↔◌, ◌⊎◌, inl, inr, true, Option, none, some, List, [], ◌∷◌, ◌++◌,
  map, arith, length, sum_by, All, Bool-cases, ◌==◌, ==_iff, All-append_left, All-append_right,
  All-map, All-mono, subst, ◌∙◌,
}
use klams.Common.Sort.{sort_by, sum_by-sort_by, length-sort_by, All-sort_by}
use klams.Floats.{F32}
use klams.Context.{
  Section, facts, knowledge, events, Sections, u32_max, Allocation, count_kept, Item, take_floor,
  fill, pool_of, passes, spend, rescue, floor_of, pool_score_desc,
}
use klams.Context.Passes.{
  weigh, weigh-push, weigh-join, count_kept-join, count_kept-push, sum_by-one, sum_by-pool_of,
  take_floor_lem, take_floor-weight, take_floor-rest, fill_lem, fill-weight, fill-dropped,
  fill-none_fits, OfOption, best_of-OfOption,
}

pub weigh-one : {A : Type 0} (k : Sections A) → weigh (λ p. 1) k ≡ count_kept k
weigh-one k =
    omega (arith, sum_by-one k.of_facts, sum_by-one k.of_knowledge, sum_by-one k.of_events)

weigh-zero : {A : Type 0} (h : Section × A → ℕ) (k : Sections A) → count_kept k ≡ 0 → weigh h k ≡ 0
weigh-zero h k e = omega (
  arith,
  zero_sum (λ it. h (facts, it)) k.of_facts,
  zero_sum (λ it. h (knowledge, it)) k.of_knowledge,
  zero_sum (λ it. h (events, it)) k.of_events,
)
  where
    zero_sum : {A : Type 0} (g : A → ℕ) (xs : List A) → length xs ≡ 0 → sum_by g xs ≡ 0
    zero_sum g [] e = refl
    zero_sum g (x ∷ xs) e = absurd (omega arith)

each-le-sum :
    {A : Type 0} (g : A → ℕ) (xs : List A) (n : ℕ) → sum_by g xs ≤ n → All (λ x. g x ≤ n) xs
each-le-sum g [] n h = tt
each-le-sum g (x ∷ xs) n h = (omega arith, each-le-sum g xs n (omega arith))

-- `allocate_budget`'s promise about its result `a`.
pub record IsWithin {A : Type 0} (tokens : Section × A → ℕ) (budget : ℕ) (input : Sections A)
    (a : Allocation A) : Type 0 where
  pub counted : a.total_spent ≡ weigh tokens a.kept
  pub bounded : (a.total_spent ≤ budget) ⊎ ((count_kept a.kept ≡ 1) × (budget < a.total_spent))
  pub flagged :
      (a.truncated ≡ true) ↔ ((count_kept a.kept < count_kept input) ⊎ (budget < a.total_spent))

module _ (f : F32) (J : Type 0) (budget : ℕ) (fs ks es : List (Item f J)) where
  abbrev pub input : Sections (Item f J)
  input = record { of_facts = fs; of_knowledge = ks; of_events = es }

  passes_lem :
      budget < u32_max
      → let a = passes f J budget fs ks es in
        (a.total_spent ≡ weigh (λ p. p.1.tokens) a.kept) × (a.total_spent ≤ budget)
  unfolding passes
  passes_lem hb =
      let floor = floor_of f J budget in
      let ff = take_floor f J floor budget 0 0 fs in
      let fk = take_floor f J floor budget 0 ff.spent ks in
      let fe = take_floor f J floor budget 0 fk.spent es in
      let pool = sort_by (pool_score_desc f J) (pool_of f J ff.rest fk.rest fe.rest) in
      let hf = take_floor_lem f J floor budget 0 0 fs hb (omega arith) in
      let hk = take_floor_lem f J floor budget 0 ff.spent ks hb hf.1 in
      let he = take_floor_lem f J floor budget 0 fk.spent es hb hk.1 in
      let hp = fill_lem f J budget fe.spent pool hb he.1 in
      let first : Sections (Item f J) = record {
        of_facts = ff.keep;
        of_knowledge = fk.keep;
        of_events = fe.keep;
      } in
      (
        omega (
          arith,
          hf.0,
          hk.0,
          he.0,
          hp.0,
          weigh-join (λ p. p.1.tokens) first (fill f J budget fe.spent pool).kept,
        ),
        hp.1,
      )

  passes-weight :
      (h : Section × Item f J → ℕ) → weigh h (passes f J budget fs ks es).kept ≤ weigh h input
  unfolding passes
  passes-weight h =
      let floor = floor_of f J budget in
      let ff = take_floor f J floor budget 0 0 fs in
      let fk = take_floor f J floor budget 0 ff.spent ks in
      let fe = take_floor f J floor budget 0 fk.spent es in
      let pool = pool_of f J ff.rest fk.rest fe.rest in
      let first : Sections (Item f J) = record {
        of_facts = ff.keep;
        of_knowledge = fk.keep;
        of_events = fe.keep;
      } in
      omega (
        arith,
        take_floor-weight f J (λ it. h (facts, it)) floor budget 0 0 fs,
        take_floor-weight f J (λ it. h (knowledge, it)) floor budget 0 ff.spent ks,
        take_floor-weight f J (λ it. h (events, it)) floor budget 0 fk.spent es,
        fill-weight f J h budget fe.spent (sort_by (pool_score_desc f J) pool),
        sum_by-sort_by (pool_score_desc f J) h pool,
        sum_by-pool_of f J h ff.rest fk.rest fe.rest,
        weigh-join h first (fill f J budget fe.spent (sort_by (pool_score_desc f J) pool)).kept,
      )

  passes-truncated :
      (passes f J budget fs ks es).truncated ≡ true
      ↔ (count_kept (passes f J budget fs ks es).kept < count_kept input)
  unfolding passes
  passes-truncated =
      let floor = floor_of f J budget in
      let ff = take_floor f J floor budget 0 0 fs in
      let fk = take_floor f J floor budget 0 ff.spent ks in
      let fe = take_floor f J floor budget 0 fk.spent es in
      let pool = pool_of f J ff.rest fk.rest fe.rest in
      let sorted = sort_by (pool_score_desc f J) pool in
      let first : Sections (Item f J) = record {
        of_facts = ff.keep;
        of_knowledge = fk.keep;
        of_events = fe.keep;
      } in
      let rests : Sections (Item f J) = record {
        of_facts = ff.rest;
        of_knowledge = fk.rest;
        of_events = fe.rest;
      } in
      let total : count_kept first + length sorted ≡ count_kept input = omega (
        arith,
        take_floor-weight f J (λ it. 1) floor budget 0 0 fs,
        take_floor-weight f J (λ it. 1) floor budget 0 ff.spent ks,
        take_floor-weight f J (λ it. 1) floor budget 0 fk.spent es,
        weigh-one first,
        weigh-one rests,
        weigh-one input,
        sum_by-pool_of f J (λ p. 1) ff.rest fk.rest fe.rest,
        sum_by-one pool,
        length-sort_by (pool_score_desc f J) pool,
      ) in
      let d = fill-dropped f J budget fe.spent sorted in
      let j = count_kept-join first (fill f J budget fe.spent sorted).kept in
      (
        (λ h. let lt = d.1.0 h in omega (arith, j, lt, total)),
        (λ h. d.1.1 (omega (arith, j, h, total))),
      )

  -- No item is within the budget, if the passes keep nothing.
  passes-none_fits :
      budget < u32_max
      → count_kept (passes f J budget fs ks es).kept ≡ 0
      → All (λ it. budget < it.tokens) fs
        × All (λ it. budget < it.tokens) ks
        × All (λ it. budget < it.tokens) es
  unfolding passes
  passes-none_fits hb h =
      let floor = floor_of f J budget in
      let ff = take_floor f J floor budget 0 0 fs in
      let fk = take_floor f J floor budget 0 ff.spent ks in
      let fe = take_floor f J floor budget 0 fk.spent es in
      let pool = pool_of f J ff.rest fk.rest fe.rest in
      let sorted = sort_by (pool_score_desc f J) pool in
      let first : Sections (Item f J) = record {
        of_facts = ff.keep;
        of_knowledge = fk.keep;
        of_events = fe.keep;
      } in
      let j = count_kept-join first (fill f J budget fe.spent sorted).kept in
      let rf = take_floor-rest f J floor budget 0 0 fs (omega (arith, j, h)) in
      let rk = take_floor-rest f J floor budget 0 ff.spent ks (omega (arith, j, h)) in
      let re = take_floor-rest f J floor budget 0 fk.spent es (omega (arith, j, h)) in
      let z : fe.spent ≡ 0 = re.1 ∙ rk.1 ∙ rf.1 in
      let P : Section × Item f J → Type 0 = λ p. budget < fe.spent + p.1.tokens in
      let a =
        All-sort_by (pool_score_desc f J) P pool
          (fill-none_fits f J budget fe.spent sorted (omega (arith, j, h))) in
      let drop_spent : (it : Item f J) → budget < fe.spent + it.tokens → budget < it.tokens =
        λ it b. omega (arith, z) in
      let pf : List (Section × Item f J) = map (λ it. (facts, it)) ff.rest in
      let pk : List (Section × Item f J) = map (λ it. (knowledge, it)) fk.rest in
      let pe : List (Section × Item f J) = map (λ it. (events, it)) fe.rest in
      let each =
        λ (xs ys : List (Item f J)) (e : xs ≡ ys)
            (b : All (λ it. budget < fe.spent + it.tokens) xs).
          subst (All (λ it. budget < it.tokens)) e (All-mono _ _ xs drop_spent b) in
      (
        each ff.rest fs rf.0 (All-map P _ ff.rest (All-append_left P pf (pk ++ pe) a)),
        each fk.rest ks rk.0
            (All-map P _ fk.rest (All-append_left P pk pe (All-append_right P pf (pk ++ pe) a))),
        each fe.rest es re.0
            (All-map P _ fe.rest (All-append_right P pk pe (All-append_right P pf (pk ++ pe) a))),
      )

  -- The passes alone keep the promise, and never exceed the budget.
  passes-IsWithin :
      budget < u32_max → IsWithin (λ p. p.1.tokens) budget input (passes f J budget fs ks es)
  passes-IsWithin hb =
      let l = passes_lem hb in
      let t = passes-truncated in
      record {
        counted = l.0;
        bounded = inl l.1;
        flagged = (
          (λ h. inl (t.0 h)),
          elim [ inl lt ↦ t.1 lt | inr over ↦ absurd (omega (arith, l.1, over)) ],
        );
      }

  -- The best of the top items is over the budget and an item of the input.
  rescue-IsWithin :
      budget < u32_max
      → count_kept (passes f J budget fs ks es).kept ≡ 0
      → (b : Option (Section × Item f J)) → OfOption f J (λ p. budget < p.1.tokens) b
      → IsWithin (λ p. p.1.tokens) budget input (rescue f J b (passes f J budget fs ks es))
  unfolding rescue
  rescue-IsWithin hb z none o = passes-IsWithin hb
  rescue-IsWithin hb z (some (s, it)) o =
      let k = (passes f J budget fs ks es).kept in
      record {
        counted = omega (
          arith,
          weigh-push (λ p. p.1.tokens) s it k,
          weigh-zero (λ (p : Section × Item f J). p.1.tokens) k z,
        );
        bounded = inr (omega (arith, count_kept-push s it k, z), o);
        flagged = ((λ h. inr o), (λ h. refl));
      }

  rescue-weight :
      (h : Section × Item f J → ℕ)
      → count_kept (passes f J budget fs ks es).kept ≡ 0
      → (b : Option (Section × Item f J)) → OfOption f J (λ p. h p ≤ weigh h input) b
      → weigh h (rescue f J b (passes f J budget fs ks es)).kept ≤ weigh h input
  unfolding rescue
  rescue-weight h z none o = passes-weight h
  rescue-weight h z (some (s, it)) o =
      let k = (passes f J budget fs ks es).kept in
      omega (arith, weigh-push h s it k, weigh-zero h k z)

  pub spend-IsWithin :
      budget < u32_max → IsWithin (λ p. p.1.tokens) budget input (spend f J budget fs ks es)
  unfolding spend
  spend-IsWithin hb = elim (Bool-cases (count_kept (passes f J budget fs ks es).kept == 0)) [
    | inl e ↦
        let z : count_kept (passes f J budget fs ks es).kept ≡ 0 = (==_iff _ 0).0 e in
        let over = passes-none_fits hb z in
        rw e (
          rescue-IsWithin hb z _
            (best_of-OfOption f J (λ p. budget < p.1.tokens) fs ks es over.0 over.1 over.2))
    | inr e ↦ rw e (passes-IsWithin hb)
  ]

  pub spend-weight :
      (h : Section × Item f J → ℕ) → weigh h (spend f J budget fs ks es).kept ≤ weigh h input
  unfolding spend
  spend-weight h = elim (Bool-cases (count_kept (passes f J budget fs ks es).kept == 0)) [
    | inl e ↦ rw e (
        rescue-weight h ((==_iff _ 0).0 e) _ (
          best_of-OfOption f J (λ p. h p ≤ weigh h input) fs ks es
            (each-le-sum (λ it. h (facts, it)) fs _ (omega arith))
            (each-le-sum (λ it. h (knowledge, it)) ks _ (omega arith))
            (each-le-sum (λ it. h (events, it)) es _ (omega arith))))
    | inr e ↦ rw e (passes-weight h)
  ]
