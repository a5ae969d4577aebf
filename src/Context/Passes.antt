-- ===== src/Context/Passes.antt =====
-- The two passes of `allocate_budget` one at a time: `take_floor`, the greedy fill, the rescue.
use klams.Common.{
  ℕ, suc, ◌+◌, ◌%◌, min, ◌≤◌, ◌<◌, ◌≡◌, refl, ap, ◌↔◌, true, Option, none, some, List, [], ◌∷◌, map,
  arith, length, sum_by, All, head?, length-append, sum_by-append,
}
use klams.Floats.{F32}
use klams.Context.{
  Section, facts, knowledge, events, Sections, u32_max, push, join, count_kept, Item, take_floor,
  fill, pool_of, better, best_of,
}

-- The weight of three lists, for a weight of an item in a section.
abbrev pub weigh : {A : Type 0} → (Section × A → ℕ) → Sections A → ℕ
weigh h k =
    sum_by (λ it. h (facts, it)) k.of_facts
    + sum_by (λ it. h (knowledge, it)) k.of_knowledge
    + sum_by (λ it. h (events, it)) k.of_events

pub weigh-push :
    {A : Type 0} (h : Section × A → ℕ) (s : Section) (it : A) (k : Sections A)
    → weigh h (push s it k) ≡ h (s, it) + weigh h k
unfolding push
weigh-push h facts it k = omega arith
weigh-push h knowledge it k = omega arith
weigh-push h events it k = omega arith

pub count_kept-push :
    {A : Type 0} (s : Section) (it : A) (k : Sections A)
    → count_kept (push s it k) ≡ suc (count_kept k)
unfolding push
count_kept-push facts it k = omega arith
count_kept-push knowledge it k = omega arith
count_kept-push events it k = omega arith

pub weigh-join :
    {A : Type 0} (h : Section × A → ℕ) (a b : Sections A)
    → weigh h (join a b) ≡ weigh h a + weigh h b
unfolding join
weigh-join h a b = omega (
  arith,
  sum_by-append (λ it. h (facts, it)) a.of_facts b.of_facts,
  sum_by-append (λ it. h (knowledge, it)) a.of_knowledge b.of_knowledge,
  sum_by-append (λ it. h (events, it)) a.of_events b.of_events,
)

pub count_kept-join :
    {A : Type 0} (a b : Sections A) → count_kept (join a b) ≡ count_kept a + count_kept b
unfolding join
count_kept-join a b = omega (
  arith,
  length-append a.of_facts b.of_facts,
  length-append a.of_knowledge b.of_knowledge,
  length-append a.of_events b.of_events,
)

sum_by-map :
    {A B : Type 0} (h : B → ℕ) (g : A → B) (xs : List A)
    → sum_by h (map g xs) ≡ sum_by (λ x. h (g x)) xs
sum_by-map h g [] = refl
sum_by-map h g (x ∷ xs) = ap (λ n. h (g x) + n) (sum_by-map h g xs)

pub sum_by-one : {A : Type 0} (xs : List A) → sum_by (λ x. 1) xs ≡ length xs
sum_by-one [] = refl
sum_by-one (x ∷ xs) = omega (arith, sum_by-one xs)

module _ (f : F32) (J : Type 0) where
  pub sum_by-pool_of :
      (h : Section × Item f J → ℕ) (a b c : List (Item f J))
      → sum_by h (pool_of f J a b c)
        ≡ weigh h (record { of_facts = a; of_knowledge = b; of_events = c })
  sum_by-pool_of h a b c = simp (sum_by-append, sum_by-map) (omega arith)

  -- `take_floor` splits its section, and spends what it keeps, within the budget.
  pub take_floor_lem :
      (floor budget ss spent : ℕ) (xs : List (Item f J))
      → budget < u32_max
      → spent ≤ budget
      → let r = take_floor f J floor budget ss spent xs in
        (r.spent ≡ spent + sum_by (λ it. it.tokens) r.keep) × (r.spent ≤ budget)
  unfolding take_floor
  take_floor_lem floor budget ss spent [] hb hs = omega arith
  take_floor_lem floor budget ss spent (it ∷ xs) hb hs = ground (
    arith,
    take_floor_lem floor budget ss spent xs hb hs,
    take_floor_lem floor budget ((ss + it.tokens) % 4294967296) (min (spent + it.tokens) u32_max)
        xs,
  )

  pub take_floor-weight :
      (h : Item f J → ℕ) (floor budget ss spent : ℕ) (xs : List (Item f J))
      → let r = take_floor f J floor budget ss spent xs in
        sum_by h r.keep + sum_by h r.rest ≡ sum_by h xs
  unfolding take_floor
  take_floor-weight h floor budget ss spent [] = refl
  take_floor-weight h floor budget ss spent (it ∷ xs) = ground (
    arith,
    take_floor-weight h floor budget ss spent xs,
    take_floor-weight h floor budget ((ss + it.tokens) % 4294967296)
        (min (spent + it.tokens) u32_max) xs,
  )

  -- A pass that keeps nothing leaves the whole section for the pool.
  pub take_floor-rest :
      (floor budget ss spent : ℕ) (xs : List (Item f J))
      → let r = take_floor f J floor budget ss spent xs in
        length r.keep ≡ 0 → (r.rest ≡ xs) × (r.spent ≡ spent)
  unfolding take_floor
  take_floor-rest floor budget ss spent [] h = (refl, refl)
  take_floor-rest floor budget ss spent (it ∷ xs) h =
      ground (arith, take_floor-rest floor budget ss spent xs)

  -- The greedy pass spends what it keeps, within the budget.
  pub fill_lem :
      (budget spent : ℕ) (pool : List (Section × Item f J))
      → budget < u32_max
      → spent ≤ budget
      → let r = fill f J budget spent pool in
        (r.spent ≡ spent + weigh (λ p. p.1.tokens) r.kept) × (r.spent ≤ budget)
  unfolding fill
  fill_lem budget spent [] hb hs = omega arith
  fill_lem budget spent ((s, it) ∷ pool) hb hs = ground (
    arith,
    fill_lem budget spent pool hb hs,
    fill_lem budget ((spent + it.tokens) % 4294967296) pool hb,
    weigh-push (λ p. p.1.tokens) s it
        (fill f J budget ((spent + it.tokens) % 4294967296) pool).kept,
  )

  -- It keeps items of the pool, each at most once, and reports exactly whether it dropped one.
  pub fill-weight :
      (h : Section × Item f J → ℕ) (budget spent : ℕ) (pool : List (Section × Item f J))
      → weigh h (fill f J budget spent pool).kept ≤ sum_by h pool
  unfolding fill
  fill-weight h budget spent [] = omega arith
  fill-weight h budget spent ((s, it) ∷ pool) = ground (
    arith,
    fill-weight h budget spent pool,
    fill-weight h budget ((spent + it.tokens) % 4294967296) pool,
    weigh-push h s it (fill f J budget ((spent + it.tokens) % 4294967296) pool).kept,
  )

  pub fill-dropped :
      (budget spent : ℕ) (pool : List (Section × Item f J))
      → let r = fill f J budget spent pool in
        (count_kept r.kept ≤ length pool) × ((r.dropped ≡ true) ↔ (count_kept r.kept < length pool))
  unfolding fill
  fill-dropped budget spent [] = ground arith
  fill-dropped budget spent ((s, it) ∷ pool) = ground (
    arith,
    fill-dropped budget spent pool,
    fill-dropped budget ((spent + it.tokens) % 4294967296) pool,
    count_kept-push s it (fill f J budget ((spent + it.tokens) % 4294967296) pool).kept,
  )

  -- If it keeps nothing, no item of the pool fitted.
  pub fill-none_fits :
      (budget spent : ℕ) (pool : List (Section × Item f J))
      → count_kept (fill f J budget spent pool).kept ≡ 0
      → All (λ p. budget < spent + p.1.tokens) pool
  unfolding fill
  fill-none_fits budget spent [] h = tt
  fill-none_fits budget spent ((s, it) ∷ pool) h = ground (
    arith,
    fill-none_fits budget spent pool,
    count_kept-push s it (fill f J budget ((spent + it.tokens) % 4294967296) pool).kept,
  )

  -- What holds of the three top items holds of the best.
  abbrev pub OfOption : (Section × Item f J → Type 0) → Option (Section × Item f J) → Type 0
  OfOption P none = Unit
  OfOption P (some p) = P p

  better-OfOption :
      (P : Section × Item f J → Type 0) (best : Option (Section × Item f J)) (s : Section)
      (xs : List (Item f J))
      → OfOption P best
      → All (λ it. P (s, it)) xs
      → OfOption P (better f J best s (head? xs))
  unfolding better
  better-OfOption P best s [] b a = b
  better-OfOption P none s (x ∷ xs) b a = a.0
  better-OfOption P (some (t, top)) s (x ∷ xs) b a = ground (arith, a.0)

  pub best_of-OfOption :
      (P : Section × Item f J → Type 0) (fs ks es : List (Item f J))
      → All (λ it. P (facts, it)) fs
      → All (λ it. P (knowledge, it)) ks
      → All (λ it. P (events, it)) es
      → OfOption P (best_of f J (head? fs) (head? ks) (head? es))
  unfolding best_of
  best_of-OfOption P fs ks es af ak ae =
      better-OfOption P _ events es
        (better-OfOption P _ knowledge ks (better-OfOption P none facts fs tt af) ak) ae

  -- There is a best item unless all three sections are empty.
  pub best_of-none :
      (fs ks es : List (Item f J))
      → best_of f J (head? fs) (head? ks) (head? es) ≡ none
      → length fs + length ks + length es ≡ 0
  unfolding best_of better
  best_of-none fs ks es h = ground arith
