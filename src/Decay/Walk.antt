-- ===== src/Decay/Walk.antt =====
-- A tick visits every fact once if the batch size is at most 5000, and else the first 5000 only.
use klams.Common.{
  ℕ, zero, suc, ◌≤◌, ◌<◌, ◌≡◌, refl, sym, ap, ◌∙◌, inl, inr, min, max, true, false, Option, none,
  some, List, [], ◌∷◌, ◌++◌, map, arith, ltb, lt→ltb, length, take, drop, filter_by, is_empty,
  unwrap_or, Bool-cases, take_all, length-take, length-drop, take-append-drop,
}
use klams.Auth.Config.{is_empty_iff}
use klams.Floats.{F32}
use klams.Decay.{
  Walked, Row, DecayConfig, select_decay_batch, update, last_id, walk, tick_once, then_walk,
}

map-append : {A B : Type 0} (g : A → B) (xs ys : List A) → map g (xs ++ ys) ≡ map g xs ++ map g ys
map-append g [] ys = refl
map-append g (x ∷ xs) ys = ap (◌∷◌ (g x)) (map-append g xs ys)

module _ (f : F32) where
  -- The ids grow, from a number on: the order of the query.
  abbrev pub Growing : ℕ → List (Row f) → Type 0
  Growing i [] = Unit
  Growing i (r ∷ rows) = (i < r.id) × Growing r.id rows

  abbrev beyond : ℕ → List (Row f) → List (Row f)
  beyond a = filter_by (λ r. ltb a r.id)

  abbrev last_from : ℕ → List (Row f) → ℕ
  last_from a [] = a
  last_from a (r ∷ rows) = last_from r.id rows

  Growing-weaken : (a b : ℕ) (xs : List (Row f)) → a ≤ b → Growing b xs → Growing a xs
  Growing-weaken a b [] h g = tt
  Growing-weaken a b (x ∷ xs) h g = (omega (arith, g.0, h), g.1)

  beyond-all : (a : ℕ) (xs : List (Row f)) → Growing a xs → beyond a xs ≡ xs
  beyond-all a [] g = refl
  beyond-all a (x ∷ xs) g =
      let e : ltb a x.id ≡ true = ground (arith, g.0) in
      rw e (ap (◌∷◌ x) (beyond-all a xs (Growing-weaken a x.id xs (omega (arith, g.0)) g.1)))

  beyond-beyond : (a b : ℕ) (xs : List (Row f)) → a ≤ b → beyond b (beyond a xs) ≡ beyond b xs
  beyond-beyond a b [] h = refl
  beyond-beyond a b (x ∷ xs) h = elim (Bool-cases (ltb a x.id)) [
    | inl e ↦ rw e (rw (beyond-beyond a b xs h))
    | inr e ↦ let n : ltb b x.id ≡ false = ground (arith, e) in rw (e, n) (beyond-beyond a b xs h)
  ]

  last_from-le : (a n : ℕ) (xs : List (Row f)) → Growing a xs → a ≤ last_from a (take n xs)
  last_from-le a zero xs g = omega arith
  last_from-le a (suc n) [] g = omega arith
  last_from-le a (suc n) (x ∷ xs) g = omega (arith, g.0, last_from-le x.id n xs g.1)

  -- What lies beyond the last of a batch is what the batch left.
  beyond-last :
      (a n : ℕ) (xs : List (Row f)) → Growing a xs → beyond (last_from a (take n xs)) xs ≡ drop n xs
  beyond-last a zero xs g = beyond-all a xs g
  beyond-last a (suc n) [] g = refl
  beyond-last a (suc n) (x ∷ xs) g =
      let e : ltb (last_from x.id (take n xs)) x.id ≡ false =
        ground (arith, last_from-le x.id n xs g.1) in
      rw e (beyond-last x.id n xs g.1)

  Growing-drop :
      (a n : ℕ) (xs : List (Row f)) → Growing a xs → Growing (last_from a (take n xs)) (drop n xs)
  Growing-drop a zero xs g = g
  Growing-drop a (suc n) [] g = tt
  Growing-drop a (suc n) (x ∷ xs) g = Growing-drop x.id n xs g.1

  last_id-last_from :
      (a : ℕ) (r : Row f) (rows : List (Row f))
      → last_id f (r ∷ rows) ≡ some (last_from a (r ∷ rows))
  last_id-last_from a r [] = refl
  last_id-last_from a r (s ∷ rows) = last_id-last_from r.id s rows

  take-nil : (n : ℕ) → ◌≡◌ {A = List (Row f)} (take n []) []
  take-nil zero = refl
  take-nil (suc n) = refl

  is_empty-take :
      (n : ℕ) (x : Row f) (xs : List (Row f)) → 1 ≤ n → is_empty (take n (x ∷ xs)) ≡ false
  is_empty-take zero x xs h = absurd (omega arith)
  is_empty-take (suc n) x xs h = refl

  last_id-take :
      (a n : ℕ) (x : Row f) (xs : List (Row f))
      → 1 ≤ n
      → last_id f (take n (x ∷ xs)) ≡ some (last_from a (take n (x ∷ xs)))
  last_id-take a zero x xs h = absurd (omega arith)
  last_id-take a (suc n) x xs h = last_id-last_from a x (take n xs)

  module _ (cfg : DecayConfig f) (facts : List (Row f)) where
    abbrev size : ℕ
    size = max (DecayConfig.batch_size cfg) 1

    abbrev done : List (Row f) → Option (Walked (F32.Float f))
    done xs = some (record { updates = map (update f cfg) xs; failed = false })

    selected :
        (after : Option ℕ) (xs : List (Row f))
        → beyond (unwrap_or after 0) facts ≡ xs
        → size ≤ 5000
        → select_decay_batch f facts after size ≡ take size xs
    unfolding select_decay_batch
    selected after xs e h = let n : min (max size 1) 5000 ≡ size = omega (arith, h) in rw (e, n)

    then_done :
        (xs ys : List (Row f)) → then_walk f (map (update f cfg) xs) (done ys) ≡ done (xs ++ ys)
    then_done xs ys = rw (map-append (update f cfg) xs ys)

    -- From a batch's start on, the walk updates all that is left.
    walk-rest :
        (fuel : ℕ) (after : Option ℕ) (xs : List (Row f))
        → size ≤ 5000
        → beyond (unwrap_or after 0) facts ≡ xs
        → Growing (unwrap_or after 0) xs
        → length xs < fuel
        → walk f cfg facts (λ a. false) fuel after ≡ done xs
    unfolding walk
    walk-rest zero after xs h e g l = absurd (omega arith)
    walk-rest (suc fuel) after [] h e g l = let q = selected after [] e h ∙ take-nil size in rw q
    walk-rest (suc fuel) after (x ∷ xs) h e g l =
        let a = unwrap_or after 0 in
        let rows = take size (x ∷ xs) in
        let q = selected after (x ∷ xs) e h in
        let some_row = is_empty-take size x xs (omega arith) in
        elim (Bool-cases (ltb (length rows) size)) [
          | inl short ↦
              let whole : rows ≡ x ∷ xs =
                take_all size (x ∷ xs) (ground (arith, short, length-take size (x ∷ xs))) in
              rw (q, some_row, short) (ap done whole)
          | inr full ↦
              let end = last_from a rows in
              let at_end = last_id-take a size x xs (omega arith) in
              let left : beyond end facts ≡ drop size (x ∷ xs) =
                sym (beyond-beyond a end facts (last_from-le a size (x ∷ xs) g))
                ∙ ap (beyond end) e
                ∙ beyond-last a size (x ∷ xs) g in
              let ih : walk f cfg facts (λ a. false) fuel (some end) ≡ done (drop size (x ∷ xs)) =
                walk-rest fuel (some end) (drop size (x ∷ xs)) h left
                  (Growing-drop a size (x ∷ xs) g) (omega (arith, length-drop size (x ∷ xs), l)) in
              rw (q, some_row, full, at_end, ih)
                (then_done rows (drop size (x ∷ xs)) ∙ ap done (take-append-drop size (x ∷ xs)))
        ]

    -- If the ids of the facts grow from above the nil UUID, the batch size is at most 5000 and no
    -- call to the store fails, a tick ends and updates every fact, once, in order.
    pub tick_once-all :
        (bumps : List ℕ)
        → Growing 0 facts
        → max (DecayConfig.batch_size cfg) 1 ≤ 5000
        → (tick_once f cfg facts (λ after. false) bumps).1
          ≡ some (record { updates = map (update f cfg) facts; failed = false })
    unfolding tick_once
    tick_once-all bumps g h =
        walk-rest (suc (length facts)) none facts h (beyond-all 0 facts g) g (omega arith)

    -- With a batch size over 5000, a tick updates the first 5000 facts and ends without an error,
    -- however many there are: the store hands out 5000 rows, which the walk takes for the last.
    pub tick_once-clamped :
        (bumps : List ℕ)
        → Growing 0 facts
        → 5000 < DecayConfig.batch_size cfg
        → (tick_once f cfg facts (λ after. false) bumps).1
          ≡ some (record { updates = map (update f cfg) (take 5000 facts); failed = false })
    unfolding tick_once walk
    tick_once-clamped bumps g h =
        let n : min (max size 1) 5000 ≡ 5000 = omega (arith, h) in
        let q : select_decay_batch f facts none size ≡ take 5000 facts =
          unfold select_decay_batch in rw (n, beyond-all 0 facts g) in
        let short : ltb (length (take 5000 facts)) size ≡ true =
          lt→ltb _ size (omega (arith, length-take 5000 facts, h)) in
        elim (Bool-cases (is_empty (take 5000 facts))) [
          | inl e ↦
              let none_left : take 5000 facts ≡ [] = (is_empty_iff (take 5000 facts)).0 e in
              rw (q, e, none_left)
          | inr e ↦ rw (q, e, short)
        ]
