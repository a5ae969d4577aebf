-- ===== src/Retention/Partition.antt =====
-- Retention splits the backups: each is kept or deleted, once, and the kept ones are few.
use klams.Common.{
  ℕ, zero, suc, ◌+◌, ◌≤◌, ◌≡◌, refl, sym, ap, ◌∙◌, inl, inr, min, Bool, true, false, not, ◌&&◌,
  List, [], ◌∷◌, ◌++◌, map, arith, if◌then◌else◌, ltb, ◌==◌, ==_iff, length, take, drop, any,
  filter_by, sum_by, sum_by-append, length-append, length-take, length-map, take-append-drop, Text,
  text_eq, text_eq_iff, Bool-cases, All, In, here, there,
}
use klams.Common.Sort.{sort_by, sum_by-sort_by, length-sort_by}
use klams.Access.Checks.{In-any}
use klams.Retention.{
  Entry, Groups, add, by_date, suffix_desc, date_desc, winner, losers, winners, superseded,
  take_weekly, path_of, prune_one_kind,
}

-- How often a path stands in a list of paths, and in a list of entries.
abbrev pub count : Text → List Text → ℕ
count p = sum_by (λ q. if text_eq p q then 1 else 0)

abbrev pub count_entries : Text → List Entry → ℕ
count_entries p = sum_by (λ e. if text_eq p e.path then 1 else 0)

count-map : (p : Text) (es : List Entry) → count p (map path_of es) ≡ count_entries p es
count-map p [] = refl
count-map p (e ∷ es) = omega (arith, count-map p es)

module _ (g : Entry → ℕ) where
  abbrev weigh : Groups → ℕ
  weigh = sum_by (λ (x : ℕ × List Entry). sum_by g x.1)

  add-weight : (e : Entry) (groups : Groups) → weigh (add e groups) ≡ g e + weigh groups
  unfolding add
  add-weight e [] = omega arith
  add-weight e ((d, group) ∷ more) =
      ground (arith, add-weight e more, sum_by-append g group (e ∷ []))

  by_date-weight :
      (es : List Entry) (groups : Groups) → weigh (by_date es groups) ≡ sum_by g es + weigh groups
  unfolding by_date
  by_date-weight [] groups = omega arith
  by_date-weight (e ∷ es) groups =
      omega (arith, by_date-weight es (add e groups), add-weight e groups)

  split_group :
      (s keep lost : List Entry)
      → sum_by g (winner s keep) + sum_by g (losers s ++ lost)
        ≡ sum_by g s + (sum_by g keep + sum_by g lost)
  split_group [] keep lost = omega arith
  split_group (e ∷ es) keep lost = omega (arith, sum_by-append g es lost)

  winners-weight :
      (groups : Groups) → sum_by g (winners groups) + sum_by g (superseded groups) ≡ weigh groups
  unfolding winners superseded
  winners-weight [] = omega arith
  winners-weight ((d, group) ∷ more) = omega (
    arith,
    split_group (sort_by suffix_desc group) (winners more) (superseded more),
    sum_by-sort_by suffix_desc g group,
    winners-weight more,
  )

module _ (is_sunday : ℕ → Bool) (daily : List Entry) where
  -- The entries kept daily are passed over.
  abbrev Seen : List Entry → Type 0
  Seen = All (λ e. any (λ d. d.date == e.date) daily ≡ true)

  take_weekly-skip :
      (n : ℕ) (xs ys : List Entry)
      → Seen xs
      → take_weekly is_sunday daily n (xs ++ ys) ≡ take_weekly is_sunday daily n ys
  unfolding take_weekly
  take_weekly-skip zero xs ys h = refl
  take_weekly-skip (suc n) [] ys h = refl
  take_weekly-skip (suc n) (e ∷ xs) ys h =
      let b : (is_sunday e.date && not (any (λ d. d.date == e.date) daily)) ≡ false =
        ground (arith, h.0) in
      rw b (take_weekly-skip (suc n) xs ys h.1)

  take_weekly-le :
      (g : Entry → ℕ) (n : ℕ) (es : List Entry)
      → sum_by g (take_weekly is_sunday daily n es) ≤ sum_by g es
  unfolding take_weekly
  take_weekly-le g zero es = omega arith
  take_weekly-le g (suc n) [] = omega arith
  take_weekly-le g (suc n) (e ∷ es) =
      ground (arith, take_weekly-le g n es, take_weekly-le g (suc n) es)

  take_weekly-length : (n : ℕ) (es : List Entry) → length (take_weekly is_sunday daily n es) ≤ n
  unfolding take_weekly
  take_weekly-length zero es = omega arith
  take_weekly-length (suc n) [] = omega arith
  take_weekly-length (suc n) (e ∷ es) =
      ground (arith, take_weekly-length n es, take_weekly-length (suc n) es)

-- What holds of every member holds all over.
In_All : {A : Type 0} (P : A → Type 0) (xs : List A) → ((a : A) → In a xs → P a) → All P xs
In_All P [] h = tt
In_All P (x ∷ xs) h = (h x (here refl), In_All P xs (λ a i. h a (there i)))

daily_lem : (daily : List Entry) → Seen (λ d. true) daily daily
daily_lem daily = In_All _ daily (λ e i. In-any _ e daily i ((==_iff e.date e.date).1 refl))

-- The kept ones weigh no more than all those that `keep` holds.
chosen-le :
    (g : Entry → ℕ) (is_sunday : ℕ → Bool) (n m : ℕ) (keep : List Entry)
    → sum_by g (take n keep ++ take_weekly is_sunday (take n keep) m keep) ≤ sum_by g keep
chosen-le g is_sunday n m keep =
    let daily = take n keep in
    let all_keep = take-append-drop n keep in
    let skip : take_weekly is_sunday daily m (daily ++ drop n keep)
        ≡ take_weekly is_sunday daily m (drop n keep) =
      take_weekly-skip is_sunday daily m daily (drop n keep) (daily_lem daily) in
    let weekly : sum_by g (take_weekly is_sunday daily m keep)
        ≡ sum_by g (take_weekly is_sunday daily m (drop n keep)) =
      ap (λ k. sum_by g (take_weekly is_sunday daily m k)) (sym all_keep) ∙ ap (sum_by g) skip in
    omega (
      arith,
      sum_by-append g daily (take_weekly is_sunday daily m keep),
      weekly,
      take_weekly-le is_sunday daily g m (drop n keep),
      sum_by-append g daily (drop n keep),
      ap (sum_by g) all_keep,
    )

any-count : (p : Text) (ps : List Text) → any (text_eq p) ps ≡ ltb 0 (count p ps)
any-count p [] = refl
any-count p (q ∷ ps) = ground (arith, any-count p ps)

-- Of the entries that are not among the kept paths, a kept path has none, another path all.
count-filter_by :
    (p : Text) (kept : List Text) (es : List Entry)
    → count_entries p (filter_by (λ e. not (any (text_eq e.path) kept)) es)
      ≡ (if any (text_eq p) kept then 0 else count_entries p es)
count-filter_by p kept [] = ground arith
count-filter_by p kept (e ∷ es) = elim (Bool-cases (text_eq p e.path)) [
  | inl q ↦
      let same = ap (λ r. any (text_eq r) kept) ((text_eq_iff p e.path).0 q) in
      ground (arith, q, same, count-filter_by p kept es)
  | inr q ↦ ground (arith, q, count-filter_by p kept es)
]

-- The numbers of one path: in the listing, in what is to keep, kept, left of that, and superseded.
once_only :
    (all_of keep lost kept rest : ℕ) (b : Bool)
    → all_of ≤ 1
    → keep + lost ≡ all_of
    → kept ≤ keep
    → b ≡ ltb 0 kept
    → rest ≡ (if b then 0 else keep)
    → kept + (rest + lost) ≡ all_of
once_only all_of keep lost kept rest b one halves few found filtered = ground arith

-- A path that the listing has once is kept or deleted, not both, and no other path is either.
pub prune_one_kind-count :
    (is_sunday : ℕ → Bool) (daily_count weekly_count : ℕ) (entries : List Entry) (p : Text)
    → count_entries p entries ≤ 1
    → let r = prune_one_kind is_sunday daily_count weekly_count entries in
      count p r.kept + count p r.deleted ≡ count_entries p entries
unfolding prune_one_kind
prune_one_kind-count is_sunday n m entries p once =
    let g : Entry → ℕ = λ e. if text_eq p e.path then 1 else 0 in
    let groups = by_date entries [] in
    let keep = sort_by date_desc (winners groups) in
    let chosen = take n keep ++ take_weekly is_sunday (take n keep) m keep in
    let kept = map path_of chosen in
    let rest = filter_by (λ e. not (any (text_eq e.path) kept)) keep in
    let all_of = by_date-weight g entries [] in
    let halves = winners-weight g groups in
    let sorted = sum_by-sort_by date_desc g (winners groups) in
    let few = chosen-le g is_sunday n m keep in
    let c1 = count-map p chosen in
    let c2 = count-map p rest in
    let c3 = count-map p (superseded groups) in
    let joined =
      sum_by-append (λ q. if text_eq p q then 1 else 0) (map path_of rest)
        (map path_of (superseded groups)) in
    let filtered = count-filter_by p kept keep in
    let found = any-count p kept in
    let numbers =
      once_only (count_entries p entries) (sum_by g keep) (sum_by g (superseded groups))
        (count p kept) (sum_by g rest) (any (text_eq p) kept) once
        (omega (arith, all_of, halves, sorted)) (omega (arith, few, c1)) found filtered in
    omega (arith, numbers, joined, c2, c3)

-- At most the daily and the weekly number of backups are kept, and at least the daily number, or the
-- number of winners (the latest entry of each date group) if that is smaller.
pub prune_one_kind-length :
    (is_sunday : ℕ → Bool) (daily_count weekly_count : ℕ) (entries : List Entry)
    → let r = prune_one_kind is_sunday daily_count weekly_count entries in
      (length r.kept ≤ daily_count + weekly_count)
      × (min daily_count (length (winners (by_date entries []))) ≤ length r.kept)
unfolding prune_one_kind
prune_one_kind-length is_sunday n m entries =
    let keep = sort_by date_desc (winners (by_date entries [])) in
    let daily = take n keep in
    let weekly = take_weekly is_sunday daily m keep in
    let whole = length-map (daily ++ weekly) path_of in
    let split = length-append daily weekly in
    let d = length-take n keep in
    let w = take_weekly-length is_sunday daily m keep in
    let sorted = length-sort_by date_desc (winners (by_date entries [])) in
    (omega (arith, whole, split, d, w), omega (arith, whole, split, d, sorted))
