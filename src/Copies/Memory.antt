-- ===== src/Copies/Memory.antt =====
-- A collection in memory, whose calls do what the documentation of Qdrant says.
use klams.Common.{
  ℕ, zero, suc, ◌+◌, true, false, Option, none, some, List, [], ◌∷◌, In, here, there, Result, ok,
  Text, text_eq, text_eq_iff, ◌≡◌, ◌≢◌, refl, sym, ap, subst, ◌∙◌, Bool-cases, inl, inr, ◌⊎◌,
  if◌then◌else◌, arith,
}
use klams.Facts.{StoreError}
use klams.Copies.{Fields, no_fields, field}
use klams.Copies.Calls.{Qdrant, Page}
use klams.Copies.Collection.{IsCollection, Writes, Merged, Cleared, matches_all}
use klams.Copies.Payload.{has}

-- The points by their ids, 0, 1 and so on.
abbrev pub Points : Type 0
Points = List (Option Fields)

abbrev pub nth : Points → ℕ → Option Fields
nth [] i = none
nth (x ∷ xs) zero = x
nth (x ∷ xs) (suc i) = nth xs i

abbrev pub update : (Fields → Option Fields) → Points → ℕ → Points
update f [] i = []
update f (none ∷ xs) zero = none ∷ xs
update f (some p ∷ xs) zero = f p ∷ xs
update f (x ∷ xs) (suc i) = x ∷ update f xs i

abbrev pub merge : Fields → Fields → Fields
merge no_fields p = p
merge (field k v new) p = field k v (merge new p)

abbrev pub take_out : List Text → Fields → Fields
take_out ks no_fields = no_fields
take_out ks (field k v p) = let rest = take_out ks p in if has k ks then rest else field k v rest

abbrev pub rows : ℕ → List (Text × Text) → Points → Page
rows n filter [] = []
rows n filter (none ∷ xs) = rows (suc n) filter xs
rows n filter (some p ∷ xs) =
    let rest = rows (suc n) filter xs in if matches_all p filter then (some n, p) ∷ rest else rest

abbrev pub in_memory : Qdrant
in_memory = record {
  State = Points;
  get_points = λ s i. ok (nth s i);
  set_payload = λ s i new. (ok tt, update (λ p. some (merge new p)) s i);
  delete_payload = λ s i ks. (ok tt, update (λ p. some (take_out ks p)) s i);
  delete_point = λ s i. (ok tt, update (λ p. none) s i);
  delete_matching = λ s filter. (ok tt, s);
  scroll = λ s filter. ok (rows 0 filter s) ∷ [];
}

pub nth-update :
    (f : Fields → Option Fields) (s : Points) (j i : ℕ) → i ≢ j → nth (update f s j) i ≡ nth s i
nth-update f [] j i ne = refl
nth-update f (x ∷ xs) zero zero ne = elim (ne refl) [ ]
nth-update f (none ∷ xs) zero (suc i) ne = refl
nth-update f (some p ∷ xs) zero (suc i) ne = refl
nth-update f (x ∷ xs) (suc j) zero ne = refl
nth-update f (x ∷ xs) (suc j) (suc i) ne = nth-update f xs j i (λ e. ne (ap suc e))

update-none :
    (f : Fields → Option Fields) (s : Points) (i : ℕ) → nth s i ≡ none → nth (update f s i) i ≡ none
update-none f [] i h = refl
update-none f (none ∷ xs) zero h = refl
update-none f (some p ∷ xs) zero h = cc
update-none f (x ∷ xs) (suc i) h = update-none f xs i h

update-some :
    (f : Fields → Option Fields) (s : Points) (i : ℕ) (p : Fields)
    → nth s i ≡ some p
    → nth (update f s i) i ≡ f p
update-some f [] i p h = cc
update-some f (none ∷ xs) zero p h = cc
update-some f (some x ∷ xs) zero p h = let e : x ≡ p = cc in ap f e
update-some f (x ∷ xs) (suc i) p h = update-some f xs i p h

pub merge-Merged : (new p : Fields) → Merged new p (merge new p)
merge-Merged no_fields p k = refl
merge-Merged (field q v new) p k = elim (Bool-cases (text_eq q k)) [
  | inl e ↦ rw e refl
  | inr e ↦ rw e (merge-Merged new p k)
]

pub take_out-Cleared : (ks : List Text) (p : Fields) → Cleared ks p (take_out ks p)
take_out-Cleared ks no_fields k h = refl
take_out-Cleared ks (field q v p) k h = elim (Bool-cases (text_eq q k)) [
  | inl e ↦
      let same : q ≡ k = (text_eq_iff q k).0 e in
      let out : has q ks ≡ false = ap (λ (x : Text). has x ks) same ∙ h in rw (out, e) refl
  | inr e ↦ elim (Bool-cases (has q ks)) [
    | inl y ↦ rw (y, e) (take_out-Cleared ks p k h)
    | inr y ↦ rw (y, e) (take_out-Cleared ks p k h)
  ]
]

row_cases : {A : Type 0} (a x : A) (xs : List A) → In a (x ∷ xs) → (a ≡ x) ⊎ In a xs
row_cases a x xs (here e) = inl e
row_cases a x xs (there i) = inr i

rows-nth :
    (n : ℕ) (filter : List (Text × Text)) (s : Points) (id : ℕ) (p : Fields)
    → In (some id, p) (rows n filter s)
    → (i : ℕ) × ((id ≡ n + i) × (nth s i ≡ some p))
rows-nth n filter [] id p i = elim i [ ]
rows-nth n filter (none ∷ xs) id p i =
    let (j, (e, at)) = rows-nth (suc n) filter xs id p i in (suc j, (omega (arith, e), at))
rows-nth n filter (some x ∷ xs) id p i =
    let later : In (some id, p) (rows (suc n) filter xs)
        → (k : ℕ) × ((id ≡ n + k) × (nth (some x ∷ xs) k ≡ some p)) =
      λ l.
        let (j, (e, at)) = rows-nth (suc n) filter xs id p l in (suc j, (omega (arith, e), at)) in
    elim (Bool-cases (matches_all x filter)) [
      | inr y ↦ let k : In (some id, p) (rows (suc n) filter xs) = rw y at i in later k
      | inl y ↦
          let k : In (some id, p) ((some n, x) ∷ rows (suc n) filter xs) = rw y at i in
          elim (row_cases {A = Option ℕ × Fields} (some id, p) (some n, x) (rows (suc n) filter xs)
            k) [
              | inr l ↦ later l
              | inl e ↦
                  let a : ◌≡◌ {A = Option ℕ} (some id) (some n) =
                    ap (λ (z : Option ℕ × Fields). z.0) e in
                  let b : p ≡ x = ap (λ (z : Option ℕ × Fields). z.1) e in
                  let c : id ≡ n = cc in
                  (0, (omega (arith, c), ap (λ (z : Fields). some z) (sym b)))
            ]
    ]

rows-all :
    (n : ℕ) (filter : List (Text × Text)) (s : Points) (i : ℕ) (p : Fields)
    → nth s i ≡ some p
    → matches_all p filter ≡ true
    → In (some (n + i), p) (rows n filter s)
rows-all n filter [] i p at m = cc
rows-all n filter (none ∷ xs) zero p at m = cc
rows-all n filter (some x ∷ xs) zero p at m =
    let z : n + 0 ≡ n = omega arith in
    let e : x ≡ p = cc in
    let y : matches_all x filter ≡ true = ap (λ (z : Fields). matches_all z filter) e ∙ m in
    rw (y, z) (here (ap (λ (z : Fields). (some n, z)) (sym e)))
rows-all n filter (none ∷ xs) (suc i) p at m =
    let e : n + suc i ≡ suc n + i = omega arith in rw e (rows-all (suc n) filter xs i p at m)
rows-all n filter (some x ∷ xs) (suc i) p at m =
    let e : n + suc i ≡ suc n + i = omega arith in
    let k = rows-all (suc n) filter xs i p at m in
    elim (Bool-cases (matches_all x filter)) [ inl y ↦ rw (y, e) (there k) | inr y ↦ rw (y, e) k ]

pub unit_state :
    (a b : Points) → ◌≡◌ {A = Result StoreError Unit × Points} (ok tt, a) (ok tt, b) → a ≡ b
unit_state a b h = ap (λ (x : Result StoreError Unit × Points). x.1) h

pub update-Writes :
    (f : Fields → Fields) (P : Fields → Fields → Type 0) (s : Points) (id : ℕ)
    → ((p : Fields) → P p (f p))
    → Writes nth s (update (λ p. some (f p)) s id) id P
update-Writes f P s id h = record {
  others = λ i ne. nth-update (λ p. some (f p)) s id i ne;
  on_none = λ e. update-none (λ p. some (f p)) s id e;
  on_some = λ p at. (f p, (update-some (λ x. some (f x)) s id p at, h p));
}

pub removed_lem : (s : Points) (id : ℕ) → nth (update (λ p. none) s id) id ≡ none
removed_lem [] id = refl
removed_lem (none ∷ xs) zero = refl
removed_lem (some p ∷ xs) zero = refl
removed_lem (x ∷ xs) (suc id) = removed_lem xs id

pub scrolled_lem :
    (s : Points) (filter : List (Text × Text)) (ps : Page) (id : ℕ) (p : Fields)
    → In {A = Result StoreError Page} (ok ps) (ok (rows 0 filter s) ∷ [])
    → In (some id, p) ps
    → nth s id ≡ some p
scrolled_lem s filter ps id p (here e) j =
    let k : ps ≡ rows 0 filter s = cc in
    let (i, (same, at)) = rows-nth 0 filter s id p (subst (λ (x : Page). In (some id, p) x) k j) in
    let q : i ≡ id = omega (arith, same) in subst (λ (x : ℕ). nth s x ≡ some p) q at
scrolled_lem s filter ps id p (there i) j = elim i [ ]

pub found_lem :
    (s : Points) (filter : List (Text × Text)) (id : ℕ) (p : Fields)
    → nth s id ≡ some p
    → matches_all p filter ≡ true
    → In (some id, p) (rows 0 filter s)
found_lem s filter id p at m =
    let z : 0 + id ≡ id = omega arith in
    subst (λ (x : ℕ). In (some x, p) (rows 0 filter s)) z (rows-all 0 filter s id p at m)

pub got_lem :
    (a o : Option Fields) → ◌≡◌ {A = Result StoreError (Option Fields)} (ok a) (ok o) → o ≡ a
got_lem a o h = cc

abbrev pub in_memory-IsCollection : IsCollection in_memory
in_memory-IsCollection = record {
  point = nth;
  got = λ s id o h. got_lem (nth s id) o h;
  merges = λ s t id new h.
      subst (λ (x : Points). Writes nth s x id (Merged new))
        (unit_state (update (λ p. some (merge new p)) s id) t h)
        (update-Writes (λ p. merge new p) (Merged new) s id (λ p. merge-Merged new p));
  clears = λ s t id ks h.
      subst (λ (x : Points). Writes nth s x id (Cleared ks))
        (unit_state (update (λ p. some (take_out ks p)) s id) t h)
        (update-Writes (λ p. take_out ks p) (Cleared ks) s id (λ p. take_out-Cleared ks p));
  removes = λ s t id h.
      subst (λ (x : Points). (nth x id ≡ none) × ((i : ℕ) → i ≢ id → nth x i ≡ nth s i))
        (unit_state (update (λ p. none) s id) t h)
        (removed_lem s id, λ i ne. nth-update (λ p. none) s id i ne);
  scrolled = λ s filter ps id p i j. scrolled_lem s filter ps id p i j;
  scrolled_all =
      λ s filter id p at m. inr (rows 0 filter s, (here refl, found_lem s filter id p at m));
}
