-- ===== src/Copies/Candidates.antt =====
-- The candidates that the two scrolls collect: each point once, with its copies, none missed.
use klams.Common.{
  ℕ, Bool, true, false, ◌||◌, Option, none, some, List, [], ◌∷◌, ◌++◌, any, All, All-append, In,
  here, there, Result, ok, err, ◌==◌, ==_iff, ◌≡◌, ◌≢◌, refl, sym, ap, subst, ◌∙◌, Bool-cases, inl,
  inr, if◌then◌else◌,
}
use klams.Facts.{StoreError}
use klams.Copies.{Fields, CopyEntry, parse_copies}
use klams.Copies.Calls.{Page, candidates_of, scan_pages}

-- One of the candidates has the id.
abbrev pub has_id : ℕ → List (ℕ × List CopyEntry) → Bool
has_id id acc = any (λ c. c.0 == id) acc

abbrev pub Distinct : List (ℕ × List CopyEntry) → Type 0
Distinct [] = Unit
Distinct (c ∷ cs) = All (λ (d : ℕ × List CopyEntry). d.0 ≢ c.0) cs × Distinct cs

-- The candidate is the point, with its copies.
abbrev pub IsPoint : (ℕ → Option Fields) → ℕ × List CopyEntry → Type 0
IsPoint point c = (p : Fields) × ((point c.0 ≡ some p) × (c.1 ≡ parse_copies p))

abbrev pub Sound : (ℕ → Option Fields) → List (ℕ × List CopyEntry) → Type 0
Sound point acc = All (IsPoint point) acc × Distinct acc

abbrev pub IsPage : (ℕ → Option Fields) → Page → Type 0
IsPage point ps = (id : ℕ) (p : Fields) → In (some id, p) ps → point id ≡ some p

has_id-append :
    (id : ℕ) (xs ys : List (ℕ × List CopyEntry)) → has_id id xs ≡ true → has_id id (xs ++ ys) ≡ true
has_id-append id [] ys h = cc
has_id-append id (x ∷ xs) ys h = elim (Bool-cases (x.0 == id)) [
  | inl e ↦ rw e refl
  | inr e ↦ let k : has_id id xs ≡ true = rw e at h in rw (e, has_id-append id xs ys k) refl
]

has_id-last :
    (id : ℕ) (cs : List CopyEntry) (xs : List (ℕ × List CopyEntry))
    → has_id id (xs ++ (id, cs) ∷ []) ≡ true
has_id-last id cs [] = rw ((==_iff id id).1 refl) refl
has_id-last id cs (x ∷ xs) = rw (has_id-last id cs xs) (or_true (x.0 == id))
  where
    or_true : (b : Bool) → (b || true) ≡ true
    or_true true = refl
    or_true false = refl

pub has_id-none :
    (id : ℕ) (xs : List (ℕ × List CopyEntry))
    → All (λ (d : ℕ × List CopyEntry). d.0 ≢ id) xs
    → has_id id xs ≡ false
has_id-none id [] h = refl
has_id-none id (x ∷ xs) h = elim (Bool-cases (x.0 == id)) [
  | inl e ↦ elim (h.0 ((==_iff x.0 id).0 e)) [ ]
  | inr e ↦ rw (e, has_id-none id xs h.1) refl
]

none-has_id :
    (id : ℕ) (xs : List (ℕ × List CopyEntry))
    → has_id id xs ≡ false
    → All (λ (d : ℕ × List CopyEntry). d.0 ≢ id) xs
none-has_id id [] h = tt
none-has_id id (x ∷ xs) h = elim (Bool-cases (x.0 == id)) [
  | inl e ↦ let k : true ≡ false = rw e at h in cc
  | inr e ↦
      let k : has_id id xs ≡ false = rw e at h in
      (λ c. let d = sym ((==_iff x.0 id).1 c) ∙ e in cc, none-has_id id xs k)
]

Distinct-last :
    (id : ℕ) (cs : List CopyEntry) (xs : List (ℕ × List CopyEntry))
    → Distinct xs
    → All (λ (d : ℕ × List CopyEntry). d.0 ≢ id) xs
    → Distinct (xs ++ (id, cs) ∷ [])
Distinct-last id cs [] d n = (tt, tt)
Distinct-last id cs (x ∷ xs) d n = (
  All-append (λ (e : ℕ × List CopyEntry). e.0 ≢ x.0) xs ((id, cs) ∷ []) d.0 (λ c. n.0 (sym c), tt),
  Distinct-last id cs xs d.1 n.1,
)

candidates_of-keeps :
    (id : ℕ) (ps : Page) (acc : List (ℕ × List CopyEntry))
    → has_id id acc ≡ true
    → has_id id (candidates_of ps acc) ≡ true
candidates_of-keeps id [] acc h = h
candidates_of-keeps id ((none, p) ∷ ps) acc h = candidates_of-keeps id ps acc h
candidates_of-keeps id ((some i, p) ∷ ps) acc h = elim (Bool-cases (has_id i acc)) [
  | inl e ↦ rw e (candidates_of-keeps id ps acc h)
  | inr e ↦ rw e (
      candidates_of-keeps id ps (acc ++ (i, parse_copies p) ∷ [])
        (has_id-append id acc ((i, parse_copies p) ∷ []) h))
]

candidates_of-Sound :
    (point : ℕ → Option Fields) (ps : Page) (acc : List (ℕ × List CopyEntry))
    → IsPage point ps
    → Sound point acc
    → Sound point (candidates_of ps acc)
candidates_of-Sound point [] acc g s = s
candidates_of-Sound point ((none, p) ∷ ps) acc g s =
    candidates_of-Sound point ps acc (λ id x i. g id x (there i)) s
candidates_of-Sound point ((some i, p) ∷ ps) acc g s =
    let rest : IsPage point ps = λ id x j. g id x (there j) in
    elim (Bool-cases (has_id i acc)) [
      | inl e ↦ rw e (candidates_of-Sound point ps acc rest s)
      | inr e ↦ rw e (
          candidates_of-Sound point ps (acc ++ (i, parse_copies p) ∷ []) rest (
            All-append (IsPoint point) acc ((i, parse_copies p) ∷ []) s.0
                ((p, (g i p (here refl), refl)), tt),
            Distinct-last i (parse_copies p) acc s.1 (none-has_id i acc e),
          ))
    ]

candidates_of-finds :
    (id : ℕ) (p : Fields) (ps : Page) (acc : List (ℕ × List CopyEntry))
    → In (some id, p) ps
    → has_id id (candidates_of ps acc) ≡ true
candidates_of-finds id p [] acc i = elim i [ ]
candidates_of-finds id p ((o, x) ∷ ps) acc (here e) =
    let k : some id ≡ o = ap (λ (y : Option ℕ × Fields). y.0) e in
    let at_first : has_id id (candidates_of ((some id, x) ∷ ps) acc) ≡ true =
      elim (Bool-cases (has_id id acc)) [
        | inl h ↦ rw h (candidates_of-keeps id ps acc h)
        | inr h ↦ rw h (
            candidates_of-keeps id ps (acc ++ (id, parse_copies x) ∷ [])
              (has_id-last id (parse_copies x) acc))
      ] in
    subst (λ (y : Option ℕ). has_id id (candidates_of ((y, x) ∷ ps) acc) ≡ true) k at_first
candidates_of-finds id p ((none, x) ∷ ps) acc (there i) = candidates_of-finds id p ps acc i
candidates_of-finds id p ((some j, x) ∷ ps) acc (there i) =
    candidates_of-finds id p ps (if has_id j acc then acc else acc ++ (j, parse_copies x) ∷ []) i

pub scan_pages-keeps :
    (id : ℕ) (rs : List (Result StoreError Page)) (acc res : List (ℕ × List CopyEntry))
    → scan_pages rs acc ≡ ok res
    → has_id id acc ≡ true
    → has_id id res ≡ true
scan_pages-keeps id [] acc res h k =
    let e : acc ≡ res = cc in subst (λ (l : List (ℕ × List CopyEntry)). has_id id l ≡ true) e k
scan_pages-keeps id (err e ∷ rs) acc res h k = cc
scan_pages-keeps id (ok ps ∷ rs) acc res h k =
    scan_pages-keeps id rs (candidates_of ps acc) res h (candidates_of-keeps id ps acc k)

pub scan_pages-Sound :
    (point : ℕ → Option Fields) (rs : List (Result StoreError Page))
    (acc res : List (ℕ × List CopyEntry))
    → ((ps : Page) → In (ok ps) rs → IsPage point ps)
    → scan_pages rs acc ≡ ok res
    → Sound point acc
    → Sound point res
scan_pages-Sound point [] acc res g h s = let e : acc ≡ res = cc in subst (Sound point) e s
scan_pages-Sound point (err e ∷ rs) acc res g h s = elim (not_ok h) [ ]
  where
    not_ok : ◌≡◌ {A = Result StoreError (List (ℕ × List CopyEntry))} (err e) (ok res) → ⊥
    not_ok h = cc
scan_pages-Sound point (ok ps ∷ rs) acc res g h s =
    scan_pages-Sound point rs (candidates_of ps acc) res (λ x i. g x (there i)) h
      (candidates_of-Sound point ps acc (g ps (here refl)) s)

pub scan_pages-finds :
    (id : ℕ) (p : Fields) (ps : Page) (rs : List (Result StoreError Page))
    (acc res : List (ℕ × List CopyEntry))
    → scan_pages rs acc ≡ ok res
    → In (ok ps) rs
    → In (some id, p) ps
    → has_id id res ≡ true
scan_pages-finds id p ps [] acc res h i j = elim i [ ]
scan_pages-finds id p ps (err e ∷ rs) acc res h i j = cc
scan_pages-finds id p ps (ok x ∷ rs) acc res h (here e) j =
    let k : ps ≡ x = cc in
    scan_pages-keeps id rs (candidates_of x acc) res h (
      subst (λ (y : Page). has_id id (candidates_of y acc) ≡ true) k
        (candidates_of-finds id p ps acc j))
scan_pages-finds id p ps (ok x ∷ rs) acc res h (there i) j =
    scan_pages-finds id p ps rs (candidates_of x acc) res h i j

-- A page that fails ends the scan.
pub scan_pages-err :
    (e : StoreError) (rs : List (Result StoreError Page)) (acc res : List (ℕ × List CopyEntry))
    → scan_pages rs acc ≡ ok res
    → In (err e) rs
    → ⊥
scan_pages-err e [] acc res h i = elim i [ ]
scan_pages-err e (err x ∷ rs) acc res h i = cc
scan_pages-err e (ok ps ∷ rs) acc res h (here k) = cc
scan_pages-err e (ok ps ∷ rs) acc res h (there i) =
    scan_pages-err e rs (candidates_of ps acc) res h i
