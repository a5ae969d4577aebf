-- ===== src/Copies/Removal.antt =====
-- Removing the copy at a place from every point that has it.
use klams.Common.{
  ℕ, zero, Bool, true, false, ◌||◌, some, List, [], any, In, Result, ok, err, Text, ◌≡◌, refl, sym,
  ap, ◌∙◌, Bool-cases, Option-cases, inl, inr, ◌⊎◌,
}
use klams.Facts.{StoreError}
use klams.Copies.{Fields, CopyEntry, parse_copies}
use klams.Copies.Calls.{
  Qdrant, Page, is_at, remove_from, then_scan, scan_pages, find_candidates, delete_by_source_file,
  by_lists, by_fields,
}
use klams.Copies.Collection.{IsCollection, matches_all}
use klams.Copies.Attach.{copies_of, AllIndexed}
use klams.Copies.Candidates.{
  has_id, Sound, IsPage, scan_pages-keeps, scan_pages-Sound, scan_pages-finds, scan_pages-err,
}
use klams.Copies.Without.{without, any_In, lost_if}
use klams.Copies.Without.{without, any_In, lost_if}
use klams.Copies.Losses.{remove_all-AllLost}

then_scan-ok :
    (rs : List (Result StoreError Page)) (r : Result StoreError (List (ℕ × List CopyEntry)))
    (res : List (ℕ × List CopyEntry))
    → then_scan rs r ≡ ok res
    → (mid : List (ℕ × List CopyEntry)) × ((r ≡ ok mid) × (scan_pages rs mid ≡ ok res))
then_scan-ok rs (err e) res h = elim (not_ok h) [ ]
  where
    not_ok : ◌≡◌ {A = Result StoreError (List (ℕ × List CopyEntry))} (err e) (ok res) → ⊥
    not_ok h = cc
then_scan-ok rs (ok mid) res h = (mid, (refl, h))

or_cases : (a b : Bool) → (a || b) ≡ true → (a ≡ true) ⊎ (b ≡ true)
or_cases true b h = inl refl
or_cases false b h = inr h

module _ (q : Qdrant) (b : IsCollection q) (host : Text) (source_file : Text) where
  -- A scan of one scroll holds every point that matches.
  scan-finds :
      (filter : List (Text × Text)) (acc res : List (ℕ × List CopyEntry)) (s : q.State) (i : ℕ)
      (p : Fields)
      → scan_pages (q.scroll s filter) acc ≡ ok res
      → b.point s i ≡ some p
      → matches_all p filter ≡ true
      → has_id i res ≡ true
  scan-finds filter acc res s i p h at m = elim (b.scrolled_all s filter i p at m) [
    | inl (e, f) ↦ elim (scan_pages-err e (q.scroll s filter) acc res h f) [ ]
    | inr (ps, (page, row)) ↦ scan_pages-finds i p ps (q.scroll s filter) acc res h page row
  ]

  -- The candidates are points with their copies, each once, and every point that has a copy at the
  -- place is among them.
  record Found (s : q.State) (res : List (ℕ × List CopyEntry)) : Type 0 where
    sound : Sound (b.point s) res
    complete :
        (i : ℕ) (p : Fields)
        → b.point s i ≡ some p
        → any (is_at host source_file) (parse_copies p) ≡ true
        → has_id i res ≡ true

  find_candidates-Found :
      (s : q.State) (res : List (ℕ × List CopyEntry))
      → AllIndexed q b s
      → find_candidates q host source_file s ≡ ok res
      → Found s res
  find_candidates-Found s res all h =
      let lists = q.scroll s (by_lists host source_file) in
      let fields = q.scroll s (by_fields host source_file) in
      let (mid, (one, two)) = then_scan-ok fields (scan_pages lists []) res h in
      let page : (filter : List (Text × Text)) (ps : Page)
          → In (ok ps) (q.scroll s filter)
          → IsPage (b.point s) ps =
        λ filter ps i id p j. b.scrolled s filter ps id p i j in
      record {
        sound =
            scan_pages-Sound (b.point s) fields mid res (page (by_fields host source_file)) two (
              scan_pages-Sound (b.point s) lists [] mid (page (by_lists host source_file)) one
                (tt, tt));
        complete = λ i p at has.
            let (c, (j, y)) = any_In host source_file (parse_copies p) has in
            elim (or_cases (matches_all p (by_lists host source_file))
              (matches_all p (by_fields host source_file)) (all i p at c host source_file j y)) [
                | inl m ↦
                    scan_pages-keeps i fields mid res two
                      (scan-finds (by_lists host source_file) [] mid s i p one at m)
                | inr m ↦ scan-finds (by_fields host source_file) mid res s i p two at m
              ];
      }

  -- What removing a place promises.
  pub record Removed (s t : q.State) : Type 0 where
    pub copies_at :
        (i : ℕ) → copies_of (b.point t i) ≡ without host source_file (copies_of (b.point s i))
    pub indexed : AllIndexed q b t

  without_lem :
      (s : q.State) (res : List (ℕ × List CopyEntry)) (i : ℕ)
      → Found s res
      → has_id i res ≡ false
      → copies_of (b.point s i) ≡ without host source_file (copies_of (b.point s i))
  without_lem s res i f gone = elim (Option-cases (b.point s i)) [
    | inl e ↦ rw e refl
    | inr (p, e) ↦ elim (Bool-cases (any (is_at host source_file) (parse_copies p))) [
      | inl y ↦ let k : ◌≡◌ {A = Bool} true false = sym (f.complete i p e y) ∙ gone in cc
      | inr n ↦ rw (e, n) refl
    ]
  ]

  found-Removed :
      (s t : q.State) (n : ℕ) (r : Result StoreError (List (ℕ × List CopyEntry)))
      → AllIndexed q b s
      → find_candidates q host source_file s ≡ r
      → remove_from q host source_file s r ≡ (ok n, t)
      → Removed s t
  found-Removed s t n (err e) all f h = elim (not_ok h) [ ]
    where
      not_ok : ◌≡◌ {A = Result StoreError ℕ × q.State} (err e, s) (ok n, t) → ⊥
      not_ok h =
          let k : ◌≡◌ {A = Result StoreError ℕ} (err e) (ok n) =
            ap (λ (x : Result StoreError ℕ × q.State). x.0) h in
          cc
  found-Removed s t n (ok res) all f h =
      let found = find_candidates-Found s res all f in
      let lost = remove_all-AllLost q b host source_file res zero n s t all found.sound h in
      record {
        copies_at = λ i. elim (Bool-cases (has_id i res)) [
          | inl y ↦
              lost.at_each i
              ∙ ap (λ (x : Bool). lost_if host source_file x (copies_of (b.point s i))) y
          | inr gone ↦
              lost.at_each i
              ∙ ap (λ (x : Bool). lost_if host source_file x (copies_of (b.point s i))) gone
              ∙ without_lem s res i found gone
        ];
        indexed = lost.indexed;
      }

  -- Where removing a file of a host succeeds, in a collection in which a scroll by a place finds
  -- every copy: each point that has the copy keeps its other copies in their order, or is gone if
  -- there are none; the copies of every other point are as before; and a scroll by a place still
  -- finds every copy.
  pub delete_by_source_file-Removed :
      (s t : q.State) (n : ℕ)
      → AllIndexed q b s
      → delete_by_source_file q source_file (some host) s ≡ (ok n, t)
      → Removed s t
  unfolding delete_by_source_file
  delete_by_source_file-Removed s t n all h =
      found-Removed s t n (find_candidates q host source_file s) all refl h
