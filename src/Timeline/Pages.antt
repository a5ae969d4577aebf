-- ===== src/Timeline/Pages.antt =====
-- A merged page holds the newest rows of all sources, and says whether there are more.
use klams.Common.{
  ℕ, zero, suc, ◌+◌, ◌≤◌, min, ◌≡◌, refl, ap, sym, ◌∙◌, inl, inr, Bool, true, false, not, ◌&&◌,
  ◌||◌, Option, none, some, List, [], ◌∷◌, ◌++◌, arith, ltb, ◌==◌, ==_iff, length, take,
  length-append, length-take, Bool-cases,
}
use klams.Common.Sort.{sort_by, length-sort_by}
use klams.Common.Rearrange.{Each, Untied}
use klams.Timeline.Merge.{take-sort_by}
use klams.Timeline.{Row, Key, key_of, not_older, before, last_key, take_merged_page}

pub not_older-total : (a b : Row) → not_older a b ≡ false → not_older b a ≡ true
unfolding not_older
not_older-total a b h = ground (arith, h)

pub not_older-trans :
    (a b c : Row) → not_older a b ≡ true → not_older b c ≡ true → not_older a c ≡ true
unfolding not_older
not_older-trans a b c h k = ground (arith, h, k)

-- A row comes before a key where it is older than the row of the key.
pub before-key : (r k : Row) → before (some (key_of k)) r ≡ not (not_older r k)
unfolding before not_older
before-key r k = ground arith

-- No two rows of the list are tied.
abbrev pub IsUntied : List Row → Type 0
IsUntied = Each (Untied not_older not_older-trans)

abbrev pub sorted : List Row → List Row
sorted = sort_by not_older

take-min : {A : Type 0} (n : ℕ) (xs : List A) → take (min n (length xs)) xs ≡ take n xs
take-min zero xs = let z : min zero (length xs) ≡ 0 = omega arith in rw z refl
take-min (suc n) [] = let z : min (suc n) 0 ≡ 0 = omega arith in rw z refl
take-min (suc n) (x ∷ xs) =
    let z : min (suc n) (suc (length xs)) ≡ suc (min n (length xs)) = omega arith in
    rw z (ap (◌∷◌ x) (take-min n xs))

and_right : (a b : Bool) → (a && b) ≡ true → b ≡ true
and_right true b h = h
and_right false b h = cc

last_key-none : (rs : List Row) → last_key rs ≡ none → length rs ≡ 0
last_key-none [] h = refl
last_key-none (r ∷ []) h = cc
last_key-none (r ∷ s ∷ rs) h = let q = last_key-none (s ∷ rs) h in absurd (omega (arith, q))

-- The test for a further page fails only if every source has told all.
nothing_left :
    (n s t : ℕ)
    → 1 ≤ n
    → ((ltb n (min n s + min n t) || ((min n s == n || min n t == n) || false))
        && (min n (min n s + min n t) == n))
      ≡ false
    → s + t ≤ n
nothing_left n s t k h = ground (arith, h)

module _ (n : ℕ) where
  abbrev pub cut : List Row → List Row
  cut rs = take n (sorted rs)

  length-cut : (rs : List Row) → length (cut rs) ≡ min n (length rs)
  length-cut rs = length-take n (sorted rs) ∙ ap (min n) (length-sort_by not_older rs)

  -- What the merge of the newest n rows of two sources tells.
  pub record Told (rs : List Row) (p : List Row × Option Key) : Type 0 where
    pub rows_eq : p.0 ≡ cut rs
    pub ended : p.1 ≡ none → length rs ≤ n
    pub goes_on : (k : Key) → p.1 ≡ some k → (last_key (cut rs) ≡ some k) × (n ≤ length rs)

  pub take_merged_page-Told :
      (ss ts : List Row)
      → 1 ≤ n
      → IsUntied (ss ++ ts)
      → Told (ss ++ ts) (
          take_merged_page
            (cut ss ++ cut ts)
            n
            ((length (cut ss) == n || length (cut ts) == n) || false))
  unfolding take_merged_page
  take_merged_page-Told ss ts h u =
      let cands = cut ss ++ cut ts in
      let len : length cands ≡ min n (length ss) + min n (length ts) =
        omega (arith, length-append {0} (cut ss) (cut ts), length-cut ss, length-cut ts) in
      let len_parts : length cands ≡ length (cut ss) + length (cut ts) =
        length-append (cut ss) (cut ts) in
      let whole : length (ss ++ ts) ≡ length ss + length ts = length-append ss ts in
      let len_sorted = length-sort_by not_older cands in
      let rows : take (min n (length cands)) (sorted cands) ≡ cut (ss ++ ts) =
        ap (λ k. take (min n k) (sorted cands)) (sym len_sorted)
        ∙ take-min n (sorted cands)
        ∙ take-sort_by not_older not_older-total not_older-trans n ss ts u in
      let test =
        (ltb n (length cands) || ((length (cut ss) == n || length (cut ts) == n) || false))
        && (min n (length cands) == n) in
      let emitted = take (min n (length cands)) (sorted cands) in
      let count : length emitted ≡ min (min n (length cands)) (length (sorted cands)) =
        length-take (min n (length cands)) (sorted cands) in
      record {
        rows_eq = rows;
        ended = λ q. elim (Bool-cases test) [
          | inl e ↦
              let l : last_key emitted ≡ none = rw e at q in
              let z = last_key-none emitted l in
              let full : min n (length cands) ≡ n = (==_iff (min n (length cands)) n).0 (
                and_right
                  (ltb n (length cands)
                    || ((length (cut ss) == n || length (cut ts) == n) || false))
                  (min n (length cands) == n) e) in
              absurd (omega (arith, h, z, count, full, len_sorted))
          | inr e ↦
              let e' : ((ltb n (min n (length ss) + min n (length ts))
                      || ((min n (length ss) == n || min n (length ts) == n) || false))
                    && (min n (min n (length ss) + min n (length ts)) == n))
                  ≡ false =
                rw (← length-cut ss, ← length-cut ts, ← len_parts) e in
              omega (arith, whole, nothing_left n (length ss) (length ts) h e')
        ];
        goes_on = λ k q. elim (Bool-cases test) [
          | inr e ↦ let l : none ≡ some k = rw e at q in cc
          | inl e ↦
              let l : last_key emitted ≡ some k = rw e at q in
              let full : min n (length cands) ≡ n = (==_iff (min n (length cands)) n).0 (
                and_right
                  (ltb n (length cands)
                    || ((length (cut ss) == n || length (cut ts) == n) || false))
                  (min n (length cands) == n) e) in
              (ap last_key (sym rows) ∙ l, omega (arith, full, len, whole))
        ];
      }
