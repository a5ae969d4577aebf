-- ===== src/Timeline/Walk.antt =====
-- Who follows the cursors sees every row once, newest first.
use klams.Common.{
  ℕ, zero, suc, ◌≤◌, ◌<◌, ◌≡◌, ◌≢◌, refl, ap, sym, subst, ◌∙◌, inl, inr, Bool, true, false, ◌&&◌,
  ◌||◌, Option, none, some, List, [], ◌∷◌, ◌++◌, arith, if◌then◌else◌, ◌==◌, length, drop,
  filter_by, length-drop, take-append-drop, take_all, Option-cases, All-mono,
}
use klams.Common.Sort.{sort_by, length-sort_by, sort_by-IsSorted, sort_by-All}
use klams.Common.Rearrange.{Each, Untied, Each-Rearranged, Untied-sym}
use mathlib.Core.List.{append-nil}
use klams.Timeline.{
  Row, Key, MemoryState, Point, fact, knowledge, event, ListMemoriesQuery, not_older, before,
  in_window, by_author, in_state, page_of, list_memories_facts_page, list_memories_events_page,
  list_memories_knowledge_page, last_key, take_merged_page, wants, no_page, list_memories,
}
use klams.Timeline.Merge.{All-take, Rearranged-sort_by}
use klams.Timeline.Pages.{
  not_older-total, not_older-trans, IsUntied, sorted, cut, Told, take_merged_page-Told,
}
use klams.Timeline.Filters.{
  filter_by-append, filter_by-within, Each-filter_left, Each-filter_right, sorted-filter_by,
  filter_by-before, filter_by-All, last_key-All,
}
use klams.Timeline.Queries.{
  matching_facts, matching_events, limit_of, at_cursor, before_trans, ids_lem, newest, paged,
  clamp_lem, and_assoc, follow,
}

module _ (scroll : List ℕ → MemoryState → ℕ → ℕ → List Point) (facts events : List Row) where
  -- The rows of all pages from the query's on, at most as many pages as the fuel.
  pub walk : ℕ → ListMemoriesQuery → List Row
  walk zero q = []
  walk (suc fuel) q =
      let page = list_memories scroll facts events q in
      follow page.0 page.1 (λ k. walk fuel (at_cursor q (some k)))

  module _ (q : ListMemoriesQuery) (l : 1 ≤ limit_of q) (m : limit_of q ≤ 500)
      (no_knowledge : wants knowledge q ≡ false) where
    -- What is left to tell from a cursor on, of the facts and of the events.
    left_facts : Option Key → List Row
    left_facts c = filter_by (before c) (matching_facts q facts)

    left_events : Option Key → List Row
    left_events c = filter_by (before c) (matching_events q events)

    abbrev whole : List Row
    whole = matching_facts q facts ++ matching_events q events

    abbrev left : Option Key → List Row
    left c = filter_by (before c) whole

    facts_lem :
        (c : Option Key)
        → (if wants fact (at_cursor q c)
            then list_memories_facts_page facts (at_cursor q c) (limit_of q)
            else no_page)
          ≡ newest (limit_of q) (left_facts c)
    unfolding list_memories_facts_page matching_facts left_facts wants
    facts_lem c =
        let a = λ (r : Row).
          (in_window q.since q.until r && by_author q.authors r) && in_state q.state r in
        let w = λ (r : Row).
          (in_window q.since q.until r && by_author q.authors r)
          && (in_state q.state r && before c r) in
        ap (λ n. if wants fact q then page_of n w facts else no_page) (clamp_lem (limit_of q) l m)
        ∙ paged (limit_of q) (wants fact q) a w c facts l (λ r.
          and_assoc (in_window q.since q.until r && by_author q.authors r) (in_state q.state r)
            (before c r))

    events_lem :
        (c : Option Key)
        → (if wants event (at_cursor q c)
            then list_memories_events_page events (at_cursor q c) (limit_of q)
            else no_page)
          ≡ newest (limit_of q) (left_events c)
    unfolding list_memories_events_page matching_events left_events wants
    events_lem c =
        let a = λ (r : Row). in_window q.since q.until r && by_author q.authors r in
        let w = λ (r : Row). (in_window q.since q.until r && by_author q.authors r) && before c r in
        ap (λ n. if wants event q then page_of n w events else no_page) (clamp_lem (limit_of q) l m)
        ∙ paged (limit_of q) (wants event q) a w c events l (λ r. refl)

    -- The merge of three pages.
    merged : (f e k : List Row × Bool) → List Row × Option Key
    merged f e k = take_merged_page (f.0 ++ e.0 ++ k.0) (limit_of q) ((f.1 || e.1) || k.1)

    page_lem :
        (c : Option Key)
        → list_memories scroll facts events (at_cursor q c)
          ≡ merged
              (newest (limit_of q) (left_facts c))
              (newest (limit_of q) (left_events c))
              no_page
    unfolding list_memories merged wants
    page_lem c =
        let k_lem : (if wants knowledge q
              then list_memories_knowledge_page scroll (at_cursor q c) (limit_of q)
              else no_page)
            ≡ no_page =
          rw no_knowledge in
        ap
          (λ k.
            merged
              (if wants fact (at_cursor q c)
                then list_memories_facts_page facts (at_cursor q c) (limit_of q)
                else no_page)
              (if wants event (at_cursor q c)
                then list_memories_events_page events (at_cursor q c) (limit_of q)
                else no_page)
              k)
          k_lem
        ∙ ap
            (λ f.
              merged f
                (if wants event (at_cursor q c)
                  then list_memories_events_page events (at_cursor q c) (limit_of q)
                  else no_page)
                no_page)
            (facts_lem c)
        ∙ ap (λ e. merged (newest (limit_of q) (left_facts c)) e no_page) (events_lem c)

    module _ (u : IsUntied whole) where
      left-IsUntied : (c : Option Key) → IsUntied (left c)
      left-IsUntied c = Each-filter_right (before c) (Untied not_older not_older-trans) [] whole u

      page-Told :
          (c : Option Key)
          → Told (limit_of q) (left c) (list_memories scroll facts events (at_cursor q c))
      unfolding merged left_facts left_events
      page-Told c =
          let parts : left c ≡ left_facts c ++ left_events c =
            filter_by-append (before c) (matching_facts q facts) (matching_events q events) in
          let told =
            take_merged_page-Told (limit_of q) (left_facts c) (left_events c) l
              (subst IsUntied parts (left-IsUntied c)) in
          let n = limit_of q in
          let full =
            (length (cut n (left_facts c)) == n || length (cut n (left_events c)) == n) || false in
          let mid : merged (newest n (left_facts c)) (newest n (left_events c)) no_page
              ≡ take_merged_page (cut n (left_facts c) ++ cut n (left_events c)) n full =
            ap (λ rs. take_merged_page rs n full)
              (append-nil (cut n (left_facts c) ++ cut n (left_events c))) in
          let page = page_lem c ∙ mid in
          subst (λ rs. Told n rs (list_memories scroll facts events (at_cursor q c))) (sym parts)
            (subst (Told n (left_facts c ++ left_events c)) (sym page) told)

      -- The rows that the next page starts from are those after this page.
      left_next :
          (c : Option Key) (k : Key)
          → last_key (cut (limit_of q) (left c)) ≡ some k
          → sorted (left (some k)) ≡ drop (limit_of q) (sorted (left c))
      left_next c k h =
          let seen =
            sort_by-All not_older (λ r. before c r ≡ true) (left c)
              (filter_by-All (before c) whole) in
          let (r, b, e) =
            last_key-All (λ r. before c r ≡ true) (cut (limit_of q) (left c)) k
              (All-take (λ r. before c r ≡ true) (limit_of q) (sorted (left c)) seen) h in
          let sub : (x : Row) → before (some k) x ≡ true → before c x ≡ true =
            λ x p. before_trans c r x b (ap (λ y. before (some y) x) e ∙ p) in
          ap sorted (sym (filter_by-within (before (some k)) (before c) whole sub))
          ∙ sorted-filter_by (before (some k)) (left c) (left-IsUntied c)
          ∙ filter_by-before (limit_of q) (sorted (left c)) k
              (sort_by-IsSorted not_older not_older-total not_older-trans (left c))
              (Each-Rearranged (Untied not_older not_older-trans)
                (Untied-sym not_older not_older-trans) (left c) (sorted (left c))
                (Rearranged-sort_by not_older (left c)) (left-IsUntied c))
              h

      walk_lem :
          (fuel : ℕ) (c : Option Key)
          → length (left c) < fuel
          → walk fuel (at_cursor q c) ≡ sorted (left c)
      unfolding walk
      walk_lem zero c h = absurd (omega arith)
      walk_lem (suc fuel) c h =
          let told = page-Told c in
          let len = length-sort_by not_older (left c) in
          elim (Option-cases (list_memories scroll facts events (at_cursor q c)).1) [
            | inl e ↦
                let short = told.ended e in
                rw e (
                  told.rows_eq
                  ∙ take_all (limit_of q) (sorted (left c)) (omega (arith, short, len)))
            | inr (k, e) ↦
                let (at_last, long) = told.goes_on k e in
                let next = left_next c k at_last in
                let fewer : length (left (some k)) < fuel = omega (
                  arith,
                  h,
                  l,
                  long,
                  len,
                  length-sort_by not_older (left (some k)),
                  ap (λ (rs : List Row). length rs) next,
                  length-drop (limit_of q) (sorted (left c)),
                ) in
                rw e (
                  ap (λ rs. rs ++ walk fuel (at_cursor q (some k))) told.rows_eq
                  ∙ ap (λ rs. cut (limit_of q) (left c) ++ rs) (walk_lem fuel (some k) fewer ∙ next)
                  ∙ take-append-drop (limit_of q) (sorted (left c)))
          ]

-- No two rows have one id.
abbrev pub DistinctIds : Row → Row → Type 0
DistinctIds a b = a.id ≢ b.id

all_before : (rs : List Row) → filter_by (before none) rs ≡ rs
unfolding before
all_before [] = refl
all_before (r ∷ rs) = ap (◌∷◌ r) (all_before rs)

IsUntied-ids : (rs : List Row) → Each DistinctIds rs → IsUntied rs
IsUntied-ids [] h = tt
IsUntied-ids (r ∷ rs) h = (
  All-mono (DistinctIds r) (Untied not_older not_older-trans r) rs (untied_lem r) h.0,
  IsUntied-ids rs h.1,
)
  where
    untied_lem : (a b : Row) → DistinctIds a b → Untied not_older not_older-trans a b
    untied_lem a b d = ids_lem a b d

-- Following the cursors from the first page on tells every fact and every event that the query asks
-- for, once, newest first, and ends; on pages of 1 to 500 rows, for a query that does not ask for
-- knowledge, where no two rows have one id.
pub walk-sorted :
    (scroll : List ℕ → MemoryState → ℕ → ℕ → List Point) (facts events : List Row)
    (q : ListMemoriesQuery) (fuel : ℕ)
    → 1 ≤ limit_of q
    → limit_of q ≤ 500
    → wants knowledge q ≡ false
    → Each DistinctIds (facts ++ events)
    → length (matching_facts q facts ++ matching_events q events) < fuel
    → walk scroll facts events fuel (at_cursor q none)
      ≡ sort_by not_older (matching_facts q facts ++ matching_events q events)
unfolding matching_facts matching_events
walk-sorted scroll facts events q fuel l m n d h =
    let whole_rows = matching_facts q facts ++ matching_events q events in
    let all : filter_by (before none) whole_rows ≡ whole_rows = all_before whole_rows in
    let u : IsUntied whole_rows = IsUntied-ids whole_rows (
      Each-filter_right
        (λ r. wants event q && (in_window q.since q.until r && by_author q.authors r)) DistinctIds
        (matching_facts q facts) events
        (Each-filter_left
          (λ r.
            wants fact q
            && ((in_window q.since q.until r && by_author q.authors r) && in_state q.state r))
          DistinctIds facts events d)) in
    walk_lem scroll facts events q l m n u fuel none (subst (λ rs. length rs < fuel) (sym all) h)
    ∙ ap sorted all
