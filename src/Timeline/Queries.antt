-- ===== src/Timeline/Queries.antt =====
-- The rows that a query asks for, on all pages, and what one page of them is.
use klams.Common.{
  ℕ, zero, suc, ◌≤◌, ◌≡◌, ◌≢◌, refl, ap, sym, ◌∙◌, Bool, true, false, not, ◌&&◌, Option, none, some,
  List, [], ◌∷◌, ◌++◌, arith, if◌then◌else◌, ◌==◌, length, filter_by,
}
use klams.Common.Sort.{sort_by}
use klams.Timeline.{
  Row, Key, fact, event, ListMemoriesQuery, not_older, key_of, before, in_window, by_author,
  in_state, clamp_limit, page_of, wants, no_page,
}
use klams.Timeline.Pages.{cut}
use klams.Timeline.Filters.{filter_by-and}

-- The facts that a query asks for, and the events, on all pages.
unfoldable pub matching_facts : ListMemoriesQuery → List Row → List Row
unfolding wants
matching_facts q = filter_by λ r.
    wants fact q && ((in_window q.since q.until r && by_author q.authors r) && in_state q.state r)

unfoldable pub matching_events : ListMemoriesQuery → List Row → List Row
unfolding wants
matching_events q =
    filter_by λ r. wants event q && (in_window q.since q.until r && by_author q.authors r)

abbrev pub limit_of : ListMemoriesQuery → ℕ
limit_of q = if q.limit == 0 then 50 else q.limit

abbrev pub at_cursor : ListMemoriesQuery → Option Key → ListMemoriesQuery
at_cursor q c = record q { cursor = c }

pub before_trans :
    (c : Option Key) (r x : Row)
    → before c r ≡ true
    → before (some (key_of r)) x ≡ true
    → before c x ≡ true
unfolding before
before_trans none r x b p = refl
before_trans (some (ts, id)) r x b p = ground (arith, b, p)

pub ids_lem : (a b : Row) → a.id ≢ b.id → not_older a b ≡ not (not_older b a)
unfolding not_older
ids_lem a b d = ground (arith, d)

-- The newest rows, and whether there is a full page of them.
abbrev pub newest : ℕ → List Row → List Row × Bool
newest n rs = (cut n rs, length (cut n rs) == n)

pub none_wanted : (rs : List Row) → filter_by (λ r. false) rs ≡ []
none_wanted [] = refl
none_wanted (r ∷ rs) = none_wanted rs

pub nothing : (n : ℕ) → 1 ≤ n → no_page ≡ newest n []
unfolding sort_by
nothing zero h = absurd (omega arith)
nothing (suc n) h = let e : (0 == suc n) ≡ false = ground arith in rw e

-- A page of a source, whether the query wants the source or not.
pub paged :
    (n : ℕ) (want : Bool) (a w : Row → Bool) (c : Option Key) (table : List Row)
    → 1 ≤ n
    → ((r : Row) → w r ≡ (a r && before c r))
    → (if want then page_of n w table else no_page)
      ≡ newest n (filter_by (before c) (filter_by (λ r. want && a r) table))
unfolding page_of
paged n true a w c table h k = ap (newest n) (filter_by-and (before c) a w table k)
paged n false a w c table h k =
    nothing n h ∙ ap (λ rs. newest n (filter_by (before c) rs)) (sym (none_wanted table))

pub clamp_lem : (n : ℕ) → 1 ≤ n → n ≤ 500 → clamp_limit n ≡ n
clamp_lem n h k = omega (arith, h, k)

pub and_assoc : (a b c : Bool) → (a && (b && c)) ≡ ((a && b) && c)
and_assoc true b c = refl
and_assoc false b c = refl

-- A page, and the pages from its next key on.
abbrev pub follow : List Row → Option Key → (Key → List Row) → List Row
follow rows none rest = rows
follow rows (some k) rest = rows ++ rest k
