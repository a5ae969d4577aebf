-- ===== src/Timeline/Tests.antt =====
-- A timeline of three facts and two events in pages of two, and a page of knowledge.
use klams.Common.{
  ℕ, ◌≡◌, refl, true, false, none, some, List, [], ◌∷◌, ◌++◌, arith, take, leb, length,
}
use klams.Common.Rearrange.{Each}
use klams.Common.Sort.{sort_by}
use klams.Timeline.{
  Row, Point, MemoryState, MemoryKind, fact, knowledge, event, live, ListMemoriesQuery, not_older,
  list_memories, list_memories_knowledge_page, wants,
}
use klams.Timeline.Queries.{matching_facts, matching_events, at_cursor}
use klams.Timeline.Walk.{walk, walk-sorted, DistinctIds}

abbrev row : MemoryKind → ℕ → ℕ → Row
row k t i = record { kind = k; created_at = t; id = i; author_id = 1; deleted_at = none }

abbrev facts_table : List Row
facts_table = row fact 10 1 ∷ row fact 40 2 ∷ row fact 30 3 ∷ []

abbrev events_table : List Row
events_table = row event 20 4 ∷ row event 40 5 ∷ []

abbrev query : ListMemoriesQuery
query = record {
  since = 0;
  until = 100;
  kinds = fact ∷ event ∷ [];
  state = live;
  authors = [];
  limit = 2;
  cursor = none;
}

abbrev no_scroll : List ℕ → MemoryState → ℕ → ℕ → List Point
no_scroll authors state start limit = []

first_page :
    list_memories no_scroll facts_table events_table query
    ≡ (row event 40 5 ∷ row fact 40 2 ∷ [], some (40, 2))
unfolding list_memories not_older
first_page = refl

abbrev point : ℕ → ℕ → Point
point t i = record { item = some (t, i); author = some 1; deleted_at = none }

-- The scroll starts at the key, inclusive.
abbrev points : List ℕ → MemoryState → ℕ → ℕ → List Point
points authors state start limit = take limit (
    point 50 8
    ∷ record { item = none; author = none; deleted_at = none }
    ∷ point 30 7
    ∷ point 20 6
    ∷ [])

knowledge_page :
    list_memories_knowledge_page points (record query { cursor = some (50, 8) }) 1
    ≡ (row knowledge 30 7 ∷ [], true)
unfolding list_memories_knowledge_page
knowledge_page = refl

no_knowledge : wants knowledge query ≡ false
unfolding wants
no_knowledge = refl

few : leb (length (matching_facts query facts_table ++ matching_events query events_table)) 5 ≡ true
unfolding matching_facts matching_events wants
few = refl

distinct : Each DistinctIds (facts_table ++ events_table)
distinct = (
  (omega arith, (omega arith, (omega arith, (omega arith, tt)))),
  (
    (omega arith, (omega arith, (omega arith, tt))),
    ((omega arith, (omega arith, tt)), ((omega arith, tt), (tt, tt))),
  ),
)

walk-sorted_example :
    walk no_scroll facts_table events_table 6 (at_cursor query none)
    ≡ sort_by not_older (matching_facts query facts_table ++ matching_events query events_table)
walk-sorted_example =
    walk-sorted no_scroll facts_table events_table query 6 (omega arith) (omega arith) no_knowledge
      distinct (ground (arith, few))
