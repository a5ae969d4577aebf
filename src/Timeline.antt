-- ===== src/Timeline.antt =====
-- crates/klams-store/src/composite.rs with the page queries of crates/klams-store/src/postgres.rs and
-- crates/klams-store/src/qdrant.rs: the timeline of memories, newest first, page by page.
-- Times (in nanoseconds) and ids are numbers. What a row says beside its key, author and deletion is
-- left out, and so are the references to authors, which a row gets by a look-up of its author's id.
pub mod Merge
pub mod Pages
pub mod Filters
pub mod Queries
pub mod Walk
mod Tests
use klams.Common.{
  ℕ, suc, ◌+◌, ◌-◌, ◌*◌, min, max, Bool, true, false, not, ◌&&◌, ◌||◌, Option, none, some, List, [],
  ◌∷◌, ◌++◌, if◌then◌else◌, ltb, leb, ◌==◌, length, take, filter_by, any, is_empty, is_some, map,
}
use klams.Common.Sort.{sort_by}

pub data MemoryKind : Type 0 where
  fact knowledge event : MemoryKind

pub data MemoryState : Type 0 where
  live deleted all : MemoryState

-- `ListMemoriesRow`
pub record Row : Type 0 where
  pub kind : MemoryKind
  pub created_at : ℕ
  pub id : ℕ
  pub author_id : ℕ
  pub deleted_at : Option ℕ

-- The `(created_at, id)` keyset.
abbrev pub Key : Type 0
Key = ℕ × ℕ

-- `ListMemoriesQuery`; the cursor is decoded.
pub record ListMemoriesQuery : Type 0 where
  pub since : ℕ
  pub until : ℕ
  pub kinds : List MemoryKind
  pub state : MemoryState
  pub authors : List ℕ
  pub limit : ℕ
  pub cursor : Option Key

-- `b.0.cmp(&a.0).then_with(|| b.1.cmp(&a.1)) != Greater`
unfoldable pub not_older : Row → Row → Bool
not_older a b = ltb b.created_at a.created_at || (b.created_at == a.created_at && leb b.id a.id)

-- `(created_at, id) < (ts, id)`
unfoldable pub before : Option Key → Row → Bool
before none r = true
before (some (ts, id)) r = ltb r.created_at ts || (r.created_at == ts && ltb r.id id)

abbrev pub in_state : MemoryState → Row → Bool
in_state live r = not (is_some r.deleted_at)
in_state deleted r = is_some r.deleted_at
in_state all r = true

abbrev pub by_author : List ℕ → Row → Bool
by_author authors r = is_empty authors || any (λ a. a == r.author_id) authors

abbrev pub in_window : (since until : ℕ) → Row → Bool
in_window since until r = leb since r.created_at && ltb r.created_at until

-- `i64::from(limit.clamp(1, 500))`
abbrev pub clamp_limit : ℕ → ℕ
clamp_limit limit = min (max limit 1) 500

-- The rows of a page, newest first, and whether it offers a next key.
abbrev pub Page : Type 0
Page = List Row × Bool

-- `ORDER BY created_at DESC, id DESC LIMIT …` of the rows that the `WHERE` clause lets through.
unfoldable pub page_of : (limit : ℕ) → (Row → Bool) → List Row → Page
unfolding sort_by
page_of limit where_clause table =
    let rows = take limit (sort_by not_older (filter_by where_clause table)) in
    (rows, length rows == limit)

unfoldable pub list_memories_facts_page :
    (table : List Row) → ListMemoriesQuery → (limit : ℕ) → Page
unfolding page_of before
list_memories_facts_page table q limit =
    page_of (clamp_limit limit)
      (λ r.
        (in_window q.since q.until r && by_author q.authors r)
        && (in_state q.state r && before q.cursor r))
      table

-- Events have no state.
unfoldable pub list_memories_events_page :
    (table : List Row) → ListMemoriesQuery → (limit : ℕ) → Page
unfolding page_of before
list_memories_events_page table q limit =
    page_of (clamp_limit limit)
      (λ r. (in_window q.since q.until r && by_author q.authors r) && before q.cursor r) table

-- A point of the knowledge collection; what does not parse is none.
pub record Point : Type 0 where
  pub item : Option (ℕ × ℕ)
  pub author : Option ℕ
  pub deleted_at : Option ℕ

abbrev pub row_of : Key → ℕ → Option ℕ → Row
row_of k author deleted_at = record {
  kind = knowledge;
  created_at = k.0;
  id = k.1;
  author_id = author;
  deleted_at = deleted_at;
}

-- One point, with the rows so far and the rest of the loop.
abbrev pub scan_point :
    ListMemoriesQuery → (limit : ℕ) → List Row → Point → (List Row → Page) → Page
scan_point q limit out p rest = elim p.item [
  | none ↦ rest out
  | some k ↦
      let r = row_of k 0 none in
      if not (in_window q.since q.until r) || not (before q.cursor r)
      then rest out
      else if length out == limit
      then (out, true)
      else elim p.author [ none ↦ rest out | some a ↦ rest (out ++ row_of k a p.deleted_at ∷ []) ]
]

-- The rows of the scroll that the window and the keyset let through, and `more`.
unfoldable pub scan : ListMemoriesQuery → (limit : ℕ) → List Row → List Point → Page
unfolding before
scan q limit out [] = (out, false)
scan q limit out (p ∷ ps) = scan_point q limit out p (λ o. scan q limit o ps)

-- `saturating_mul(4).clamp(1, 500)`
abbrev pub scroll_limit : ℕ → ℕ
scroll_limit limit = min (max (min (limit * 4) 0xffffffff) 1) 500

abbrev pub start_of : ListMemoriesQuery → Option Key → ℕ
start_of q none = q.until
start_of q (some k) = k.0

-- `scroll authors state start limit` is the scroll of Qdrant, by descending time from `start`.
unfoldable pub list_memories_knowledge_page :
    (scroll : List ℕ → MemoryState → ℕ → ℕ → List Point) → ListMemoriesQuery → (limit : ℕ) → Page
unfolding scan
list_memories_knowledge_page scroll q limit =
    let points = scroll q.authors q.state (start_of q q.cursor) (scroll_limit limit) in
    let (out, more) = scan q limit [] points in
    (out, (more || leb (scroll_limit limit) (length points)) && not (is_empty out))

abbrev pub key_of : Row → Key
key_of r = (r.created_at, r.id)

abbrev pub last_key : List Row → Option Key
last_key [] = none
last_key (r ∷ []) = some (key_of r)
last_key (r ∷ s ∷ rs) = last_key (s ∷ rs)

-- The rows of the page, and the key of the last if a further page may exist.
unfoldable pub take_merged_page :
    List Row → (limit : ℕ) → (any_saturated : Bool) → List Row × Option Key
unfolding sort_by
take_merged_page cands limit any_saturated =
    let sorted = sort_by not_older cands in
    let truncated = ltb limit (length cands) in
    let emit = min limit (length cands) in
    (
      take emit sorted,
      if (truncated || any_saturated) && emit == limit then last_key (take emit sorted) else none,
    )

abbrev same_kind : MemoryKind → MemoryKind → Bool
same_kind fact fact = true
same_kind knowledge knowledge = true
same_kind event event = true
same_kind _ _ = false

unfoldable pub wants : MemoryKind → ListMemoriesQuery → Bool
wants k q = is_empty q.kinds || any (same_kind k) q.kinds

abbrev pub no_page : Page
no_page = ([], false)

unfoldable pub list_memories :
    (scroll : List ℕ → MemoryState → ℕ → ℕ → List Point)
    → (facts events : List Row) → ListMemoriesQuery
    → List Row × Option Key
unfolding take_merged_page list_memories_facts_page list_memories_events_page
    list_memories_knowledge_page wants
list_memories scroll facts events q =
    let limit = if q.limit == 0 then 50 else q.limit in
    let f = if wants fact q then list_memories_facts_page facts q limit else no_page in
    let e = if wants event q then list_memories_events_page events q limit else no_page in
    let k = if wants knowledge q then list_memories_knowledge_page scroll q limit else no_page in
    take_merged_page (f.0 ++ e.0 ++ k.0) limit ((f.1 || e.1) || k.1)
