-- ===== src/Retention.antt =====
-- crates/klams-store/src/backup/retention.rs: which backups are kept, and which are deleted.
-- A date is the number of its day; `is_sunday` stands for the calendar. Reading the directory,
-- parsing the names and removing the files are left out.
pub mod Partition
mod Tests
use klams.Common.{
  ℕ, zero, suc, ◌+◌, Bool, true, false, not, ◌&&◌, Option, none, some, List, [], ◌∷◌, ◌++◌, map,
  if◌then◌else◌, ltb, leb, ◌==◌, take, any, filter_by, unwrap_or, Text, text_eq,
}
use klams.Common.Sort.{sort_by}

-- `ParsedEntry`
pub record Entry : Type 0 where
  pub path : Text
  pub date : ℕ
  pub suffix : Option ℕ

-- The map from dates to entries: in the order of the dates.
abbrev pub Groups : Type 0
Groups = List (ℕ × List Entry)

-- `by_date.entry(e.date).or_default().push(e)`
pub add : Entry → Groups → Groups
add e [] = (e.date, e ∷ []) ∷ []
add e ((d, group) ∷ more) =
    let rest = add e more in
    if ltb e.date d
    then (e.date, e ∷ []) ∷ (d, group) ∷ more
    else if e.date == d
    then (d, group ++ e ∷ []) ∷ more
    else (d, group) ∷ rest

pub by_date : List Entry → Groups → Groups
unfolding add
by_date [] groups = groups
by_date (e ∷ es) groups = by_date es (add e groups)

-- `sort_by_key(|e| Reverse(e.suffix.unwrap_or(0)))`
abbrev pub suffix_desc : Entry → Entry → Bool
suffix_desc a b = leb (unwrap_or b.suffix 0) (unwrap_or a.suffix 0)

abbrev pub date_desc : Entry → Entry → Bool
date_desc a b = leb b.date a.date

abbrev winner : List Entry → List Entry → List Entry
winner [] keep = keep
winner (e ∷ es) keep = e ∷ keep

abbrev losers : List Entry → List Entry
losers [] = []
losers (e ∷ es) = es

-- The first of each group, and the others.
pub winners : Groups → List Entry
winners [] = []
winners ((d, group) ∷ more) = winner (sort_by suffix_desc group) (winners more)

pub superseded : Groups → List Entry
superseded [] = []
superseded ((d, group) ∷ more) = losers (sort_by suffix_desc group) ++ superseded more

-- The loop over `keep` that takes Sundays; the number is what it may still take.
pub take_weekly : (ℕ → Bool) → List Entry → ℕ → List Entry → List Entry
take_weekly is_sunday daily zero keep = []
take_weekly is_sunday daily (suc n) [] = []
take_weekly is_sunday daily (suc n) (e ∷ keep) =
    let taken = take_weekly is_sunday daily n keep in
    let skipped = take_weekly is_sunday daily (suc n) keep in
    if is_sunday e.date && not (any (λ d. d.date == e.date) daily) then e ∷ taken else skipped

pub record RetentionReport : Type 0 where
  pub kept : List Text
  pub deleted : List Text

abbrev pub path_of : Entry → Text
path_of e = e.path

abbrev pub report_of :
    (ℕ → Bool) → (daily_count weekly_count : ℕ) → List Entry → List Entry → RetentionReport
report_of is_sunday daily_count weekly_count keep lost =
    let daily = take daily_count keep in
    let kept = map path_of (daily ++ take_weekly is_sunday daily weekly_count keep) in
    record {
      kept = kept;
      deleted =
          map path_of (filter_by (λ e. not (any (text_eq e.path) kept)) keep) ++ map path_of lost;
    }

-- The choice of `prune_one_kind`, for the entries that it lists.
pub prune_one_kind : (ℕ → Bool) → (daily_count weekly_count : ℕ) → List Entry → RetentionReport
unfolding by_date winners superseded take_weekly
prune_one_kind is_sunday daily_count weekly_count entries =
    let groups = by_date entries [] in
    report_of is_sunday daily_count weekly_count (sort_by date_desc (winners groups))
      (superseded groups)
