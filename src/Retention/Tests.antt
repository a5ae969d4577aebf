-- ===== src/Retention/Tests.antt =====
-- Runs of retention, and the theorems of this folder at concrete inputs.
use klams.Common.{
  ℕ, ◌+◌, ◌%◌, ◌≡◌, refl, Bool, Option, none, some, List, [], ◌∷◌, ◌==◌, Text, codes, arith,
  text_eq,
}
use klams.Common.Sort.{sort_by, insert}
use klams.Retention.{
  Entry, add, by_date, winners, superseded, take_weekly, RetentionReport, prune_one_kind,
}
use klams.Retention.Partition.{count, count_entries, prune_one_kind-count}

-- Every seventh day is a Sunday.
abbrev is_sunday : ℕ → Bool
is_sunday d = d % 7 == 0

abbrev entry : Text → ℕ → Option ℕ → Entry
entry path date suffix = record { path = path; date = date; suffix = suffix }

abbrev listed : List Entry
listed =
    entry (codes "a") 14 none
    ∷ entry (codes "b") 15 none
    ∷ entry (codes "b1") 15 (some 1)
    ∷ entry (codes "c") 13 none
    ∷ entry (codes "d") 7 none
    ∷ []

abbrev report : RetentionReport
report = record {
  kept = codes "b1" ∷ codes "a" ∷ codes "d" ∷ [];
  deleted = codes "c" ∷ codes "b" ∷ [];
}

two_daily : prune_one_kind is_sunday 2 1 listed ≡ report
unfolding prune_one_kind by_date add winners superseded take_weekly sort_by insert text_eq
two_daily = refl

prune_one_kind-count_example :
    let r = prune_one_kind is_sunday 2 1 listed in
    count (codes "b") r.kept + count (codes "b") r.deleted ≡ count_entries (codes "b") listed
unfolding text_eq
prune_one_kind-count_example = prune_one_kind-count is_sunday 2 1 listed (codes "b") (omega arith)
