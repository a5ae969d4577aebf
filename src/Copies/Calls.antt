-- ===== src/Copies/Calls.antt =====
-- crates/klams-store/src/qdrant.rs: the operations on the copies, over the calls of the client.
use klams.Common.{
  ℕ, zero, suc, ◌+◌, Bool, true, false, not, ◌&&◌, Option, none, some, List, [], ◌∷◌, ◌++◌,
  if◌then◌else◌, ◌==◌, length, any, filter_by, Result, ok, err, Text, text_eq,
}
use klams.Facts.{StoreError}
use klams.Copies.{
  Fields, CopyEntry, parse_copies, copies_payload, machines_key, files_key, machine_key, file_key,
}

abbrev pub opt_eq : Option Text → Option Text → Bool
opt_eq none none = true
opt_eq (some s) (some t) = text_eq s t
opt_eq none (some t) = false
opt_eq (some s) none = false

-- What one page of a scroll holds; the id of a point is none where it is no UUID.
abbrev pub Page : Type 0
Page = List (Option ℕ × Fields)

-- The calls of the client. `scroll` gives the pages that following `next_page_offset` gives, for
-- the conditions of a filter, a key and the value that it matches.
pub record Qdrant : Type 1 where
  pub State : Type 0
  pub get_points : State → ℕ → Result StoreError (Option Fields)
  pub set_payload : State → ℕ → Fields → Result StoreError Unit × State
  pub delete_payload : State → ℕ → List Text → Result StoreError Unit × State
  pub delete_point : State → ℕ → Result StoreError Unit × State
  pub delete_matching : State → List (Text × Text) → Result StoreError Unit × State
  pub scroll : State → List (Text × Text) → List (Result StoreError Page)

abbrev pub same_place : CopyEntry → CopyEntry → Bool
same_place new c = opt_eq c.machine new.machine && opt_eq c.file new.file

-- The candidates, in the order they were found; the ids that were seen are theirs.
abbrev pub candidates_of : Page → List (ℕ × List CopyEntry) → List (ℕ × List CopyEntry)
candidates_of [] acc = acc
candidates_of ((none, p) ∷ ps) acc = candidates_of ps acc
candidates_of ((some id, p) ∷ ps) acc =
    candidates_of ps (if any (λ c. c.0 == id) acc then acc else acc ++ (id, parse_copies p) ∷ [])

abbrev pub scan_pages :
    List (Result StoreError Page)
    → List (ℕ × List CopyEntry)
    → Result StoreError (List (ℕ × List CopyEntry))
scan_pages [] acc = ok acc
scan_pages (err e ∷ rs) acc = err e
scan_pages (ok ps ∷ rs) acc = scan_pages rs (candidates_of ps acc)

abbrev pub then_scan :
    List (Result StoreError Page)
    → Result StoreError (List (ℕ × List CopyEntry))
    → Result StoreError (List (ℕ × List CopyEntry))
then_scan rs (err e) = err e
then_scan rs (ok acc) = scan_pages rs acc

abbrev pub is_at : Text → Text → CopyEntry → Bool
is_at host source_file c = opt_eq c.machine (some host) && opt_eq c.file (some source_file)

abbrev pub remaining_of : Text → Text → List CopyEntry → List CopyEntry
remaining_of host source_file copies = filter_by (λ c. not (is_at host source_file c)) copies

abbrev pub count_pages : List (Result StoreError Page) → ℕ → Result StoreError ℕ
count_pages [] n = ok n
count_pages (err e ∷ rs) n = err e
count_pages (ok ps ∷ rs) n = count_pages rs (n + length ps)

-- The two filters: the lists of the places, and the singular fields.
abbrev pub by_lists : Text → Text → List (Text × Text)
by_lists host source_file = (machines_key, host) ∷ (files_key, source_file) ∷ []

abbrev pub by_fields : Text → Text → List (Text × Text)
by_fields host source_file = (machine_key, host) ∷ (file_key, source_file) ∷ []

module _ (q : Qdrant) where
  abbrev pub clear :
      ℕ → List Text → Result StoreError Unit × q.State → Result StoreError Unit × q.State
  clear id cleared (err e, s) = (err e, s)
  clear id [] (ok u, s) = (ok u, s)
  clear id (k ∷ ks) (ok u, s) = q.delete_payload s id (k ∷ ks)

  unfoldable pub write_copies : ℕ → List CopyEntry → q.State → Result StoreError Unit × q.State
  write_copies id cs s =
      let (payload, cleared) = copies_payload cs in clear id cleared (q.set_payload s id payload)

  abbrev pub attached : Result StoreError Unit × q.State → Result StoreError Bool × q.State
  attached (ok u, s) = (ok true, s)
  attached (err e, s) = (err e, s)

  abbrev pub attach_found :
      ℕ → CopyEntry → q.State → Result StoreError (Option Fields) → Result StoreError Bool × q.State
  attach_found id new s (err e) = (err e, s)
  attach_found id new s (ok none) = (ok false, s)
  attach_found id new s (ok (some p)) =
      let copies = parse_copies p in
      if any (same_place new) copies
      then (ok false, s)
      else attached (write_copies id (copies ++ new ∷ []) s)

  unfoldable pub attach_copy :
      ℕ → Option Text → Option Text → Option Text → q.State → Result StoreError Bool × q.State
  attach_copy id machine file repo s =
      let new : CopyEntry = record { machine = machine; file = file; repo = repo } in
      attach_found id new s (q.get_points s id)

  -- The point keeps what remains of its copies, or goes with the last one.
  abbrev pub keep_remaining : ℕ → List CopyEntry → q.State → Result StoreError Unit × q.State
  keep_remaining id [] s = q.delete_point s id
  keep_remaining id (c ∷ cs) s = write_copies id (c ∷ cs) s

  abbrev pub counted : ℕ → Result StoreError Unit × q.State → Result StoreError ℕ × q.State
  counted n (ok u, s) = (ok (suc n), s)
  counted n (err e, s) = (err e, s)

  abbrev pub remove_one :
      Text → Text → ℕ × List CopyEntry → ℕ → q.State → Result StoreError ℕ × q.State
  remove_one host source_file (id, copies) removed s =
      let remaining = remaining_of host source_file copies in
      if length remaining == length copies
      then (ok removed, s)
      else counted removed (keep_remaining id remaining s)

  abbrev pub remove_all :
      Text
      → Text
      → List (ℕ × List CopyEntry)
      → Result StoreError ℕ × q.State
      → Result StoreError ℕ × q.State
  remove_all host source_file [] r = r
  remove_all host source_file (c ∷ cs) (err e, s) = (err e, s)
  remove_all host source_file (c ∷ cs) (ok n, s) =
      remove_all host source_file cs (remove_one host source_file c n s)

  abbrev pub remove_from :
      Text
      → Text
      → q.State
      → Result StoreError (List (ℕ × List CopyEntry))
      → Result StoreError ℕ × q.State
  remove_from host source_file s (err e) = (err e, s)
  remove_from host source_file s (ok candidates) = remove_all host source_file candidates (ok 0, s)

  abbrev pub deleted_count : ℕ → Result StoreError Unit × q.State → Result StoreError ℕ × q.State
  deleted_count n (ok u, s) = (ok n, s)
  deleted_count n (err e, s) = (err e, s)

  abbrev pub delete_counted :
      List (Text × Text) → q.State → Result StoreError ℕ → Result StoreError ℕ × q.State
  delete_counted filter s (err e) = (err e, s)
  delete_counted filter s (ok zero) = (ok 0, s)
  delete_counted filter s (ok (suc n)) = deleted_count (suc n) (q.delete_matching s filter)

  unfoldable pub hard_delete_by_filter :
      List (Text × Text) → q.State → Result StoreError ℕ × q.State
  hard_delete_by_filter filter s = delete_counted filter s (count_pages (q.scroll s filter) 0)

  abbrev pub find_candidates : Text → Text → q.State → Result StoreError (List (ℕ × List CopyEntry))
  find_candidates host source_file s =
      then_scan (q.scroll s (by_fields host source_file))
        (scan_pages (q.scroll s (by_lists host source_file)) [])

  unfoldable pub delete_by_source_file :
      Text → Option Text → q.State → Result StoreError ℕ × q.State
  delete_by_source_file source_file none s = hard_delete_by_filter ((file_key, source_file) ∷ []) s
  delete_by_source_file source_file (some host) s =
      remove_from host source_file s (find_candidates host source_file s)
