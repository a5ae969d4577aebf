-- ===== src/Copies/Tests.antt =====
-- Two hosts have one file, and one of them loses it.
use klams.Common.{
  ℕ, zero, suc, Bool, true, Option, none, some, [], ◌∷◌, Result, ok, Text, codes, text_eq, ◌≡◌,
  refl, subst,
}
use klams.Facts.{StoreError}
use klams.Copies.{
  Fields, no_fields, field, string_value, CopyEntry, parse_copies, copies_payload, copy_to_value,
  value_to_copy, machine_key, file_key,
}
use klams.Copies.Calls.{attach_copy, delete_by_source_file, write_copies}
use klams.Copies.Collection.{IsIndexed}
use klams.Copies.Legacy.{Legacy-IsIndexed}
use klams.Copies.Attach.{copies_of, AllIndexed, Attached, attach_copy-Attached}
use klams.Copies.Removal.{Removed, delete_by_source_file-Removed}
use klams.Copies.Memory.{Points, nth, in_memory, in_memory-IsCollection}

abbrev kai : Text
kai = codes "kai"

abbrev kubs0 : Text
kubs0 = codes "kubs0"

abbrev a_md : Text
a_md = codes "/src/a.md"

-- A point from before the lists of copies.
abbrev old_point : Fields
old_point = field machine_key (string_value kai) (field file_key (string_value a_md) no_fields)

abbrev before : Points
before = none ∷ some old_point ∷ []

before-Indexed : AllIndexed in_memory in_memory-IsCollection before
unfolding text_eq
before-Indexed zero p h = elim (some_none h) [ ]
  where
    some_none : ◌≡◌ {A = Option Fields} none (some p) → ⊥
    some_none h = cc
before-Indexed (suc zero) p h =
    let e : ◌≡◌ {A = Option Fields} (some old_point) (some p) = h in
    let k : old_point ≡ p = cc in
    subst (λ (x : Fields). IsIndexed x) k (Legacy-IsIndexed old_point refl)
before-Indexed (suc (suc i)) p h = elim (some_none h) [ ]
  where
    some_none : ◌≡◌ {A = Option Fields} none (some p) → ⊥
    some_none h = cc

abbrev new_copy : CopyEntry
new_copy = record { machine = some kubs0; file = some a_md; repo = some (codes "klams") }

attach_run : Result StoreError Bool × Points
unfolding attach_copy
attach_run = attach_copy in_memory 1 (some kubs0) (some a_md) (some (codes "klams")) before

attach_run-ok :
    attach_copy in_memory 1 (some kubs0) (some a_md) (some (codes "klams")) before
    ≡ (ok true, attach_run.1)
unfolding attach_run attach_copy write_copies copies_payload copy_to_value value_to_copy
    parse_copies text_eq
attach_run-ok = refl

attach_copy-Attached_example :
    Attached in_memory in_memory-IsCollection 1 new_copy before attach_run.1 true
attach_copy-Attached_example =
    attach_copy-Attached in_memory in_memory-IsCollection 1 new_copy before attach_run.1 true
      before-Indexed attach_run-ok

delete_run : Result StoreError ℕ × Points
delete_run = delete_by_source_file in_memory a_md (some kai) attach_run.1

delete_run-ok : delete_by_source_file in_memory a_md (some kai) attach_run.1 ≡ (ok 1, delete_run.1)
unfolding delete_run delete_by_source_file attach_run attach_copy write_copies copies_payload
    copy_to_value value_to_copy parse_copies text_eq
delete_run-ok = refl

delete_run_lem : copies_of (nth delete_run.1 1) ≡ some (new_copy ∷ [])
unfolding delete_run delete_by_source_file attach_run attach_copy write_copies copies_payload
    copy_to_value value_to_copy parse_copies text_eq
delete_run_lem = refl

delete_by_source_file-Removed_example :
    Removed in_memory in_memory-IsCollection kai a_md attach_run.1 delete_run.1
delete_by_source_file-Removed_example =
    delete_by_source_file-Removed in_memory in_memory-IsCollection kai a_md attach_run.1
      delete_run.1 1 attach_copy-Attached_example.indexed delete_run-ok
