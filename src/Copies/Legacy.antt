-- ===== src/Copies/Legacy.antt =====
-- A point without the list of copies: its singular fields are its only copy, and a scroll by the
-- singular fields finds it.
use klams.Common.{
  Bool, true, false, ◌||◌, Option, none, some, In, here, there, Text, ◌≡◌, refl, ap, sym, subst,
  ◌∙◌, text_eq_refl,
}
use klams.Copies.{
  Value, Fields, string_value, list_value, struct_value, other_value, get, CopyEntry, single_copy,
  as_str, parse_copies, copies_key, machine_key, file_key, repo_key,
}
use klams.Copies.Calls.{opt_eq, by_lists, by_fields}
use klams.Copies.Collection.{IsIndexed, value_matches, matches_all, opt_eq-some, and_both}

single_copy-In :
    (m f r : Option Text) (c : CopyEntry)
    → In c (single_copy m f r)
    → (c.machine ≡ m) × (c.file ≡ f)
single_copy-In none none r c i = elim i [ ]
single_copy-In none (some f) r c (here e) =
    (ap (λ (x : CopyEntry). x.machine) e, ap (λ (x : CopyEntry). x.file) e)
single_copy-In none (some f) r c (there i) = elim i [ ]
single_copy-In (some m) f r c (here e) =
    (ap (λ (x : CopyEntry). x.machine) e, ap (λ (x : CopyEntry). x.file) e)
single_copy-In (some m) f r c (there i) = elim i [ ]

as_str-matches : (t : Text) (o : Option Value) → as_str o ≡ some t → value_matches t o ≡ true
as_str-matches t none h = cc
as_str-matches t (some (string_value u)) h =
    let e : u ≡ t = cc in
    subst (λ (x : Text). value_matches t (some (string_value x)) ≡ true) (sym e) (text_eq_refl t)
as_str-matches t (some (list_value vs)) h = cc
as_str-matches t (some (struct_value s)) h = cc
as_str-matches t (some (other_value n)) h = cc

or_right : (a b : Bool) → b ≡ true → (a || b) ≡ true
or_right true b h = refl
or_right false b h = h

pub Legacy-IsIndexed : (p : Fields) → get copies_key p ≡ none → IsIndexed p
unfolding parse_copies
Legacy-IsIndexed p no_list c host source_file i at =
    let j : In c (
        single_copy (as_str (get machine_key p)) (as_str (get file_key p))
          (as_str (get repo_key p))) =
      rw no_list at i in
    let (m, f) =
      single_copy-In (as_str (get machine_key p)) (as_str (get file_key p))
        (as_str (get repo_key p)) c j in
    let (a, b) = and_both (opt_eq c.machine (some host)) (opt_eq c.file (some source_file)) at in
    let x = as_str-matches host (get machine_key p) (sym m ∙ opt_eq-some c.machine host a) in
    let y =
      as_str-matches source_file (get file_key p) (sym f ∙ opt_eq-some c.file source_file b) in
    or_right (matches_all p (by_lists host source_file))
      (matches_all p (by_fields host source_file)) (rw (x, y) refl)
