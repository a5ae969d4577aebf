-- ===== src/Copies/Collection.antt =====
-- What the documentation of Qdrant says of the calls, and what writing the copies of a point does.
use klams.Common.{
  ℕ, Bool, true, false, ◌||◌, ◌&&◌, Option, none, some, List, [], ◌∷◌, all, In, ok, err, Text,
  text_eq, ◌≡◌, ◌≢◌, ◌⊎◌, refl, ap, subst, ◌∙◌, text_eq_iff, head?,
}
use klams.Facts.{StoreError}
use klams.Copies.{
  Value, Values, Fields, string_value, list_value, struct_value, other_value, no_values, value,
  no_fields, field, get, CopyEntry, copy_list, parse_copies, copies_payload, places_of, str_list,
  and_then, copies_key, machines_key, files_key,
}
use klams.Copies.Calls.{Qdrant, Page, opt_eq, is_at, by_lists, by_fields}
use klams.Copies.Payload.{
  copies_in-copy_list, has, pushed, places_of-pushed, pushed-has, IsPlural, promoted-get,
}

-- A string matches itself, and a list matches the strings in it.
abbrev string_matches : Text → Value → Bool
string_matches t (string_value u) = text_eq u t
string_matches t (list_value vs) = false
string_matches t (struct_value s) = false
string_matches t (other_value n) = false

abbrev any_matches : Text → Values → Bool
any_matches t no_values = false
any_matches t (value v vs) = string_matches t v || any_matches t vs

abbrev pub value_matches : Text → Option Value → Bool
value_matches t none = false
value_matches t (some (string_value u)) = text_eq u t
value_matches t (some (list_value vs)) = any_matches t vs
value_matches t (some (struct_value s)) = false
value_matches t (some (other_value n)) = false

abbrev pub matches_all : Fields → List (Text × Text) → Bool
matches_all p filter = all (λ c. value_matches c.1 (get c.0 p)) filter

abbrev pub or_else : {A : Type 0} → Option A → Option A → Option A
or_else none b = b
or_else (some a) b = some a

-- A change of the point of one id, if there is one, that P describes.
pub record Writes {S : Type 0} (point : S → ℕ → Option Fields) (s t : S) (id : ℕ)
    (P : Fields → Fields → Type 0) : Type 0 where
  pub others : (i : ℕ) → i ≢ id → point t i ≡ point s i
  pub on_none : point s id ≡ none → point t id ≡ none
  pub on_some :
      (p : Fields) → point s id ≡ some p → (p' : Fields) × ((point t id ≡ some p') × P p p')

abbrev pub Merged : Fields → Fields → Fields → Type 0
Merged new p p' = (k : Text) → get k p' ≡ or_else (get k new) (get k p)

abbrev pub Cleared : List Text → Fields → Fields → Type 0
Cleared ks p p' = (k : Text) → has k ks ≡ false → get k p' ≡ get k p

-- `point` is the payload of an id. Setting a payload merges it, clearing takes keys out of it, and
-- a scroll goes through the points that match, unless a page fails.
pub record IsCollection (q : Qdrant) : Type 0 where
  pub point : q.State → ℕ → Option Fields
  pub got : (s : q.State) (id : ℕ) (o : Option Fields) → q.get_points s id ≡ ok o → o ≡ point s id
  pub merges :
      (s t : q.State) (id : ℕ) (new : Fields)
      → q.set_payload s id new ≡ (ok tt, t)
      → Writes point s t id (Merged new)
  pub clears :
      (s t : q.State) (id : ℕ) (ks : List Text)
      → q.delete_payload s id ks ≡ (ok tt, t)
      → Writes point s t id (Cleared ks)
  pub removes :
      (s t : q.State) (id : ℕ)
      → q.delete_point s id ≡ (ok tt, t)
      → (point t id ≡ none) × ((i : ℕ) → i ≢ id → point t i ≡ point s i)
  pub scrolled :
      (s : q.State) (filter : List (Text × Text)) (ps : Page) (id : ℕ) (p : Fields)
      → In (ok ps) (q.scroll s filter)
      → In (some id, p) ps
      → point s id ≡ some p
  pub scrolled_all :
      (s : q.State) (filter : List (Text × Text)) (id : ℕ) (p : Fields)
      → point s id ≡ some p
      → matches_all p filter ≡ true
      → ((e : StoreError) × In (err e) (q.scroll s filter))
        ⊎ ((ps : Page) × (In (ok ps) (q.scroll s filter) × In (some id, p) ps))

-- A scroll by a place finds the point of each copy that is there.
abbrev pub IsIndexed : Fields → Type 0
IsIndexed p =
    (c : CopyEntry) (host source_file : Text)
    → In c (parse_copies p)
    → is_at host source_file c ≡ true
    → (matches_all p (by_lists host source_file) || matches_all p (by_fields host source_file))
      ≡ true

-- The payload holds the copies and the lists of their places.
pub record Holds (cs : List CopyEntry) (p : Fields) : Type 0 where
  pub copies : get copies_key p ≡ some (list_value (copy_list cs))
  pub machines : get machines_key p ≡ some (list_value (str_list (pushed (λ c. c.machine) cs [])))
  pub files : get files_key p ≡ some (list_value (str_list (pushed (λ c. c.file) cs [])))

pub Holds-parse_copies : (cs : List CopyEntry) (p : Fields) → Holds cs p → parse_copies p ≡ cs
unfolding parse_copies
Holds-parse_copies cs p h = rw h.copies (copies_in-copy_list cs)

any_matches-str_list : (t : Text) (xs : List Text) → any_matches t (str_list xs) ≡ has t xs
any_matches-str_list t [] = refl
any_matches-str_list t (x ∷ xs) = rw (any_matches-str_list t xs) refl

pub opt_eq-some : (o : Option Text) (t : Text) → opt_eq o (some t) ≡ true → o ≡ some t
opt_eq-some none t h = cc
opt_eq-some (some s) t h = ap (λ (x : Text). some x) ((text_eq_iff s t).0 h)

pub and_both : (a b : Bool) → (a && b) ≡ true → (a ≡ true) × (b ≡ true)
and_both true true h = (refl, refl)
and_both true false h = (refl, h)
and_both false b h = cc

pub Holds-IsIndexed : (cs : List CopyEntry) (p : Fields) → Holds cs p → IsIndexed p
Holds-IsIndexed cs p h c host source_file i at =
    let j : In c cs = subst (λ (l : List CopyEntry). In c l) (Holds-parse_copies cs p h) i in
    let (a, b) = and_both (opt_eq c.machine (some host)) (opt_eq c.file (some source_file)) at in
    let m = pushed-has (λ c. c.machine) cs host [] c j (opt_eq-some c.machine host a) in
    let f = pushed-has (λ c. c.file) cs source_file [] c j (opt_eq-some c.file source_file b) in
    let x = any_matches-str_list host (pushed (λ c. c.machine) cs []) ∙ m in
    let y = any_matches-str_list source_file (pushed (λ c. c.file) cs []) ∙ f in
    rw (h.machines, h.files, x, y) refl

copies_IsPlural : IsPlural copies_key
unfolding text_eq
copies_IsPlural = record { not_machine = refl; not_file = refl; not_repo = refl }

machines_IsPlural : IsPlural machines_key
unfolding text_eq
machines_IsPlural = record { not_machine = refl; not_file = refl; not_repo = refl }

files_IsPlural : IsPlural files_key
unfolding text_eq
files_IsPlural = record { not_machine = refl; not_file = refl; not_repo = refl }

-- The new payload and the keys to clear, as `set_payload` and `delete_payload` leave a point.
pub copies_payload-Holds :
    (cs : List CopyEntry) (p p' p2 : Fields)
    → Merged (copies_payload cs).0 p p'
    → ((k : Text) → has k (copies_payload cs).1 ≡ false → get k p2 ≡ get k p')
    → Holds cs p2
unfolding copies_payload text_eq
copies_payload-Holds cs p p' p2 m c =
    let body : Fields = field files_key (list_value (str_list (places_of cs [] []).1)) (
      field machines_key (list_value (str_list (places_of cs [] []).0))
        (field copies_key (list_value (copy_list cs)) no_fields)) in
    let go : (k : Text)
        → IsPlural k
        → (get k (copies_payload cs).0 ≡ get k body) × (has k (copies_payload cs).1 ≡ false) =
      λ k i.
        promoted-get k (and_then (head? cs) (λ c. c.machine)) (and_then (head? cs) (λ c. c.file))
          (and_then (head? cs) (λ c. c.repo)) body i in
    let read : (k : Text) → IsPlural k → get k p2 ≡ or_else (get k body) (get k p) =
      λ k i. c k (go k i).1 ∙ m k ∙ ap (λ (o : Option Value). or_else o (get k p)) (go k i).0 in
    let e = places_of-pushed cs [] [] in
    record {
      copies = read copies_key copies_IsPlural;
      machines =
          read machines_key machines_IsPlural
          ∙ ap (λ (x : List Text × List Text). some (list_value (str_list x.0))) e;
      files =
          read files_key files_IsPlural
          ∙ ap (λ (x : List Text × List Text). some (list_value (str_list x.1))) e;
    }
