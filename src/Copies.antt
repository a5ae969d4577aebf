-- ===== src/Copies.antt =====
-- crates/klams-store/src/qdrant.rs: the copies of a point of knowledge. A point holds one content,
-- and its payload lists the places, (machine, file), where that content was found. The client of
-- Qdrant is a parameter: a record of its calls. An id is a number, for a UUID.
pub mod Payload
pub mod Calls
pub mod Collection
pub mod Legacy
pub mod Attach
pub mod Candidates
pub mod Without
pub mod Losses
pub mod Removal
mod Memory
mod Tests
use klams.Common.{
  ℕ, suc, Bool, true, false, not, ◌||◌, ◌&&◌, zero, ◌+◌, Option, none, some, List, [], ◌∷◌, ◌++◌,
  if◌then◌else◌, ◌==◌, length, head?, any, filter_by, is_empty, is_some, Result, ok, err, Text,
  codes, text_eq,
}
use klams.Facts.{StoreError}

-- A value of a payload: a string, a list, a struct, or any other kind.
mutual
  pub data Value : Type 0 where
    string_value : Text → Value
    list_value : Values → Value
    struct_value : Fields → Value
    other_value : ℕ → Value

  pub data Values : Type 0 where
    no_values : Values
    value : Value → Values → Values

  -- `HashMap<String, Value>`: the newest field of a name stands.
  pub data Fields : Type 0 where
    no_fields : Fields
    field : Text → Value → Fields → Fields

abbrev pub get : Text → Fields → Option Value
get k no_fields = none
get k (field q v p) = if text_eq q k then some v else get k p

abbrev pub as_str : Option Value → Option Text
as_str (some (string_value t)) = some t
as_str (some (list_value vs)) = none
as_str (some (struct_value p)) = none
as_str (some (other_value n)) = none
as_str none = none

abbrev pub copies_key : Text
copies_key = codes "copies"

abbrev pub machines_key : Text
machines_key = codes "machines"

abbrev pub files_key : Text
files_key = codes "files"

abbrev pub machine_key : Text
machine_key = codes "machine"

abbrev pub file_key : Text
file_key = codes "file"

abbrev pub repo_key : Text
repo_key = codes "repo"

pub record CopyEntry : Type 0 where
  pub machine : Option Text
  pub file : Option Text
  pub repo : Option Text

abbrev pub insert_some : Text → Option Text → Fields → Fields
insert_some k none p = p
insert_some k (some t) p = field k (string_value t) p

unfoldable pub copy_to_value : CopyEntry → Value
copy_to_value c = struct_value (
    insert_some repo_key c.repo
      (insert_some file_key c.file (insert_some machine_key c.machine no_fields)))

unfoldable pub value_to_copy : Value → Option CopyEntry
value_to_copy (struct_value s) = some (record {
  machine = as_str (get machine_key s);
  file = as_str (get file_key s);
  repo = as_str (get repo_key s);
})
value_to_copy (string_value t) = none
value_to_copy (list_value vs) = none
value_to_copy (other_value n) = none

abbrev pub some_onto : {A : Type 0} → Option A → List A → List A
some_onto none xs = xs
some_onto (some x) xs = x ∷ xs

abbrev pub copies_in : Values → List CopyEntry
copies_in no_values = []
copies_in (value v vs) = some_onto (value_to_copy v) (copies_in vs)

-- The singular fields as the only copy, if they name a place.
abbrev pub single_copy : Option Text → Option Text → Option Text → List CopyEntry
single_copy none none r = []
single_copy (some m) f r = record { machine = some m; file = f; repo = r } ∷ []
single_copy none (some f) r = record { machine = none; file = some f; repo = r } ∷ []

abbrev pub parse_value : Fields → Option Value → List CopyEntry
parse_value p (some (list_value vs)) = copies_in vs
parse_value p (some (string_value t)) =
    single_copy (as_str (get machine_key p)) (as_str (get file_key p)) (as_str (get repo_key p))
parse_value p (some (struct_value s)) =
    single_copy (as_str (get machine_key p)) (as_str (get file_key p)) (as_str (get repo_key p))
parse_value p (some (other_value n)) =
    single_copy (as_str (get machine_key p)) (as_str (get file_key p)) (as_str (get repo_key p))
parse_value p none =
    single_copy (as_str (get machine_key p)) (as_str (get file_key p)) (as_str (get repo_key p))

unfoldable pub parse_copies : Fields → List CopyEntry
parse_copies p = parse_value p (get copies_key p)

abbrev pub push_new : Option Text → List Text → List Text
push_new none xs = xs
push_new (some x) xs = if any (λ y. text_eq y x) xs then xs else xs ++ x ∷ []

-- The loop of `copies_payload`: the machines and the files, each once, in the order of the copies.
abbrev pub places_of : List CopyEntry → List Text → List Text → List Text × List Text
places_of [] ms fs = (ms, fs)
places_of (c ∷ cs) ms fs = places_of cs (push_new c.machine ms) (push_new c.file fs)

abbrev pub str_list : List Text → Values
str_list [] = no_values
str_list (x ∷ xs) = value (string_value x) (str_list xs)

abbrev pub copy_list : List CopyEntry → Values
copy_list [] = no_values
copy_list (c ∷ cs) = value (copy_to_value c) (copy_list cs)

-- One turn of the loop over the singular keys: the field is set, or its key is to be cleared.
abbrev pub promote : Text → Option Text → Fields × List Text → Fields × List Text
promote k (some t) (p, cleared) = (field k (string_value t) p, cleared)
promote k none (p, cleared) = (p, cleared ++ k ∷ [])

-- That loop.
abbrev pub promoted : Option Text → Option Text → Option Text → Fields → Fields × List Text
promoted machine file repo p =
    promote repo_key repo (promote file_key file (promote machine_key machine (p, [])))

abbrev pub and_then : {A B : Type 0} → Option A → (A → Option B) → Option B
and_then none f = none
and_then (some a) f = f a

unfoldable pub copies_payload : List CopyEntry → Fields × List Text
copies_payload cs =
    let p = field copies_key (list_value (copy_list cs)) no_fields in
    let places = places_of cs [] [] in
    let p = field machines_key (list_value (str_list places.0)) p in
    let p = field files_key (list_value (str_list places.1)) p in
    let canonical = head? cs in
    promoted (and_then canonical (λ c. c.machine)) (and_then canonical (λ c. c.file))
      (and_then canonical (λ c. c.repo)) p
