-- ===== src/Copies/Payload.antt =====
-- What the payload of a list of copies holds.
use klams.Common.{
  Bool, true, false, ◌||◌, Option, none, some, List, [], ◌∷◌, ◌++◌, any, In, here, there, Text,
  text_eq, ◌≡◌, refl, sym, ap, ◌∙◌, text_eq_refl, Bool-cases, inl, inr,
}
use klams.Copies.{
  Fields, get, CopyEntry, copy_to_value, value_to_copy, copies_in, copy_list, push_new, places_of,
  promote, promoted, machine_key, file_key, repo_key,
}

copy_to_value-read :
    (m f r : Option Text)
    → ◌≡◌ {A = Option CopyEntry}
        (value_to_copy (copy_to_value (record { machine = m; file = f; repo = r })))
        (some (record { machine = m; file = f; repo = r }))
unfolding copy_to_value value_to_copy text_eq
copy_to_value-read none none none = refl
copy_to_value-read none none (some r) = refl
copy_to_value-read none (some f) none = refl
copy_to_value-read none (some f) (some r) = refl
copy_to_value-read (some m) none none = refl
copy_to_value-read (some m) none (some r) = refl
copy_to_value-read (some m) (some f) none = refl
copy_to_value-read (some m) (some f) (some r) = refl

pub copies_in-copy_list : (cs : List CopyEntry) → copies_in (copy_list cs) ≡ cs
copies_in-copy_list [] = refl
copies_in-copy_list (c ∷ cs) =
    rw (copy_to_value-read c.machine c.file c.repo, copies_in-copy_list cs) refl

-- The strings `text_eq` to a text.
abbrev pub has : Text → List Text → Bool
has t xs = any (λ y. text_eq y t) xs

has-append : (t : Text) (xs ys : List Text) → has t (xs ++ ys) ≡ (has t xs || has t ys)
has-append t [] ys = refl
has-append t (x ∷ xs) ys =
    let e = has-append t xs ys in or_assoc (text_eq x t) (has t xs) (has t ys) e
  where
    or_assoc : {b : Bool} (a c d : Bool) → b ≡ (c || d) → (a || b) ≡ ((a || c) || d)
    or_assoc true c d e = refl
    or_assoc false c d e = e

push_new-has : (x : Text) (xs : List Text) → has x (push_new (some x) xs) ≡ true
push_new-has x xs = elim (Bool-cases (has x xs)) [
  | inl e ↦ rw (e, e) refl
  | inr e ↦ rw (e, has-append x xs (x ∷ []), text_eq_refl x, e) refl
]

push_new-keeps :
    (t : Text) (o : Option Text) (xs : List Text) → has t xs ≡ true → has t (push_new o xs) ≡ true
push_new-keeps t none xs h = h
push_new-keeps t (some x) xs h = elim (Bool-cases (has x xs)) [
  | inl e ↦ rw e h
  | inr e ↦ rw (e, has-append t xs (x ∷ []), h) refl
]

abbrev pub pushed : (CopyEntry → Option Text) → List CopyEntry → List Text → List Text
pushed g [] xs = xs
pushed g (c ∷ cs) xs = pushed g cs (push_new (g c) xs)

pub places_of-pushed :
    (cs : List CopyEntry) (ms fs : List Text)
    → ◌≡◌ {A = List Text × List Text}
        (places_of cs ms fs)
        (pushed (λ c. c.machine) cs ms, pushed (λ c. c.file) cs fs)
places_of-pushed [] ms fs = refl
places_of-pushed (c ∷ cs) ms fs = places_of-pushed cs (push_new c.machine ms) (push_new c.file fs)

pushed-keeps :
    (g : CopyEntry → Option Text) (cs : List CopyEntry) (t : Text) (xs : List Text)
    → has t xs ≡ true
    → has t (pushed g cs xs) ≡ true
pushed-keeps g [] t xs h = h
pushed-keeps g (c ∷ cs) t xs h =
    pushed-keeps g cs t (push_new (g c) xs) (push_new-keeps t (g c) xs h)

pub pushed-has :
    (g : CopyEntry → Option Text) (cs : List CopyEntry) (t : Text) (xs : List Text) (c : CopyEntry)
    → In c cs
    → g c ≡ some t
    → has t (pushed g cs xs) ≡ true
pushed-has g [] t xs c i h = elim i [ ]
pushed-has g (d ∷ cs) t xs c (here e) h =
    let k : g d ≡ some t = ap g (sym e) ∙ h in
    pushed-keeps g cs t (push_new (g d) xs) (rw k (push_new-has t xs))
pushed-has g (d ∷ cs) t xs c (there i) h = pushed-has g cs t (push_new (g d) xs) c i h

-- A key that is none of the singular ones.
pub record IsPlural (k : Text) : Type 0 where
  pub not_machine : text_eq machine_key k ≡ false
  pub not_file : text_eq file_key k ≡ false
  pub not_repo : text_eq repo_key k ≡ false

promote-get :
    (q k : Text) (o : Option Text) (r : Fields × List Text)
    → text_eq q k ≡ false
    → (get k (promote q o r).0 ≡ get k r.0) × (has k (promote q o r).1 ≡ has k r.1)
promote-get q k none (p, cleared) e =
    (refl, rw (has-append k cleared (q ∷ []), e) (or_false (has k cleared)))
  where
    or_false : (b : Bool) → (b || false) ≡ b
    or_false true = refl
    or_false false = refl
promote-get q k (some t) (p, cleared) e = (rw e refl, refl)

-- The loop over the singular keys leaves the others alone.
pub promoted-get :
    (k : Text) (m f r : Option Text) (p : Fields)
    → IsPlural k
    → (get k (promoted m f r p).0 ≡ get k p) × (has k (promoted m f r p).1 ≡ false)
promoted-get k m f r p i =
    let one : Fields × List Text = promote machine_key m (p, []) in
    let two : Fields × List Text = promote file_key f one in
    let (a, x) = promote-get machine_key k m (p, []) i.not_machine in
    let (b, y) = promote-get file_key k f one i.not_file in
    let (c, z) = promote-get repo_key k r two i.not_repo in (c ∙ b ∙ a, z ∙ y ∙ x)
