-- ===== src/Normalize/Idempotent.antt =====
-- Normalising a normalised text changes nothing, so its hash is stable.
use klams.Common.{
  ℕ, ◌≡◌, refl, ap, subst, ◌∙◌, inl, inr, Bool, true, false, ◌&&◌, List, [], ◌∷◌, ◌++◌, map, arith,
  is_empty, ◌==◌, Text, trim_end, strip_cr, split_char, onto, is_whitespace, All, Bool-cases,
}
use klams.Normalize.{clean_line, collapse_blank, drop_blank_end, join_lines, normalize_chunk_text}

trim_end-trim_end : (s : Text) → trim_end (trim_end s) ≡ trim_end s
unfolding trim_end
trim_end-trim_end [] = refl
trim_end-trim_end (c ∷ s) = elim (Bool-cases (is_empty (trim_end s) && is_whitespace c)) [
  | inl e ↦ rw e
  | inr e ↦ rw (e, trim_end, trim_end-trim_end s, e)
]

strip_cr-trim_end : (s : Text) → strip_cr (trim_end s) ≡ trim_end s
unfolding trim_end strip_cr
strip_cr-trim_end [] = refl
strip_cr-trim_end (c ∷ s) = elim (Bool-cases (is_empty (trim_end s) && is_whitespace c)) [
  | inl e ↦ rw e
  | inr e ↦
      let kept : (c == 13 && is_empty (trim_end s)) ≡ false = ground (arith, e) in
      rw (e, strip_cr, kept, strip_cr-trim_end s)
]

clean_line-clean_line : (s : Text) → clean_line (clean_line s) ≡ clean_line s
unfolding clean_line
clean_line-clean_line s =
    ap trim_end (strip_cr-trim_end (strip_cr s)) ∙ trim_end-trim_end (strip_cr s)

-- No line feed.
abbrev OneLine : Text → Type 0
OneLine = All (λ c. (c == 10) ≡ false)

trim_end-OneLine : (s : Text) → OneLine s → OneLine (trim_end s)
unfolding trim_end
trim_end-OneLine [] h = h
trim_end-OneLine (c ∷ s) h = elim (Bool-cases (is_empty (trim_end s) && is_whitespace c)) [
  | inl e ↦ rw e tt
  | inr e ↦ rw e (h.0, trim_end-OneLine s h.1)
]

strip_cr-OneLine : (s : Text) → OneLine s → OneLine (strip_cr s)
unfolding strip_cr
strip_cr-OneLine [] h = h
strip_cr-OneLine (c ∷ s) h = elim (Bool-cases (c == 13 && is_empty s)) [
  | inl e ↦ rw e tt
  | inr e ↦ rw e (h.0, strip_cr-OneLine s h.1)
]

-- What a line of the result is.
abbrev IsLine : Text → Type 0
IsLine s = (clean_line s ≡ s) × OneLine s

onto_first : (c : ℕ) (ls : List Text) → (c == 10) ≡ false → All OneLine ls → All OneLine (onto c ls)
onto_first c [] e h = ((e, tt), tt)
onto_first c (l ∷ ls) e h = ((e, h.0), h.1)

split_char-OneLine : (s : Text) → All OneLine (split_char 10 s)
unfolding split_char
split_char-OneLine [] = (tt, tt)
split_char-OneLine (c ∷ s) = elim (Bool-cases (c == 10)) [
  | inl e ↦ rw e (tt, split_char-OneLine s)
  | inr e ↦ rw e (onto_first c (split_char 10 s) e (split_char-OneLine s))
]

clean-IsLine : (ls : List Text) → All OneLine ls → All IsLine (map clean_line ls)
clean-IsLine [] h = tt
clean-IsLine (l ∷ ls) h = (
  (
    clean_line-clean_line l,
    unfold clean_line in trim_end-OneLine (strip_cr l) (strip_cr-OneLine l h.0),
  ),
  clean-IsLine ls h.1,
)

collapse_blank-All :
    (P : Text → Type 0) (b : Bool) (ls : List Text) → All P ls → All P (collapse_blank b ls)
unfolding collapse_blank
collapse_blank-All P b [] h = tt
collapse_blank-All P b (l ∷ ls) h = elim (Bool-cases (is_empty l && b)) [
  | inl e ↦ rw e (collapse_blank-All P (is_empty l) ls h.1)
  | inr e ↦ rw e (h.0, collapse_blank-All P (is_empty l) ls h.1)
]

drop_blank_end-All : (P : Text → Type 0) (ls : List Text) → All P ls → All P (drop_blank_end ls)
unfolding drop_blank_end
drop_blank_end-All P [] h = tt
drop_blank_end-All P (l ∷ ls) h = elim (Bool-cases (is_empty (drop_blank_end ls) && is_empty l)) [
  | inl e ↦ rw e tt
  | inr e ↦ rw e (h.0, drop_blank_end-All P ls h.1)
]

-- No blank line after a blank one; the flag says that a blank one came before.
abbrev NoRuns : Bool → List Text → Type 0
NoRuns b [] = Unit
NoRuns b (l ∷ ls) = ((is_empty l && b) ≡ false) × NoRuns (is_empty l) ls

collapse_blank-NoRuns : (b : Bool) (ls : List Text) → NoRuns b (collapse_blank b ls)
unfolding collapse_blank
collapse_blank-NoRuns b [] = tt
collapse_blank-NoRuns b (l ∷ ls) = elim (Bool-cases (is_empty l && b)) [
  | inl e ↦
      let same : is_empty l ≡ b = ground (arith, e) in
      rw e (
        subst (λ x. NoRuns x (collapse_blank (is_empty l) ls)) same
          (collapse_blank-NoRuns (is_empty l) ls))
  | inr e ↦ rw e (e, collapse_blank-NoRuns (is_empty l) ls)
]

collapse_blank-same : (b : Bool) (ls : List Text) → NoRuns b ls → collapse_blank b ls ≡ ls
unfolding collapse_blank
collapse_blank-same b [] h = refl
collapse_blank-same b (l ∷ ls) h = rw h.0 (ap (◌∷◌ l) (collapse_blank-same (is_empty l) ls h.1))

drop_blank_end-NoRuns : (b : Bool) (ls : List Text) → NoRuns b ls → NoRuns b (drop_blank_end ls)
unfolding drop_blank_end
drop_blank_end-NoRuns b [] h = tt
drop_blank_end-NoRuns b (l ∷ ls) h =
    elim (Bool-cases (is_empty (drop_blank_end ls) && is_empty l)) [
      | inl e ↦ rw e tt
      | inr e ↦ rw e (h.0, drop_blank_end-NoRuns (is_empty l) ls h.1)
    ]

drop_blank_end-drop_blank_end :
    (ls : List Text) → drop_blank_end (drop_blank_end ls) ≡ drop_blank_end ls
unfolding drop_blank_end
drop_blank_end-drop_blank_end [] = refl
drop_blank_end-drop_blank_end (l ∷ ls) =
    elim (Bool-cases (is_empty (drop_blank_end ls) && is_empty l)) [
      | inl e ↦ rw e
      | inr e ↦ rw (e, drop_blank_end, drop_blank_end-drop_blank_end ls, e)
    ]

split_char-line : (l : Text) → OneLine l → split_char 10 l ≡ l ∷ []
unfolding split_char
split_char-line [] h = refl
split_char-line (c ∷ l) h = rw (h.0, split_char-line l h.1)

split_char-append :
    (l rest : Text) → OneLine l → split_char 10 (l ++ 10 ∷ rest) ≡ l ∷ split_char 10 rest
unfolding split_char
split_char-append [] rest h = refl
split_char-append (c ∷ l) rest h = rw (h.0, split_char-append l rest h.1)

-- The lines of a joined text are the lines.
split_char-join_lines :
    (l : Text) (ls : List Text)
    → All OneLine (l ∷ ls)
    → split_char 10 (join_lines (l ∷ ls)) ≡ l ∷ ls
unfolding join_lines
split_char-join_lines l [] h = split_char-line l h.0
split_char-join_lines l (m ∷ ls) h =
    split_char-append l (join_lines (m ∷ ls)) h.0 ∙ ap (◌∷◌ l) (split_char-join_lines m ls h.1)

clean-same : (ls : List Text) → All IsLine ls → map clean_line ls ≡ ls
clean-same [] h = refl
clean-same (l ∷ ls) h = rw (h.0.0, clean-same ls h.1)

one_lines : (ls : List Text) → All IsLine ls → All OneLine ls
one_lines [] h = tt
one_lines (l ∷ ls) h = (h.0.1, one_lines ls h.1)

abbrev again : List Text → Text
again ls = join_lines (drop_blank_end (collapse_blank true (map clean_line ls)))

-- A text of lines that are clean, with no runs of blank ones and none at the end, stays.
again_same :
    (ls : List Text)
    → All IsLine ls
    → NoRuns true ls
    → drop_blank_end ls ≡ ls
    → again (split_char 10 (join_lines ls)) ≡ join_lines ls
unfolding join_lines split_char collapse_blank drop_blank_end clean_line trim_end strip_cr
again_same [] h r d = refl
again_same (l ∷ ls) h r d =
    ap again (split_char-join_lines l ls (one_lines (l ∷ ls) h))
    ∙ ap (λ x. join_lines (drop_blank_end (collapse_blank true x))) (clean-same (l ∷ ls) h)
    ∙ ap (λ x. join_lines (drop_blank_end x)) (collapse_blank-same true (l ∷ ls) r)
    ∙ ap join_lines d

-- If NFC leaves the normalised text as it is, normalising it again does, too.
pub normalize_chunk_text-idempotent :
    (nfc : Text → Text) (input : Text)
    → nfc (normalize_chunk_text nfc input) ≡ normalize_chunk_text nfc input
    → normalize_chunk_text nfc (normalize_chunk_text nfc input) ≡ normalize_chunk_text nfc input
unfolding normalize_chunk_text
normalize_chunk_text-idempotent nfc input stable =
    let cleaned = map clean_line (split_char 10 (nfc input)) in
    let collapsed = collapse_blank true cleaned in
    let is_lines = clean-IsLine (split_char 10 (nfc input)) (split_char-OneLine (nfc input)) in
    ap (λ s. again (split_char 10 s)) stable
    ∙ again_same (drop_blank_end collapsed)
        (drop_blank_end-All IsLine collapsed (collapse_blank-All IsLine true cleaned is_lines))
        (drop_blank_end-NoRuns true collapsed (collapse_blank-NoRuns true cleaned))
        (drop_blank_end-drop_blank_end collapsed)
