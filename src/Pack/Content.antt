-- ===== src/Pack/Content.antt =====
-- Packing keeps all content under its breadcrumb.
use klams.Common.{
  ℕ, ◌+◌, ◌≤◌, ◌≡◌, refl, ap, ◌∙◌, ◌↔◌, inl, inr, Bool, true, false, not, ◌&&◌, Option, none, some,
  List, [], ◌∷◌, arith, drop, is_empty, Text, text_eq_iff, is_whitespace, trim, sum_by,
  sum_by-append, Bool-cases, All, ltb, leb, byte_len, take, take-append-drop, ◌==◌, ==_iff,
}
use klams.Common.Blank.{sum_by-blank, sum_by-trim}
use klams.Markdown.{Block}
use klams.Markdown.Content.{weigh_blocks}
use klams.Windows.{slide_windows, target_chars}
use klams.Windows.Coverage.{tails, glue, slide_windows-glue}
use klams.Pack.{
  split_blank, paragraphs, plain_blocks, same_path, Packing, push_piece, flush, push_windows,
  pack_body, pack_step, pack_from, oldest_first, pack_blocks, scrap, joined, onto,
}

same_path_iff : (p q : Option Text) → (same_path p q ≡ true) ↔ (p ≡ q)
same_path_iff none none = ((λ h. refl), (λ h. refl))
same_path_iff none (some q) = ((λ h. cc), (λ h. cc))
same_path_iff (some p) none = ((λ h. cc), (λ h. cc))
same_path_iff (some p) (some q) =
    ((λ h. ap some ((text_eq_iff p q).0 h)), (λ h. (text_eq_iff p q).1 cc))

sum_by-drop : (h : ℕ → ℕ) (n : ℕ) (s : Text) → sum_by h (drop n s) ≤ sum_by h s
sum_by-drop h n s =
    omega (arith, sum_by-append h (take n s) (drop n s), ap (sum_by h) (take-append-drop n s))

sum_by-tails : (h : ℕ → ℕ) (o : ℕ) (ps : List Text) → sum_by h (tails o ps) ≤ sum_by (sum_by h) ps
sum_by-tails h o [] = omega arith
sum_by-tails h o (p ∷ ps) =
    omega (arith, sum_by-append h (drop o p) (tails o ps), sum_by-drop h o p, sum_by-tails h o ps)

sum_by-glue : (h : ℕ → ℕ) (o : ℕ) (ps : List Text) → sum_by h (glue o ps) ≤ sum_by (sum_by h) ps
sum_by-glue h o [] = omega arith
sum_by-glue h o (p ∷ ps) = omega (arith, sum_by-append h p (tails o ps), sum_by-tails h o ps)

module _ (g : Option Text → ℕ → ℕ)
    (blank : (p : Option Text) (c : ℕ) → is_whitespace c ≡ true → g p c ≡ 0) where
  abbrev weigh : List Block → ℕ
  weigh = weigh_blocks g blank

  abbrev total : Packing → ℕ
  total st = weigh st.out + sum_by (g st.cur_path) st.cur

  joined-weight :
      (p : Option Text) (a b : Text) → sum_by (g p) (joined a b) ≡ sum_by (g p) a + sum_by (g p) b
  joined-weight p a b = omega (arith, sum_by-append (g p) a (10 ∷ 10 ∷ b), blank p 10 refl)

  scrap-weight :
      (out : List Block) (p : Option Text) (t : Text)
      → weigh (scrap out p t) ≡ sum_by (g p) t + weigh out
  scrap-weight [] p t = refl
  scrap-weight (last ∷ out) p t = elim (Bool-cases (same_path last.path p)) [
    | inl e ↦
        let q = (same_path_iff last.path p).0 e in
        let moved = ap (λ x. sum_by (g x) t) q in
        rw e (omega (arith, joined-weight last.path last.body t, moved))
    | inr e ↦ rw e
  ]

  push_piece-weight :
      (out : List Block) (p : Option Text) (t : Text)
      → weigh (push_piece out p t) ≡ sum_by (g p) t + weigh out
  unfolding push_piece
  push_piece-weight out p t = elim (Bool-cases (ltb (byte_len t) 64)) [
    | inl e ↦ rw e (scrap-weight out p t)
    | inr e ↦ rw e
  ]

  flush-weight :
      (st : Packing)
      → (weigh (flush st).out ≡ total st) × (sum_by (g (flush st).cur_path) (flush st).cur ≡ 0)
  unfolding flush
  flush-weight st = go st.out st.cur st.cur_path
    where
      go :
          (out : List Block) (cur : Text) (p : Option Text)
          → let st : Packing = record { out = out; cur = cur; cur_path = p } in
            (weigh (flush st).out ≡ total st) × (sum_by (g (flush st).cur_path) (flush st).cur ≡ 0)
      go out [] p = (omega arith, refl)
      go out (c ∷ cur) p = (omega (arith, push_piece-weight out p (c ∷ cur)), refl)

  push_windows-weight :
      (out : List Block) (p : Option Text) (ws : List Text)
      → weigh (push_windows out p ws) ≡ sum_by (sum_by (g p)) ws + weigh out
  unfolding push_windows
  push_windows-weight out p [] = omega arith
  push_windows-weight out p (w ∷ ws) =
      omega (arith, push_windows-weight (record { path = p; body = w } ∷ out) p ws)

  small_body :
      (st : Packing) (p : Option Text) (body : Text)
      → ltb target_chars (byte_len body) ≡ false
      → total (pack_body st p body) ≡ total st + sum_by (g p) body
  small_body st p body e = elim (Bool-cases mergeable) [
    | inl m ↦
        let together : same_path p st.cur_path ≡ true = ground (arith, m) in
        let moved = ap (λ x. sum_by (g x) body) ((same_path_iff p st.cur_path).0 together) in
        rw (e, m) (omega (arith, joined-weight st.cur_path st.cur body, moved))
    | inr m ↦ rw (e, m) (omega (arith, (flush-weight st).0))
  ]
    where
      mergeable : Bool
      mergeable =
          not (is_empty st.cur)
          && same_path p st.cur_path
          && leb (byte_len st.cur + byte_len body + 2) target_chars

  -- What one body adds: its weight, or more for an oversized one, whose windows overlap.
  pack_body-weight :
      (st : Packing) (p : Option Text) (body : Text)
      → (total st + sum_by (g p) body ≤ total (pack_body st p body))
        × (ltb target_chars (byte_len body) ≡ false
            → total (pack_body st p body) ≡ total st + sum_by (g p) body)
  pack_body-weight st p body = elim (Bool-cases (ltb target_chars (byte_len body))) [
    | inl e ↦
        let f = flush-weight st in
        let w = push_windows-weight (flush st).out p (slide_windows body) in
        let l = sum_by-glue (g p) 200 (slide_windows body) in
        let s = ap (sum_by (g p)) (slide_windows-glue body) in
        rw e (omega (arith, f.0, f.1, w, l, s), (λ h. cc))
    | inr e ↦ let q = small_body st p body e in (omega (arith, q), (λ h. q))
  ]

  Small : Block → Type 0
  Small b = ltb target_chars (byte_len (trim b.body)) ≡ false

  pack_step-weight :
      (st : Packing) (b : Block)
      → (total st + sum_by (g b.path) b.body ≤ total (pack_step st b))
        × (Small b → total (pack_step st b) ≡ total st + sum_by (g b.path) b.body)
  unfolding pack_step Small
  pack_step-weight st b = elim (Bool-cases (is_empty (trim b.body))) [
    | inl e ↦
        let z = sum_by-blank (g b.path) (blank b.path) b.body e in
        rw e (omega (arith, z), (λ h. omega (arith, z)))
    | inr e ↦
        let t = sum_by-trim (g b.path) (blank b.path) b.body in
        let r = pack_body-weight st b.path (trim b.body) in
        rw e (omega (arith, t, r.0), (λ h. omega (arith, t, r.1 h)))
  ]

  pack_from-weight :
      (st : Packing) (bs : List Block)
      → (total st + weigh bs ≤ total (pack_from st bs))
        × (All Small bs → total (pack_from st bs) ≡ total st + weigh bs)
  unfolding pack_from
  pack_from-weight st [] = (omega arith, (λ h. omega arith))
  pack_from-weight st (b ∷ bs) =
      let a = pack_step-weight st b in
      let r = pack_from-weight (pack_step st b) bs in
      (omega (arith, a.0, r.0), (λ h. omega (arith, a.1 h.0, r.1 h.1)))

  oldest_first-weight :
      (done bs : List Block) → weigh (oldest_first done bs) ≡ weigh done + weigh bs
  unfolding oldest_first
  oldest_first-weight done [] = omega arith
  oldest_first-weight done (b ∷ bs) = omega (arith, oldest_first-weight (b ∷ done) bs)

  abbrev no_pieces : Packing
  no_pieces = record { out = []; cur = []; cur_path = none }

  packed_lem : (bs : List Block) → weigh (pack_blocks bs) ≡ total (pack_from no_pieces bs)
  unfolding pack_blocks
  packed_lem bs =
      let st = pack_from no_pieces bs in
      omega (arith, oldest_first-weight [] (flush st).out, (flush-weight st).0)

  -- For every weight of characters under a breadcrumb that gives white space none, the pieces weigh
  -- no less than the blocks: no content is lost, or moved under another breadcrumb.
  pub pack_blocks-le : (bs : List Block) → weigh bs ≤ weigh (pack_blocks bs)
  pack_blocks-le bs = omega (arith, packed_lem bs, (pack_from-weight no_pieces bs).0)

  -- And when no trimmed block is over 800 bytes, they weigh the same: nothing is doubled either.
  pub pack_blocks-weight :
      (bs : List Block)
      → All (λ b. ltb 800 (byte_len (trim b.body)) ≡ false) bs
      → weigh (pack_blocks bs) ≡ weigh bs
  unfolding Small
  pack_blocks-weight bs h = omega (arith, packed_lem bs, (pack_from-weight no_pieces bs).1 h)

  abbrev ink : Text → ℕ
  ink = sum_by (g none)

  paragraphs-weight : (ps : List Text) → weigh (paragraphs ps) ≡ sum_by ink ps
  unfolding paragraphs
  paragraphs-weight [] = refl
  paragraphs-weight (p ∷ ps) = elim (Bool-cases (is_empty (trim p))) [
    | inl e ↦ rw e (omega (arith, sum_by-blank (g none) (blank none) p e, paragraphs-weight ps))
    | inr e ↦ rw e (omega (arith, sum_by-trim (g none) (blank none) p, paragraphs-weight ps))
  ]

  onto-weight : (c : ℕ) (ps : List Text) → sum_by ink (onto c ps) ≡ g none c + sum_by ink ps
  onto-weight c [] = omega arith
  onto-weight c (p ∷ ps) = omega arith

  -- A character that no line feed precedes.
  after_text :
      (c : ℕ) (s : Text) (b : Bool)
      → (c == 10) ≡ b
      → sum_by ink (split_blank true s) ≡ ink s
      → sum_by ink (split_blank false s) ≡ ink s
      → sum_by ink (elim b [ true ↦ split_blank true s | false ↦ onto c (split_blank false s) ])
        ≡ ink (c ∷ s)
  after_text c s true e t u =
      let z = ap (g none) ((==_iff c 10).0 e) in omega (arith, z, blank none 10 refl, t)
  after_text c s false e t u = omega (arith, onto-weight c (split_blank false s), u)

  split_blank-weight : (b : Bool) (s : Text) → sum_by ink (split_blank b s) ≡ ink s
  unfolding split_blank
  split_blank-weight true [] = omega (arith, blank none 10 refl)
  split_blank-weight false [] = refl
  split_blank-weight true (c ∷ s) = elim (Bool-cases (c == 10)) [
    | inl e ↦
        let z = ap (g none) ((==_iff c 10).0 e) in
        rw e (omega (arith, z, blank none 10 refl, split_blank-weight false s))
    | inr e ↦ rw e (
        omega (
          arith,
          onto-weight 10 (onto c (split_blank false s)),
          onto-weight c (split_blank false s),
          blank none 10 refl,
          split_blank-weight false s,
        ))
  ]
  split_blank-weight false (c ∷ s) =
      after_text c s (c == 10) refl (split_blank-weight true s) (split_blank-weight false s)

  -- The paragraphs of a text weigh what the text weighs: no character but white space is lost.
  pub plain_blocks-weight : (norm : Text) → weigh (plain_blocks norm) ≡ ink norm
  unfolding plain_blocks
  plain_blocks-weight norm =
      paragraphs-weight (split_blank false norm) ∙ split_blank-weight false norm
