-- ===== src/Pack.antt =====
-- crates/klams-scanner/src/chunk.rs: blank-line paragraphs, and the packing of blocks into pieces.
-- The pieces so far are kept newest first.
pub mod Content
mod Tests
use klams.Common.{
  ℕ, ◌+◌, Bool, true, false, not, ◌&&◌, Option, none, some, List, [], ◌∷◌, ◌++◌, if◌then◌else◌, ltb,
  leb, ◌==◌, is_empty, Text, text_eq, trim, byte_len,
}
use klams.Markdown.{Block}
use klams.Windows.{slide_windows, target_chars, min_chars}

-- Put a character before the first piece.
abbrev pub onto : ℕ → List Text → List Text
onto c [] = (c ∷ []) ∷ []
onto c (p ∷ ps) = (c ∷ p) ∷ ps

-- `norm.split("\n\n")`; the flag says that a line feed came just before.
pub split_blank : Bool → Text → List Text
split_blank true [] = (10 ∷ []) ∷ []
split_blank false [] = [] ∷ []
split_blank true (c ∷ s) =
    let rest = split_blank false s in if c == 10 then [] ∷ rest else onto 10 (onto c rest)
split_blank false (c ∷ s) = elim (c == 10) [
  | true ↦ split_blank true s
  | false ↦ onto c (split_blank false s)
]

-- The trimmed pieces that are not empty.
pub paragraphs : List Text → List Block
paragraphs [] = []
paragraphs (p ∷ ps) =
    let rest = paragraphs ps in
    if is_empty (trim p) then rest else record { path = none; body = trim p } ∷ rest

pub plain_blocks : Text → List Block
unfolding split_blank paragraphs
plain_blocks norm = paragraphs (split_blank false norm)

abbrev pub same_path : Option Text → Option Text → Bool
same_path none none = true
same_path (some p) (some q) = text_eq p q
same_path none (some q) = false
same_path (some p) none = false

-- The variables of `pack_blocks`.
pub record Packing : Type 0 where
  pub out : List Block
  pub cur : Text
  pub cur_path : Option Text

abbrev pub joined : Text → Text → Text
joined a b = a ++ 10 ∷ 10 ∷ b

abbrev pub new_piece : List Block → Option Text → Text → List Block
new_piece out path text = record { path = path; body = text } ∷ out

abbrev pub scrap : List Block → Option Text → Text → List Block
scrap [] path text = new_piece [] path text
scrap (last ∷ out) path text =
    if same_path last.path path
    then record last { body = joined last.body text } ∷ out
    else new_piece (last ∷ out) path text

pub push_piece : List Block → Option Text → Text → List Block
push_piece out path text =
    if ltb (byte_len text) min_chars then scrap out path text else new_piece out path text

-- `if !cur.is_empty() { push_piece(&mut out, cur_path.take(), std::mem::take(&mut cur)) }`
pub flush : Packing → Packing
unfolding push_piece
flush st =
    if is_empty st.cur
    then st
    else record { out = push_piece st.out st.cur_path st.cur; cur = []; cur_path = none }

pub push_windows : List Block → Option Text → List Text → List Block
push_windows out path [] = out
push_windows out path (w ∷ ws) = push_windows (record { path = path; body = w } ∷ out) path ws

-- What the loop does with a block whose trimmed body is not empty.
abbrev pub pack_body : Packing → Option Text → Text → Packing
pack_body st path body =
    if ltb target_chars (byte_len body)
    then (let f = flush st in record f { out = push_windows f.out path (slide_windows body) })
    else if not (is_empty st.cur)
        && same_path path st.cur_path
        && leb (byte_len st.cur + byte_len body + 2) target_chars
    then record st { cur = joined st.cur body }
    else record { out = (flush st).out; cur = body; cur_path = path }

pub pack_step : Packing → Block → Packing
unfolding flush push_windows
pack_step st b = if is_empty (trim b.body) then st else pack_body st b.path (trim b.body)

pub pack_from : Packing → List Block → Packing
unfolding pack_step
pack_from st [] = st
pack_from st (b ∷ bs) = pack_from (pack_step st b) bs

pub oldest_first : List Block → List Block → List Block
oldest_first done [] = done
oldest_first done (b ∷ bs) = oldest_first (b ∷ done) bs

pub pack_blocks : List Block → List Block
unfolding pack_from oldest_first
pack_blocks blocks =
    let st = pack_from (record { out = []; cur = []; cur_path = none }) blocks in
    oldest_first [] (flush st).out
