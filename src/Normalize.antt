-- ===== src/Normalize.antt =====
-- crates/klams-types/src/text.rs: the normalisation of chunk text.
-- Unicode's NFC is a parameter.
pub mod Idempotent
mod Tests
use klams.Common.{
  ℕ, Bool, true, false, ◌&&◌, List, [], ◌∷◌, ◌++◌, map, if◌then◌else◌, is_empty, Text, trim_end,
  strip_cr, split_char,
}

-- `raw.strip_suffix('\r').unwrap_or(raw).trim_end()`
pub clean_line : Text → Text
clean_line raw = trim_end (strip_cr raw)

-- The loop over the cleaned lines; the flag is `prev_blank`. A blank line that is skipped leaves
-- the flag up, as it is.
pub collapse_blank : Bool → List Text → List Text
collapse_blank prev_blank [] = []
collapse_blank prev_blank (line ∷ lines) =
    let rest = collapse_blank (is_empty line) lines in
    if is_empty line && prev_blank then rest else line ∷ rest

-- `while out.last().is_some_and(|l| l.is_empty()) { out.pop(); }`
pub drop_blank_end : List Text → List Text
drop_blank_end [] = []
drop_blank_end (line ∷ lines) =
    let rest = drop_blank_end lines in if is_empty rest && is_empty line then [] else line ∷ rest

-- `out.join("\n")`
pub join_lines : List Text → Text
join_lines [] = []
join_lines (l ∷ []) = l
join_lines (l ∷ m ∷ lines) = l ++ 10 ∷ join_lines (m ∷ lines)

unfoldable pub normalize_chunk_text : (Text → Text) → Text → Text
unfolding clean_line collapse_blank drop_blank_end join_lines
normalize_chunk_text nfc input =
    join_lines (drop_blank_end (collapse_blank true (map clean_line (split_char 10 (nfc input)))))
