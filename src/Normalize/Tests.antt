-- ===== src/Normalize/Tests.antt =====
-- Runs of the normalisation.
use klams.Common.{◌≡◌, refl, [], ◌∷◌, ◌++◌, codes, split_char, strip_cr, trim_end}
use klams.Normalize.Idempotent.{normalize_chunk_text-idempotent}
use klams.Normalize.{normalize_chunk_text, clean_line, collapse_blank, drop_blank_end, join_lines}

runs_collapse :
    normalize_chunk_text (λ s. s) (10 ∷ codes "  a  " ++ 13 ∷ 10 ∷ 10 ∷ 10 ∷ codes "b" ++ 10 ∷ [])
    ≡ codes "  a" ++ 10 ∷ 10 ∷ codes "b"
unfolding normalize_chunk_text clean_line collapse_blank drop_blank_end join_lines split_char
    strip_cr trim_end
runs_collapse = refl

-- A lone carriage return inside a line stays.
lone_return :
    normalize_chunk_text (λ s. s) (codes "a" ++ 13 ∷ codes "b") ≡ codes "a" ++ 13 ∷ codes "b"
unfolding normalize_chunk_text clean_line collapse_blank drop_blank_end join_lines split_char
    strip_cr trim_end
lone_return = refl

normalize_chunk_text-idempotent_example :
    normalize_chunk_text
      (λ s. s)
      (normalize_chunk_text (λ s. s) (codes "a " ++ 10 ∷ 10 ∷ 10 ∷ codes "b"))
    ≡ normalize_chunk_text (λ s. s) (codes "a " ++ 10 ∷ 10 ∷ 10 ∷ codes "b")
normalize_chunk_text-idempotent_example =
    normalize_chunk_text-idempotent (λ s. s) (codes "a " ++ 10 ∷ 10 ∷ 10 ∷ codes "b") refl
