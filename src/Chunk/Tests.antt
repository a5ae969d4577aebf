-- ===== src/Chunk/Tests.antt =====
-- Runs of the chunker, and the theorem of this folder at a concrete input.
use klams.Common.{◌≡◌, refl, true, none, some, List, [], ◌∷◌, ◌++◌, arith, codes, All, trim}
use klams.EmbedLimit.{EmbedLimit, fits}
use klams.Chunk.{Chunk, Piece, Tools, markdown, shell, text_of, chunk}
use klams.Chunk.Published.{Numbered, chunk-fits}

abbrev tools : Tools
tools = record { nfc = λ s. s; sha256_hex = λ s. codes "h"; code_blocks = λ s lang. none }

abbrev limit : EmbedLimit
limit = record { max_input_tokens = 512 }

abbrev tiny : Piece
tiny = record { path = some (codes "License"); symbols = []; body = codes "MIT." }

not_alone : text_of markdown tiny ≡ none
unfolding text_of trim
not_alone = refl

no_floor : text_of shell (record tiny { path = none }) ≡ some (codes "MIT.")
unfolding text_of trim
no_floor = refl

chunk-fits_example :
    (cs : List Chunk) × (chunk tools (codes "# A" ++ 10 ∷ codes "x") markdown limit ≡ some cs)
    × Numbered 0 cs
    × All (λ (c : Chunk). fits limit c.text ≡ true) cs
chunk-fits_example = chunk-fits tools markdown limit (omega arith) (codes "# A" ++ 10 ∷ codes "x")
