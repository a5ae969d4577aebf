-- ===== src/Chunk.antt =====
-- crates/klams-scanner/src/chunk.rs: `chunk`, from a file's text to the chunks that are published.
-- NFC, SHA-256 and the tree-sitter splitter are parameters. The index is a `u32` that a file's
-- chunks do not exhaust.
pub mod Published
mod Tests
use klams.Common.{
  ℕ, suc, ◌+◌, Bool, true, false, ◌&&◌, Option, none, some, List, [], ◌∷◌, ◌++◌, map, if◌then◌else◌,
  ltb, is_empty, length, Text, trim, codes,
}
use klams.EmbedLimit.{EmbedLimit}
use klams.Windows.{enforce_limit}
use klams.Markdown.{Block, markdown_blocks}
use klams.Pack.{pack_blocks, plain_blocks}
use klams.Normalize.{normalize_chunk_text}

pub data Lang : Type 0 where
  markdown rust python shell toml text : Lang

pub label : Lang → Option Text
label markdown = some (codes "markdown")
label rust = some (codes "rust")
label python = some (codes "python")
label shell = some (codes "shell")
label toml = some (codes "toml")
label text = none

abbrev pub min_body_chars : ℕ
min_body_chars = 40

pub record Chunk : Type 0 where
  pub index : ℕ
  pub text : Text
  pub content_hash : Text
  pub heading_path : Option Text
  pub language : Option Text
  pub symbols : List Text

-- A heading path, symbols, and a body.
pub record Piece : Type 0 where
  pub path : Option Text
  pub symbols : List Text
  pub body : Text

abbrev with_path : Block → Piece
with_path b = record { path = b.path; symbols = []; body = b.body }

abbrev without_path : Block → Piece
without_path b = record { path = none; symbols = []; body = b.body }

abbrev of_code : List Text × Text → Piece
of_code (symbols, body) = record { path = none; symbols = symbols; body = body }

-- The third-party code that `chunk` calls.
pub record Tools : Type 0 where
  pub nfc : Text → Text
  pub sha256_hex : Text → Text
  pub code_blocks : Text → Lang → Option (List (List Text × Text))

abbrev plain_pieces : Text → List Piece
plain_pieces norm = map without_path (pack_blocks (plain_blocks norm))

abbrev code_pieces : Text → Option (List (List Text × Text)) → List Piece
code_pieces norm none = plain_pieces norm
code_pieces norm (some cbs) = map of_code cbs

pub pieces_of : Tools → Text → Lang → List Piece
pieces_of t norm markdown = map with_path (pack_blocks (markdown_blocks norm))
pieces_of t norm rust = code_pieces norm (t.code_blocks norm rust)
pieces_of t norm python = code_pieces norm (t.code_blocks norm python)
pieces_of t norm shell = plain_pieces norm
pieces_of t norm toml = plain_pieces norm
pieces_of t norm text = plain_pieces norm

abbrev is_markdown : Lang → Bool
is_markdown markdown = true
is_markdown rust = false
is_markdown python = false
is_markdown shell = false
is_markdown toml = false
is_markdown text = false

abbrev with_breadcrumb : Option Text → Text → Text
with_breadcrumb none body = body
with_breadcrumb (some p) body = p ++ 10 ∷ 10 ∷ body

-- The text of a piece that is embedded, or `none` where the loop goes on to the next piece.
pub text_of : Lang → Piece → Option Text
text_of lang p =
    let s = trim (with_breadcrumb p.path p.body) in
    if is_markdown lang && ltb (length (trim p.body)) min_body_chars
    then none
    else if is_empty s
    then none
    else some s

-- The inner loop, from an index on.
pub chunks_of : Tools → Lang → Piece → ℕ → List Text → List Chunk
chunks_of t lang p idx [] = []
chunks_of t lang p idx (s ∷ ss) =
    record {
      index = idx;
      text = s;
      content_hash = t.sha256_hex s;
      heading_path = p.path;
      language = label lang;
      symbols = p.symbols;
    }
    ∷ chunks_of t lang p (suc idx) ss

abbrev after : List Chunk → Option (List Chunk) → Option (List Chunk)
after cs none = none
after cs (some more) = some (cs ++ more)

abbrev cut : EmbedLimit → Option Text → Option (List Text)
cut limit none = some []
cut limit (some s) = enforce_limit s limit

-- The outer loop; `none` only if the halving loop of `enforce_limit` ran out of fuel.
abbrev pub emitted :
    Tools → Lang → Piece → ℕ → Option (List Text) → (ℕ → Option (List Chunk)) → Option (List Chunk)
emitted t lang p idx none more = none
emitted t lang p idx (some ss) more = after (chunks_of t lang p idx ss) (more (idx + length ss))

pub chunks_from : Tools → Lang → EmbedLimit → ℕ → List Piece → Option (List Chunk)
unfolding text_of chunks_of
chunks_from t lang limit idx [] = some []
chunks_from t lang limit idx (p ∷ ps) =
    emitted t lang p idx (cut limit (text_of lang p)) (λ i. chunks_from t lang limit i ps)

pub chunk : Tools → Text → Lang → EmbedLimit → Option (List Chunk)
unfolding pieces_of chunks_from
chunk t body lang limit =
    let norm = normalize_chunk_text t.nfc body in
    if is_empty norm then some [] else chunks_from t lang limit 0 (pieces_of t norm lang)
