-- ===== src/Lib.antt =====
-- klams keeps the shared memory of a homelab: facts, events and knowledge chunks, which agents
-- write and search over HTTP and MCP. A scanner cuts files into chunks, publishes them, and the
-- service embeds and stores them; a context builder fits what a search finds into a token budget.
-- This library models the parts below, as functions on values; a shared or locked object is a
-- value that an operation takes and returns.
--
-- Common: what the modules share: tests on numbers, lists measured by numbers, texts as lists of
--   code points with `str::trim`, `split` and `lines`, and Rust's stable sort as an insertion sort.
-- Floats: the operations of `f32` that the code calls, as a parameter; a model for the tests.
-- Context (crates/klams-core/src/context.rs): `allocate_budget` with `take_floor`. `u32` sums wrap
--   at 2 ^ 32, and `saturating_add` stops below it. Passes, Spend and Budget prove its bounds.
-- Auth (crates/klams-types/src/auth.rs): the `[auth]` block and its checks.
-- Access (crates/klams-api/src/auth.rs, crates/klams-service/src/main.rs): the check of a request,
--   the scope gate, and the swap of the identity table on SIGHUP. Access uses `errors` of Auth. The
--   author registry, the parser of addresses and the tailnet resolver are parameters.
-- EmbedLimit (crates/klams-types/src/embed_limit.rs): the estimate of tokens and both size gates.
-- Windows (crates/klams-scanner/src/chunk.rs): the overlapping windows and `enforce_limit`, which
--   asks EmbedLimit. Loops run on fuel: the windows on the length of the text, as each step moves
--   by one character at least, and the halving loop on the first window plus one.
-- Markdown (crates/klams-scanner/src/chunk.rs): fences, headings and `markdown_blocks`.
-- Monitor (crates/klams-monitor/src/state.rs, main.rs): the event that a poll of a unit posts. Whether
--   its publish succeeds is an argument: one that fails drops the event, and the state advances.
-- Maintenance (crates/klams-types/src/maintenance.rs, crates/klams-api/src/middleware): the flag
--   that a backup raises, and the requests that pass while it is up.
-- Backup (crates/klams-service/src/backup): a run with its lockfile, recovery, and the suffix
--   search, on fuel for its range 1..u32::MAX. It raises the flag of Maintenance. The captures,
--   the prune and what the file system answers to each call on the lockfile are arguments.
-- Retention (crates/klams-store/src/backup/retention.rs): what is kept, and what is deleted.
-- Limits (crates/klams-service/src/limits.rs): connections per peer, as a step relation.
-- Hybrid (crates/klams-core/src/hybrid.rs): the fusion of ranked lists, by rank or by normalised
--   score; the order in which a hash map yields its rows is a parameter.
-- Dedupe (crates/klams-core/src/dedupe.rs): the collapse of duplicate contents in a ranked list.
-- Normalize (crates/klams-types/src/text.rs): the normalisation of chunk text; NFC is a parameter.
-- Pack (crates/klams-scanner/src/chunk.rs): paragraphs, and the packing of blocks into pieces.
-- Chunk (crates/klams-scanner/src/chunk.rs): `chunk`, which composes Normalize, Markdown, Pack and
--   Windows. SHA-256 and the tree-sitter splitter of code.rs are parameters.
-- Decay (crates/klams-core/src/decay.rs, crates/klams-types/src/decay.rs, select_decay_batch of
--   crates/klams-store/src/postgres.rs): one tick of the task that decays the weights of facts. Its
--   loop runs on fuel for one batch more than there are facts.
-- Facts (crates/klams-store/src/postgres.rs, migrations/0001_init.sql, 0002_dissents.sql,
--   0006_facts_author_and_soft_delete.sql, 0009_dissent_proposals.sql): the tables of facts and of
--   dissents as lists of rows, with the triggers and unique indexes that the writes rest on. Write
--   has `upsert_fact_v2`, `soft_delete_fact` and `restore_fact`, Dissents the proposal, promotion
--   and discard of a dissent, and Calls their sequences. A time and a fresh id are arguments, and so
--   is `canonical_json_hash`; a transaction that fails leaves the tables alone.
-- Timeline (crates/klams-store/src/composite.rs, and the pages of crates/klams-store/src/postgres.rs
--   and crates/klams-store/src/qdrant.rs): `list_memories_impl` with the pages of facts, events and
--   knowledge and `take_merged_page`. The scroll of Qdrant is an argument. A walk of the pages runs
--   on fuel for one page more than there are rows. A database error, which ends the call, is left out.
-- Worker (crates/klams-core/src/queue.rs and crates/klams-core/src/worker.rs): the bounded queue of
--   writes and the workers, as a step relation in which producers and workers take turns in any
--   order. The channel of tokio is a record with what its documentation says of it, and the store
--   behind the workers is a record of the three methods that they call; one call is one step. A
--   reply that is sent is a reply, whether or not its receiver still waits.
-- Copies (crates/klams-store/src/qdrant.rs): the copies of a point of knowledge. Copies.antt has their
--   encoding in a payload, Copies/Calls.antt `attach_copy`, `write_copies`, `delete_by_source_file`
--   and `hard_delete_by_filter`. The client of Qdrant is a record of calls, each of which may fail,
--   and `IsCollection` is what its documentation says of the calls that succeed; the pages of a
--   scroll are a list, which a page that fails ends. No other writer runs during a call.
-- Rerank (crates/klams-core/src/retrieval.rs and crates/klams-store/src/rerank.rs): the rerank stage of a
--   search. Rerank.antt has `apply_rerank_order`, with an index past the window as a panic, and
--   Rerank/Stage.antt `TeiReranker::rerank` and `rerank_stage`, over a model server that is a
--   function from texts to a parsed reply or an error.
-- Search (crates/klams-core/src/retrieval.rs with projection.rs and provenance.rs): the search over
--   facts, events and knowledge. Search.antt has the data and the filters, Search/Weights.antt the
--   weight of a hit, Search/Store.antt the store's methods as a record, Search/Knowledge.antt
--   `knowledge_candidates`, Search/Texts.antt `fts_candidates`, Search/Pipeline.antt the stages and
--   Search/Run.antt `search`, which uses Dedupe, Hybrid and Rerank; Search/Related.antt has `related`,
--   and Search/Logs.antt the entries of the miss and sample logs, which are values here. The clock,
--   `powf` and the order of a hash map are parameters; a panic is none.
--
-- Not modelled: the HTTP and MCP code and the rest of the Postgres and Qdrant code, which calls
-- other systems; hashing, tree-sitter and Unicode normalisation, which are third-party code;
-- metrics and logging, which no modelled result depends on.
pub mod Common
pub mod Floats
pub mod Auth
pub mod Access
pub mod Context
pub mod EmbedLimit
pub mod Windows
pub mod Markdown
pub mod Monitor
pub mod Maintenance
pub mod Backup
pub mod Retention
pub mod Limits
pub mod Hybrid
pub mod Dedupe
pub mod Normalize
pub mod Pack
pub mod Chunk
pub mod Decay
pub mod Facts
pub mod Timeline
pub mod Worker
pub mod Copies
pub mod Rerank
pub mod Search
