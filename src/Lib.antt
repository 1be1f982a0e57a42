-- ===== src/Lib.antt =====
-- fslite is a filesystem in a SQLite database: workspaces of directories, files and links, with
-- optimistic revisions, a trash, attributes, atomic batches and a feed of changes. This library
-- models its core and proves properties of it.
--
-- The parts, and the files that model them:
-- - Path: `VirtualPath` and `LinkTarget` of crates/fslite-core/src/path.rs, with
--   `is_same_or_descendant` of crates/fslite-sqlite/src/mutate.rs. A text is the list of its
--   bytes; of the UTF-8 encoding the code only looks at '/', '.' and NUL, which are one byte
--   each. `LinkTarget::parse` is called parse_target.
-- - Fault: `ErrorCode`, `FsError` and `FsResult` of crates/fslite-core/src/error.rs. A message
--   is kept as its subject.
-- - Schema, Sql: the tables of crates/fslite-sqlite/migrations/0001_initial.sql as lists of
--   rows, and the statements on them with their keys, references, cascades and the unique index
--   of active names. A transaction is a function from the tables to a run; an error in it rolls
--   the tables back.
-- - Resolve, Node: crates/fslite-sqlite/src/resolve.rs, `RawNode::into_node`, and `Node` of
--   crates/fslite-core/src/model.rs.
-- - Change: `append` of crates/fslite-sqlite/src/change.rs.
-- - Purge, Mutate: crates/fslite-sqlite/src/mutate.rs. Each `*_tx` function is the function of
--   the same name, cut at its early returns into helpers; the async wrapper around it is
--   `copy`, `move_path` and so on.
-- - Content: crates/fslite-sqlite/src/content.rs. Touch has `finalize_tx` and `touch`; Chunks
--   the statements on chunks, Writer the `ChunkWriter`, Write and Read the operations that
--   stream, and Calls how they run: one `conn.call` after the other, each with its own
--   transaction, and an error that ends the operation. A stream is the list of what it yields.
--   The other modules below Content are proofs.
-- - Search: patterns, `wildcard_match` and `glob_match` of crates/fslite-sqlite/src/search.rs;
--   a text is the list of its characters there. Search/Contents: `search_file`.
-- - Lexer: crates/fslite-command/src/lexer.rs, with a line as the list of its code points.
-- - Range: crates/fslite-server/src/range.rs, and `str::parse::<u64>` as the standard library
--   has it.
-- - Directory: `stat`, `exists` and `mkdir` of crates/fslite-sqlite/src/directory.rs.
-- - Trash: `trash`, `restore` and `purge` of crates/fslite-sqlite/src/trash.rs.
-- - Batch: `batch` of crates/fslite-sqlite/src/mutate.rs, with the capabilities and operations
--   of crates/fslite-core/src/fs.rs. It runs the `*_tx` functions of the parts above one after
--   the other in one transaction.
-- - Common: shared notation and lemmas. Keeps, Feed, Names, Refusal, and the modules below
--   Path, Resolve, Batch, Search, Lexer and Range: proofs. Tests: runs on a sample.
--
-- Bounds: revisions, times, sizes and sequence numbers, which the code keeps in i64 columns,
-- are natural numbers with no upper bound. The ids are the values of the UUIDs. The walk of
-- `resolve_following` is bounded by MAX_LINK_HOPS = 40 as in the code and needs no fuel. The
-- recursive query of `purge_subtree` and the loop of `copy_subtree` end only where the tree is
-- finite and does not grow: they take the number of rounds of the host, and a run that uses
-- them up is `diverged`, which is no value, so that nothing is claimed of what it returns. The
-- loops of `write_bytes` and `zero_fill` take a byte in each round and get as many rounds as
-- there are bytes; the one of `wildcard_match` gets a round for every place in the text and the
-- pattern, and those of the lexer one for each character; the loop of `search_file` scans a
-- byte at least in each round and gets as many as its byte budget, and one.
--
-- From outside the repository: the `uuid` crate and the clock, as answers of the host to
-- numbered requests, and the base64 encoding of attribute values.
--
-- Not modelled: the paginated listings and their cursors, the walks of search, administration
-- of workspaces, calls of several operations that interleave, the parser of the command
-- language, the rest of the server, the command-line program and the conformance suite: they
-- are I/O or not done yet. An `expect` that does not hold is the run `panicked`.
pub mod Common
pub mod Path
pub mod Fault
pub mod Schema
pub mod Sql
pub mod Resolve
pub mod Change
pub mod Purge
pub mod Node
pub mod Mutate
pub mod Content
pub mod Directory
pub mod Trash
pub mod Batch
pub mod Keeps
pub mod Feed
pub mod Names
pub mod Refusal
pub mod Search
pub mod Lexer
pub mod Range
pub mod Tests
