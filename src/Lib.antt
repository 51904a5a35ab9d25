-- ===== src/Lib.antt =====
-- agent-coderag: a tool that indexes the code of a project in a DuckDB database, with a vector for
-- each unit of code, and searches it.
--
-- The parts, and the files that model them:
-- - Core: the records and constants of code_rag/core (Core/Types), and exceptions as values
--   (Core/Methods). A method that changes an object is an `Action`: it takes the state and returns
--   an outcome with the new state, so that what was written before a raise stays written.
--   Core/Preserve has the rules by which an invariant goes through the methods.
-- - Parser: code_rag/parsers. Tree is what the parser reads of a tree-sitter node, Distill is
--   `TreeSitterParser._recursive_distill` with the methods it calls, Comments is `_clean_comment`
--   and `_extract_docstring`, Languages is the table of languages.py, and File is `distill_file`
--   of both parsers. The walk in the source appends to one list and shares the counts of a scope;
--   here it returns the units and passes the counts on.
-- - Intelligence: code_rag/intelligence. Embedder is both embedders, in one record, Factory is
--   factory.py, and Distiller is the call of the LLM.
-- - Storage: code_rag/storage. Db is the tables; a SQL statement is the change that it makes. State
--   is the fields of `DuckDBStorage`, Bind is `ensure_embeddings_bound` with all that it calls,
--   Units is the operations on units, relations and dependencies, Rewrite is the statements of the
--   path migration, and Connection is db_connection.py. Sound is the invariant of the index, and
--   View is what it promises to its callers.
-- - Paths: the part of pathlib that the code uses (Pure), and code_rag/paths.py,
--   code_rag/core/utils.py and `format_unit_path` of code_rag/services/search.py (Resolve).
-- - Index: code_rag/services/indexing.py: Units is one unit and the batches, File is `sync_file`,
--   Project is `sync_project` with one worker, and Pool is the workers and the queue as a step
--   relation.
-- - Migration: code_rag/services/path_migration.py: Claim is `_groups` and `claim_relative_paths`,
--   Run is `migrate_absolute_paths`.
-- - Config: code_rag/services/config.py and `DistillerConfig` of code_rag/intelligence/distiller.py.
-- - Sync: code_rag/services/sync.py: Files is the choice of files, and Run is `run_sync` and
--   `run_rebuild`. Build is code_rag/services/dependencies.py.
-- - Discovery: code_rag/discovery: Manager is manager.py with code_rag/services/discovery_api.py,
--   and Rust, Javascript, Java and Sources (Go and C#) are the files of providers. Walk is the
--   `_recursive_extract` that two of them have, and Report the lines that they write.
-- - Setup: code_rag/services/setup.py.
-- - Api/Client: `CodeRAG` of code_rag/api/client.py.
-- - Entry/Cli: the commands of code_rag/entry/cli.py, and `main` of code_rag/entry/args.py.
-- The command line calls the client, and the client opens Storage and runs Sync, the search and
-- Discovery. Sync caches what Build finds, runs Migration, and passes the files to Index. The
-- parser gives units to Index, which asks Storage what it holds, has the embedder make vectors and
-- writes both; Migration rewrites in Storage the paths that older versions stored.
--
-- Parameters stand for what is not in the repository: the tree of a file and the grammars
-- (`Grammars`), the decoding and the hash (`Source`), the model run and the request
-- (`Embedder.respond`), the LLM (`Ports.complete`), `Path.exists` and `Path.resolve`
-- (`System`), the order of the search (`rank`) and whether the engine refuses a transaction
-- (`refuses`), the build tools (`Machine`), the walk of the file system and pathspec (`Project`),
-- what the client opens (`Ports`), and the files of libraries (`Crates`, `Packages`, `Sources`,
-- `Jars`). The provider of Python is a field of `Libraries`. `IsResolver` says what `Path.resolve`
-- does.
--
-- Numbers are natural numbers, texts are lists of code points, and floats are a type parameter.
-- Fuel: `connect_with_retry` counts attempts, and `timeout + 1` of them are enough if the clock
-- moves with each; `batches` counts rounds, and one for each unit is enough; the upward search of a
-- directory has the five levels of the source; the walk of a library has a count of levels, and
-- the source's `max_depth` of 3 makes four of them.
--
-- Not modelled: the tables of argparse, `json.dumps` and logging; code_rag/discovery/dependency.py,
-- the provider of Python and java_discovery.py, which reformat what an interpreter or `javap`
-- prints; the numeric code of the local embedder, which runs packages;
-- the executor and the locks of the storage, and the lock of the client, under which the operations
-- of one client do not interleave; what closing a connection or the executor may raise; an
-- interruption inside of an operation, of which only the command line knows, with the state that it
-- leaves as a parameter. `max_concurrency` is passed on, and a sync runs one worker whatever it is.
-- Pool does not see the storage: the sync of a file is one event
-- there, and steps inside of it do not interleave. Storage/Sound/Reach has every method
-- that writes but the rewrite of a path, which breaks the invariant where a path holds a colon.
pub mod Prelude
pub mod Core
pub mod Parser
pub mod Intelligence
pub mod Storage
pub mod Paths
pub mod Index
pub mod Migration
pub mod Config
pub mod Sync
pub mod Discovery
pub mod Api
pub mod Setup
pub mod Entry
pub mod Tests
