-- ===== src/Storage.antt =====
-- code_rag/storage/duckdb_impl.py: the index in a DuckDB database.
pub mod Db
pub mod State
pub mod Bind
pub mod Units
pub mod Rewrite
pub mod Connection
pub mod Sound
pub mod View
