-- ===== src/Sync.antt =====
-- code_rag/services/sync.py and services/dependencies.py: which files are synced, the run of a sync
-- with the libraries of the build tools, and the result that is reported.
pub mod Files
pub mod Build
pub mod Run
