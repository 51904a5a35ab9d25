-- ===== src/Index.antt =====
-- code_rag/services/indexing.py: one file or a project into an open storage.
pub mod Units
pub mod File
pub mod Project
pub mod Pool
