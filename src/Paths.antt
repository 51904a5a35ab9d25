-- ===== src/Paths.antt =====
-- code_rag/paths.py and code_rag/core/utils.py: where files may lie and where the index lies.
pub mod Pure
pub mod Resolve
