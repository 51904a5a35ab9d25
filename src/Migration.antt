-- ===== src/Migration.antt =====
-- code_rag/services/path_migration.py: absolute paths of an old index become project-relative.
pub mod Claim
pub mod Run
