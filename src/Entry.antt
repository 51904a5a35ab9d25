-- ===== src/Entry.antt =====
-- code_rag/entry: the commands.
pub mod Cli
