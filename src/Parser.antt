-- ===== src/Parser.antt =====
-- code_rag/parsers/tree_sitter.py: from a syntax tree to knowledge units.
pub mod Tree
pub mod Comments
pub mod Distill
pub mod Languages
pub mod File
pub mod Unique
