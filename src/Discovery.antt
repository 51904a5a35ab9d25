-- ===== src/Discovery.antt =====
-- code_rag/discovery: the provider of a language, and the dispatch to it.
pub mod Java
pub mod Manager
pub mod Walk
pub mod Report
pub mod Sources
pub mod Rust
pub mod Javascript
