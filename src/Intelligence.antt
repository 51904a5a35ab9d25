-- ===== src/Intelligence.antt =====
-- code_rag/intelligence: embedders and the distiller.
pub mod Distiller
pub mod Embedder
pub mod Factory
