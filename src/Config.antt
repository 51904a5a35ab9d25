-- ===== src/Config.antt =====
-- code_rag/services/config.py and `DistillerConfig` of code_rag/intelligence/distiller.py.
pub mod Settings
pub mod Update
