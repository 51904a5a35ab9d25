-- ===== src/Core.antt =====
-- code_rag/core: the data model, the constants and the exceptions; and how methods are modelled.
mod Types
mod Methods
mod Preserve
unfoldable pub use Types.*
unfoldable pub use Methods.*
pub use Preserve.*
