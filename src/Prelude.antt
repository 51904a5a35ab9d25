-- ===== src/Prelude.antt =====
-- The names that the other modules share: the libraries', passed on, and those of the children.
mod Base
mod Logic
mod Lists
mod Listed
mod Texts
pub mod Decimal
pub mod Strip
pub mod Dict
unfoldable pub use Base.*
unfoldable pub use Texts.*
pub use Logic.*
pub use Lists.*
pub use Listed.*
