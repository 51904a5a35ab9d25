-- ===== src/Parser/Unique.antt =====
-- No two units of one file share an id, if the names hold no `.` and no `#`.
mod Labels
mod Scopes
pub mod Ids
