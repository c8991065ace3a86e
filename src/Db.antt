-- ===== src/Db.antt =====
-- The SQLite stores: internal/db.
pub mod Projects
pub mod Rows
pub mod Revisions
pub mod Conflicts
mod Samples
