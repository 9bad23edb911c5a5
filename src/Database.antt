-- ===== src/Database.antt =====
-- src/mcm_engine/db.py: the writes, commits and nested transactions of the one SQLite connection.
pub mod Connection
pub mod Block
pub mod Atomic
pub mod Plain
mod Tests
