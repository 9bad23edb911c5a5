-- ===== src/Relations.antt =====
-- The relations between entries: src/mcm_engine/tools/relations.py and the operations on the table
-- `relations` of src/mcm_engine/adapters/sqlite/storage.py.
pub mod Table
pub mod Tools
pub mod Trace
pub mod Step
pub mod Visit
pub mod Scan
pub mod Walked
pub mod Reached
pub mod Undo
mod Tests
