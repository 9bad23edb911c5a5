-- ===== src/Counters.antt =====
-- The counters of the entries: src/mcm_engine/adapters/sqlite/counters.py.
pub mod Increment
pub mod Mirrored
mod Tests
