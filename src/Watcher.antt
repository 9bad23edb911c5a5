-- ===== src/Watcher.antt =====
-- The watcher of src/mcm_engine/files/watcher.py over the rule store, with the guard of
-- src/mcm_engine/destructive.py and the links of src/mcm_engine/rules_links.py.
pub mod Cascade
pub mod Links
pub mod Sync
pub mod Schedule
pub mod Settled
pub mod Upsert
pub mod Reaped
pub mod Swept
pub mod Guard
pub mod Archived
pub mod Loop
pub mod Again
pub mod Safe
pub mod Fired
mod Tests
