-- ===== src/Rules.antt =====
-- src/mcm_engine/adapters/sqlite/storage.py, its tables of rules: the operations on them, their
-- mirror into the unified entries, and the tools over them in src/mcm_engine/tools/rules.py.
pub mod State
pub mod Mirror
pub mod Store
pub mod Metadata
pub mod Sync
pub mod Commands
pub mod Columns
pub mod Pending
pub mod Preserve
pub mod Tools
pub mod Chains
pub mod Supersession
pub mod Linked
pub mod History
pub mod Reports
pub mod Listing
pub mod Query
pub mod Restore
mod Tests
