-- ===== src/Entries.antt =====
-- src/mcm_engine/entries.py, with the row types of src/mcm_engine/backends/__init__.py: the projection
-- between the four legacy row types and the unified entry.
pub mod Rows
pub mod Facets
pub mod Project
pub mod Restore
pub mod Fields
pub mod RoundTrip
mod Tests
