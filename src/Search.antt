-- ===== src/Search.antt =====
-- The search: src/mcm_engine/tools/search.py, and what src/mcm_engine/policies.py says of each kind.
pub mod Policy
pub mod Score
pub mod Kept
pub mod Agree
pub mod Block
pub mod Ranking
pub mod Shown
pub mod Paths
mod Tests
