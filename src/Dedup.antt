-- ===== src/Dedup.antt =====
-- The clusters of src/mcm_engine/dedup.py: its union-find over the ids of the rules.
pub mod UnionFind
pub mod Roots
pub mod Spec
pub mod Merged
mod Tests
