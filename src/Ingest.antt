-- ===== src/Ingest.antt =====
-- src/mcm_engine/ingest/adjudicate.py: verdicts about rule candidates, and how they are committed to the
-- rule store.
pub mod Verdict
pub mod Commit
pub mod Batch
pub mod Connected
pub mod Idempotent
mod Tests
