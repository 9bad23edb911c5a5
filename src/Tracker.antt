-- ===== src/Tracker.antt =====
-- src/mcm_engine/tracker.py: the tracker of one session's tool calls, its nudges and its blocks, and
-- the facade that gives each client session a tracker of its own.
pub mod State
pub mod Calls
pub mod Nudges
pub mod Ignored
pub mod Triggers
pub mod Coverage
pub mod Scoped
pub mod Blocking
pub mod Escalation
mod Tests
