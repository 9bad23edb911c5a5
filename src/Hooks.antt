-- ===== src/Hooks.antt =====
-- src/mcm_engine/hooks: the look-first bookkeeping of the PreToolUse hook, which runs in a process of
-- its own and keeps its state in a file.
pub mod State
pub mod Classify
pub mod Decide
pub mod Coverage
pub mod Fixation
mod Tests
