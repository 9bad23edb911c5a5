-- ===== src/Import.antt =====
-- `import_rules` of src/mcm_engine/tools/rules.py: a batch of rules in one call, and the rule that its
-- titles name afterwards.
pub mod Batch
pub mod Respond
pub mod Step
pub mod Found
mod Tests
