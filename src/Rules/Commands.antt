-- ===== src/Rules/Commands.antt =====
-- The operations on rules of src/mcm_engine/adapters/sqlite/storage.py as commands, and runs
-- of them.
use mcm_engine.Base.{ℕ, String, Bool, Option, none, some, List, nat_eq, string_eq, Equality}
use mcm_engine.Entries.Rows.{RuleRow, Entry}
use mcm_engine.Rules.State.{Store}
use mcm_engine.Rules.Store.{
  insert_rule, update_rule, soft_delete_rule, restore_rule, record_outcome, supersede_rule,
  unsupersede_rule,
}
use mcm_engine.Rules.Metadata.{Updates, set_rule_metadata}

pub data Command : Type 0 where
  insert : RuleRow → Command
  update : ℕ → List (String × Option String) → Command
  set_metadata : ℕ → Updates → Option ℕ → String → Command
  soft_delete : ℕ → Command
  restore : ℕ → Command
  outcome : ℕ → String → Bool → Bool → Command
  supersede : ℕ → ℕ → String → Command
  unsupersede : ℕ → String → Command

module _ {ℓ} {Digest : Type ℓ} ⦃e : Equality Digest⦄ (entry_hash : Entry → Digest)
    (iso : ℕ → String) where
  -- A command that raises leaves the store as it was.
  unfoldable pub run : ℕ → Command → Store → Store
  run now (insert row) s = elim (insert_rule entry_hash now row s) [
    | none ↦ s
    | some (id, after) ↦ after
  ]
  run now (update id fields) s = elim (update_rule entry_hash id now fields s) [
    | none ↦ s
    | some after ↦ after
  ]
  run now (set_metadata id u valid_until actor) s =
      (set_rule_metadata entry_hash iso id u valid_until actor now s).1
  run now (soft_delete id) s = soft_delete_rule entry_hash id now s
  run now (restore id) s = restore_rule entry_hash id now s
  run now (outcome id actor passed count) s = record_outcome entry_hash id actor passed count now s
  run now (supersede old_id new_id actor) s = supersede_rule entry_hash old_id new_id actor now s
  run now (unsupersede id actor) s = unsupersede_rule entry_hash id actor now s
