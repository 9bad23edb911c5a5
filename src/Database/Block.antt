-- ===== src/Database/Block.antt =====
-- Code over the connection of src/mcm_engine/db.py: writes, commits, the context manager `transaction`,
-- and a `try` that goes on after an exception, as the storage's callers have them.
use mcm_engine.Base.{Bool, true, false, if◌then◌else◌}
use mcm_engine.Database.Connection.{
  Db, Reply, CommitReply, execute_write, commit, begin_transaction, end_transaction,
}

module _ {ℓ} (S : Type ℓ) where
  pub data Block : Type ℓ where
    pass : Block
    write : (S → Reply S) → (S → Reply S) → Block
    commit_write : CommitReply → Block
    seq : Block → Block → Block
    -- with what SQLite answers to the commit at its end
    transaction : CommitReply → Block → Block
    -- `try: ... except Exception: pass`
    attempt : Block → Block
    raise : Block

module _ {ℓ} {S : Type ℓ} where
  -- The end of the context manager: commit after a clean exit, else roll back and raise.
  unfoldable pub leave : CommitReply → Db S × Bool → Db S × Bool
  unfolding end_transaction
  leave reply (db, true) = end_transaction true reply db
  leave reply (db, false) = ((end_transaction false reply db).0, false)

  unfoldable pub run : Block S → Db S → Db S × Bool
  unfolding execute_write commit begin_transaction leave
  run pass db = (db, true)
  run (write first again) db = execute_write first again db
  run (commit_write reply) db = commit reply db
  run (seq a b) db =
      let first = run a db in let second = run b first.0 in if first.1 then second else first
  run (transaction reply b) db = leave reply (run b (begin_transaction db))
  run (attempt b) db = ((run b db).0, true)
  run raise db = (db, false)
