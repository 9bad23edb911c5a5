-- ===== src/Database/Connection.antt =====
-- `KnowledgeDB` of src/mcm_engine/db.py: the state of its connection and its methods. The contents of
-- the database are of any type; what SQLite answers to a statement or to a commit is data of the call.
-- A method gives the next state, and `false` where it raises. The lock and the log are left out: a
-- method runs to its end before another thread's begins, which is what the lock is there for.
use mcm_engine.Base.{ℕ, ◌+◌, ◌-◌, Bool, true, false, ◌==◌, nat_eq, if◌then◌else◌}

module _ {ℓ} (S : Type ℓ) where
  pub record Db : Type ℓ where
    -- what is in the file
    pub committed : S
    -- what the connection sees, with its open implicit transaction
    pub working : S
    pub tx_depth : ℕ

  -- What a statement gives: the new contents, a readonly or locked error, or another error.
  pub data Reply : Type ℓ where
    done : S → Reply
    locked : Reply
    failed : Reply

pub data CommitReply : Type 0 where
  commit_done : CommitReply
  commit_locked : CommitReply
  commit_failed : CommitReply

module _ {ℓ} {S : Type ℓ} where
  -- A new connection sees the file.
  unfoldable pub reconnect : Db S → Db S
  reconnect db = record db { working = db.committed }

  -- One run of a statement, with no retry.
  unfoldable pub execute_once : (S → Reply S) → Db S → Db S × Bool
  execute_once statement db = elim (statement db.working) [
    | done s ↦ (record db { working = s }, true)
    | locked ↦ (db, false)
    | failed ↦ (db, false)
  ]

  -- The statement, as it answers at first and as it answers after a reconnect.
  unfoldable pub execute_write : (S → Reply S) → (S → Reply S) → Db S → Db S × Bool
  unfolding reconnect execute_once
  execute_write first again db = elim (first db.working) [
    | done s ↦ (record db { working = s }, true)
    | locked ↦ if db.tx_depth == 0 then execute_once again (reconnect db) else (db, false)
    | failed ↦ (db, false)
  ]

  -- `commit` outside of any transaction.
  unfoldable pub commit_now : CommitReply → Db S → Db S × Bool
  unfolding reconnect
  commit_now commit_done db = (record db { committed = db.working }, true)
  commit_now commit_locked db = (reconnect db, false)
  commit_now commit_failed db = (db, false)

  unfoldable pub commit : CommitReply → Db S → Db S × Bool
  unfolding commit_now
  commit reply db = if db.tx_depth == 0 then commit_now reply db else (db, true)

  unfoldable pub rollback : Db S → Db S
  rollback db = record db { working = db.committed }

  unfoldable pub begin_transaction : Db S → Db S
  begin_transaction db = record db { tx_depth = db.tx_depth + 1 }

  -- `finish` is the argument `commit`.
  unfoldable pub end_transaction : Bool → CommitReply → Db S → Db S × Bool
  unfolding commit_now rollback
  end_transaction finish reply db =
      let left = record db { tx_depth = db.tx_depth - 1 } in
      if db.tx_depth == 0
      then (db, true)
      else if left.tx_depth == 0
      then (if finish then commit_now reply left else (rollback left, true))
      else (left, true)
