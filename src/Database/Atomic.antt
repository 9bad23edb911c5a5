-- ===== src/Database/Atomic.antt =====
-- An outermost transaction of src/mcm_engine/db.py is all or nothing, whatever its block does.
use mcm_engine.Base.{
  ◌<◌, ◌≡◌, refl, Bool, true, false, if◌then◌else◌, arith, ◌∙◌, nat_eq, Bool-cases, inl, inr,
}
use mcm_engine.Database.Connection.{
  Db, Reply, CommitReply, commit_done, commit_locked, commit_failed, commit_now, execute_once,
  execute_write, commit, begin_transaction, end_transaction, rollback, reconnect,
}
use mcm_engine.Database.Block.{
  Block, pass, write, commit_write, seq, transaction, attempt, raise, run, leave,
}

module _ {ℓ} {S : Type ℓ} where
  -- Inside of a transaction the file is not written, and the depth comes back as it was.
  unfoldable pub Inside : Db S → Db S → Type ℓ
  Inside db after = (after.tx_depth ≡ db.tx_depth) × (after.committed ≡ db.committed)

  write-Inside :
      (first again : S → Reply S) (db : Db S)
      → 0 < db.tx_depth
      → Inside db (execute_write first again db).0
  unfolding execute_write Inside execute_once reconnect
  write-Inside first again db h = (ground arith, ground arith)

  leave-Inside :
      (reply : CommitReply) (db : Db S) (r : Db S × Bool)
      → 0 < db.tx_depth
      → Inside (begin_transaction db) r.0
      → Inside db (leave reply r).0
  unfolding leave Inside end_transaction begin_transaction rollback
  leave-Inside reply db (after, true) h (d, c) = (ground arith, ground arith)
  leave-Inside reply db (after, false) h (d, c) = (ground arith, ground arith)

  pub run-Inside : (b : Block S) (db : Db S) → 0 < db.tx_depth → Inside db (run b db).0
  unfolding run Inside commit begin_transaction
  run-Inside pass db h = (refl, refl)
  run-Inside (write first again) db h = write-Inside first again db h
  run-Inside (commit_write reply) db h = (ground arith, ground arith)
  run-Inside (seq a b) db h =
      let (d, c) = run-Inside a db h in
      let (d', c') = run-Inside b (run a db).0 (omega (arith, d)) in
      elim (Bool-cases (run a db).1) [
        | inl p ↦ rw (run, p) (d' ∙ d, c' ∙ c)
        | inr p ↦ rw (run, p) (d, c)
      ]
  run-Inside (transaction reply b) db h =
      leave-Inside reply db (run b (begin_transaction db)) h
        (run-Inside b (begin_transaction db) (omega arith))
  run-Inside (attempt b) db h = run-Inside b db h
  run-Inside raise db h = (refl, refl)

  leave_outermost :
      (reply : CommitReply) (db : Db S) (r : Db S × Bool)
      → db.tx_depth ≡ 0
      → Inside (begin_transaction db) r.0
      → ((leave reply r).0.tx_depth ≡ 0)
        × ((leave reply r).0.committed ≡ (if (leave reply r).1 then r.0.working else db.committed))
  unfolding leave Inside end_transaction begin_transaction rollback commit_now reconnect
  leave_outermost commit_done db (after, true) h (d, c) = (ground arith, ground arith)
  leave_outermost commit_locked db (after, true) h (d, c) = (ground arith, ground arith)
  leave_outermost commit_failed db (after, true) h (d, c) = (ground arith, ground arith)
  leave_outermost reply db (after, false) h (d, c) = (ground arith, ground arith)

  -- After an outermost transaction the depth is 0 again, and the file is as the block left the
  -- connection where the call returns, and as it was before where the call raises, whatever the block
  -- does and whatever SQLite answers.
  pub transaction_atomic :
      (reply : CommitReply) (b : Block S) (db : Db S)
      → db.tx_depth ≡ 0
      → ((run (transaction reply b) db).0.tx_depth ≡ 0)
        × ((run (transaction reply b) db).0.committed ≡ (
            if (run (transaction reply b) db).1
            then (run b (begin_transaction db)).0.working
            else db.committed))
  unfolding run
  transaction_atomic reply b db h =
      leave_outermost reply db (run b (begin_transaction db)) h
        (run-Inside b (begin_transaction db) (unfold begin_transaction in omega arith))
