-- ===== src/Database/Tests.antt =====
-- Runs over a connection whose contents are a number, and the theorems at them.
use mcm_engine.Base.{ℕ, ◌+◌, ◌≡◌, refl, is_some, or_else, if◌then◌else◌}
use mcm_engine.Database.Connection.{Db, done, commit_done, commit_failed, begin_transaction}
use mcm_engine.Database.Block.{Block, write, seq, transaction, attempt, raise, run}
use mcm_engine.Database.Atomic.{transaction_atomic}
use mcm_engine.Database.Plain.{spec, transaction_refines}

abbrev at_five : Db ℕ
at_five = record { committed = 5; working = 5; tx_depth = 0 }

abbrev bump : Block ℕ
bump = write (λ n. done (n + 1)) (λ n. done (n + 1))

transaction_atomic_example :
    ((run (transaction commit_done (seq bump raise)) at_five).0.tx_depth ≡ 0)
    × ((run (transaction commit_done (seq bump raise)) at_five).0.committed ≡ (
        if (run (transaction commit_done (seq bump raise)) at_five).1
        then (run (seq bump raise) (begin_transaction at_five)).0.working
        else at_five.committed))
transaction_atomic_example = transaction_atomic commit_done (seq bump raise) at_five refl

transaction_refines_example :
    ((run (transaction commit_done (seq bump (transaction commit_done bump))) at_five).1
      ≡ is_some (spec (seq bump (transaction commit_done bump)) 5))
    × ((run (transaction commit_done (seq bump (transaction commit_done bump))) at_five).0.committed
        ≡ or_else (spec (seq bump (transaction commit_done bump)) 5) 5)
    × ((run (transaction commit_done (seq bump (transaction commit_done bump))) at_five).0.working
        ≡ or_else (spec (seq bump (transaction commit_done bump)) 5) 5)
transaction_refines_example =
    transaction_refines (seq bump (transaction commit_done bump)) at_five (tt, tt) refl refl

-- A nested transaction that raises, with the exception caught, is not rolled back.
nested_failure_kept :
    (run
      (transaction commit_done (attempt (transaction commit_done (seq bump raise))))
      at_five).0.committed
    ≡ 6
unfolding run
nested_failure_kept = refl

-- A commit that fails leaves the writes pending, and the next commit brings them into the file.
failed_commit_kept :
    (run
      (seq (attempt (transaction commit_failed bump)) (transaction commit_done (write done done)))
      at_five).0.committed
    ≡ 6
unfolding run
failed_commit_kept = refl
