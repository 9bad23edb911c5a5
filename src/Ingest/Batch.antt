-- ===== src/Ingest/Batch.antt =====
-- The loop of `commit_verdicts` in src/mcm_engine/ingest/adjudicate.py, with a transaction of
-- src/mcm_engine/db.py for each verdict: the state is the connection over the store.
use mcm_engine.Base.{ℕ, suc, String, Bool, true, false, not, List, [], ◌∷◌, if◌then◌else◌, Equality}
use mcm_engine.Entries.Rows.{Entry}
use mcm_engine.Rules.State.{Store}
use mcm_engine.Database.Connection.{Db, CommitReply, begin_transaction, end_transaction}
use mcm_engine.Ingest.Verdict.{
  Verdict, Detail, invalid, rejected, duplicate, created, refined, reinforced, target_missing,
  insert_failed, commit_raised, CommitReport, empty_report, tally,
}
use mcm_engine.Ingest.Commit.{Source, commit_one}

-- The exceptions that the block of a verdict raises.
unfoldable pub raises : Detail → Bool
raises (target_missing _) = true
raises insert_failed = true
raises (invalid _) = false
raises rejected = false
raises (duplicate _) = false
raises (created _) = false
raises (refined _ _) = false
raises (reinforced _) = false
raises commit_raised = false

unfoldable pub is_invalid : Detail → Bool
is_invalid (invalid _) = true
is_invalid rejected = false
is_invalid (duplicate _) = false
is_invalid (created _) = false
is_invalid (refined _ _) = false
is_invalid (reinforced _) = false
is_invalid (target_missing _) = false
is_invalid insert_failed = false
is_invalid commit_raised = false

-- The transaction around a verdict whose block leaves `after`, and what the report gets. An invalid
-- verdict is counted before any transaction. The block has counted and noted what it did when the
-- commit raises, and the exception is counted and noted as well.
unfoldable pub settle :
    CommitReply → Detail → Store → CommitReport → Db Store → CommitReport × Db Store
unfolding tally raises is_invalid begin_transaction end_transaction
settle reply detail after report db =
    let noted = tally detail report in
    let (left, returns) =
      end_transaction (not (raises detail)) reply
        (record (begin_transaction db) { working = after }) in
    if is_invalid detail
    then (noted, db)
    else (if returns then noted else tally commit_raised noted, left)

module _ {ℓ} {Digest : Type ℓ} ⦃e : Equality Digest⦄ (entry_hash : Entry → Digest)
    (sha256 : String → String) where
  -- The verdicts in their order, each in its own transaction; `replies` are SQLite's answers to the
  -- commits.
  unfoldable pub commit_from :
      Source
      → ℕ
      → (ℕ → CommitReply)
      → List Verdict
      → CommitReport
      → Db Store
      → CommitReport × Db Store
  unfolding commit_one settle
  commit_from source now replies [] report db = (report, db)
  commit_from source now replies (v ∷ verdicts) report db =
      let (detail, after) = commit_one entry_hash sha256 source now v db.working in
      let (next_report, next) = settle (replies 0) detail after report db in
      commit_from source now (λ n. replies (suc n)) verdicts next_report next

  unfoldable pub commit_verdicts :
      Source → ℕ → (ℕ → CommitReply) → List Verdict → Db Store → CommitReport × Db Store
  unfolding commit_from
  commit_verdicts source now replies verdicts db =
      commit_from source now replies verdicts empty_report db
