-- ===== src/Ingest/Connected.antt =====
-- The transaction of one verdict, in src/mcm_engine/ingest/adjudicate.py, from a connection that saw
-- the file.
use mcm_engine.Base.{ℕ, ◌≡◌, refl, sym, ap, true, ◌||◌, Bool-cases, inl, inr, arith}
use mcm_engine.Rules.State.{Store}
use mcm_engine.Database.Connection.{
  Db, CommitReply, commit_done, commit_locked, commit_failed, begin_transaction, end_transaction,
  commit_now, rollback, reconnect,
}
use mcm_engine.Ingest.Verdict.{Detail, CommitReport}
use mcm_engine.Ingest.Batch.{raises, is_invalid, settle}

-- The connection outside of any transaction, with nothing that is not in the file.
abbrev pub connected : Store → Db Store
connected s = record { committed = s; working = s; tx_depth = 0 }

abbrev pub all_done : ℕ → CommitReply
all_done n = commit_done

pub settle-done :
    (detail : Detail) (s after : Store) (r : CommitReport)
    → ((raises detail || is_invalid detail) ≡ true → after ≡ s)
    → (settle commit_done detail after r (connected s)).1 ≡ connected after
unfolding settle end_transaction begin_transaction commit_now rollback
settle-done detail s after r kept = elim (Bool-cases (is_invalid detail)) [
  | inl i ↦ rw i (ap connected (sym (kept (ground (arith, i)))))
  | inr i ↦ elim (Bool-cases (raises detail)) [
    | inl f ↦ rw (i, f) (ap connected (sym (kept (ground (arith, f)))))
    | inr f ↦ rw (i, f) refl
  ]
]

pub settle-same :
    (reply : CommitReply) (detail : Detail) (s : Store) (r : CommitReport)
    → (settle reply detail s r (connected s)).1 ≡ connected s
unfolding settle end_transaction begin_transaction commit_now rollback reconnect
settle-same reply detail s r = elim (Bool-cases (is_invalid detail)) [
  | inl i ↦ rw i refl
  | inr i ↦ elim (Bool-cases (raises detail)) [
    | inl f ↦ rw (i, f) refl
    | inr f ↦
        rw (i, f)
          (elim reply as (λ reply. (commit_now reply (connected s)).0 ≡ connected s) [
            | commit_done ↦ refl
            | commit_locked ↦ refl
            | commit_failed ↦ refl
          ])
  ]
]
