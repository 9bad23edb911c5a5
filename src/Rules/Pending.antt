-- ===== src/Rules/Pending.antt =====
-- Between an operation on one row and its mirror: what a change of the row, and an audit event, leave
-- of the invariant.
use mcm_engine.Base.{
  ℕ, String, Option, ◌≡◌, refl, ◌∙◌, nat_eq, string_eq, Equality, Option-cases, inl, inr, subst,
}
use mcm_engine.Base.Dict.{get, put, get-put}
use mcm_engine.Entries.Rows.{RuleRow, Entry}
use mcm_engine.Rules.State.{Store, update_row, log_event}
use mcm_engine.Rules.Sync.{RowAt, SyncedAt, IsSynced, IsPending}

-- Keeping the identity is all that the mirror asks of a change.
abbrev pub KeepsId : (RuleRow → RuleRow) → Type 0
KeepsId change = (row : RuleRow) → (change row).id ≡ row.id

module _ {ℓ} {Digest : Type ℓ} ⦃e : Equality Digest⦄ (entry_hash : Entry → Digest) where
  pub IsPending-IsSynced : (id : ℕ) (s : Store) → IsSynced entry_hash s → IsPending entry_hash id s
  unfolding SyncedAt
  IsPending-IsSynced id s h = record {
    row_here = (h.at_id id).0;
    entry_here = (h.at_id id).1;
    elsewhere = λ j _. h.at_id j;
  }

  pub IsPending-put :
      (id : ℕ) (row : RuleRow) (s : Store)
      → row.id ≡ id
      → IsSynced entry_hash s
      → IsPending entry_hash id (record s { rules = put s.rules id row })
  unfolding SyncedAt RowAt
  IsPending-put id row s p h = record {
    row_here = rw (get-put s.rules id id row, (nat_eq.same_iff id id).1 refl) p;
    entry_here = (h.at_id id).1;
    elsewhere = λ j c. rw (get-put s.rules id j row, c) (h.at_id j);
  }

  pub IsPending-update_row :
      (id : ℕ) (change : RuleRow → RuleRow) (s : Store)
      → KeepsId change
      → IsSynced entry_hash s
      → IsPending entry_hash id (update_row id change s)
  unfolding update_row SyncedAt RowAt
  IsPending-update_row id change s k h = elim (Option-cases (get s.rules id)) [
    | inl p ↦ rw (update_row, p) (IsPending-IsSynced id s h)
    | inr (row, p) ↦
        let here : row.id ≡ id = subst (RowAt id) p (h.at_id id).0 in
        rw (update_row, p) (IsPending-put id (change row) s (k row ∙ here) h)
  ]

  pub IsPending-log_event :
      (id : ℕ) (rule_id : ℕ) (event_type actor : String) (now : ℕ) (note : Option String)
      (s : Store)
      → IsPending entry_hash id s
      → IsPending entry_hash id (log_event rule_id event_type actor now note s)
  unfolding log_event
  IsPending-log_event id rule_id event_type actor now message s h = record {
    row_here = h.row_here;
    entry_here = h.entry_here;
    elsewhere = h.elsewhere;
  }
