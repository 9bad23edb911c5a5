-- ===== src/Rules/Preserve.antt =====
-- Every operation on rules keeps the entries in step with the rows.
use Prim.Native.String.{◌++◌}
use mcm_engine.Base.{
  ap, ℕ, String, Bool, true, false, Option, some, List, [], ◌∷◌, ◌≡◌, refl, ◌∙◌, nat_eq, string_eq,
  if◌then◌else◌, Equality, Option-cases, Bool-cases, inl, inr, subst, any, contains, not, or_text,
}
use mcm_engine.Base.Dict.{get, put, has}
use mcm_engine.Entries.Rows.{RuleRow, Entry}
use mcm_engine.Rules.State.{Store, Outcome, update_row, log_event}
use mcm_engine.Rules.Mirror.{mirror_entry, mirror_all}
use mcm_engine.Rules.Store.{
  rule_columns, inserted_row, insert_id, set_columns, write_columns, count_outcome, insert_rule,
  update_rule, soft_delete_rule, restore_rule, record_outcome, supersede_rule, unsupersede_rule,
}
use mcm_engine.Rules.Metadata.{
  Updates, apply_updates, metadata_note, is_empty, validated_metadata_updates, write_metadata,
  set_rule_metadata,
}
use mcm_engine.Rules.Sync.{RowAt, SyncedAt, IsSynced, IsPending, IsSynced-mirror_entry}
use mcm_engine.Rules.Commands.{
  Command, insert, update, set_metadata, soft_delete, restore, outcome, supersede, unsupersede, run,
}
use mcm_engine.Rules.Pending.{
  KeepsId, IsPending-IsSynced, IsPending-put, IsPending-update_row, IsPending-log_event,
}
use mcm_engine.Rules.Columns.{core, HasCore, HasCore-set_columns}

KeepsId-count_outcome : (count passed : Bool) → KeepsId (count_outcome count passed)
unfolding count_outcome
KeepsId-count_outcome false passed row = refl
KeepsId-count_outcome true true row = refl
KeepsId-count_outcome true false row = refl

module _ {ℓ} {Digest : Type ℓ} ⦃e : Equality Digest⦄ (entry_hash : Entry → Digest) where
  mirrored :
      (id : ℕ) (s : Store)
      → IsPending entry_hash id s
      → IsSynced entry_hash (mirror_entry entry_hash id s)
  mirrored id s h = IsSynced-mirror_entry entry_hash id s h

  remirrored :
      (id : ℕ) (s : Store)
      → IsSynced entry_hash s
      → IsSynced entry_hash (mirror_entry entry_hash id s)
  remirrored id s h = mirrored id s (IsPending-IsSynced entry_hash id s h)

  insert_rule-IsSynced :
      (iso : ℕ → String) (now : ℕ) (row : RuleRow) (s : Store)
      → IsSynced entry_hash s
      → IsSynced entry_hash (run entry_hash iso now (insert row) s)
  unfolding run insert_rule
  insert_rule-IsSynced iso now row s h =
      let id = insert_id row s in
      elim (Bool-cases (has s.rules id)) [
        | inl c ↦ rw (run, insert_rule, c) h
        | inr c ↦
            rw (run, insert_rule, c)
              (mirrored id (record s { rules = put s.rules id (inserted_row id now row) })
                (IsPending-put entry_hash id (inserted_row id now row) s
                  (unfold inserted_row in refl) h))
      ]

  update_rule-IsSynced :
      (iso : ℕ → String) (now id : ℕ) (fields : List (String × Option String)) (s : Store)
      → IsSynced entry_hash s
      → IsSynced entry_hash (run entry_hash iso now (update id fields) s)
  unfolding run update_rule write_columns HasCore SyncedAt RowAt
  update_rule-IsSynced iso now id [] s h = remirrored id s h
  update_rule-IsSynced iso now id (field ∷ fields) s h =
      let all = field ∷ fields in
      elim (Bool-cases (any (λ f. not (contains rule_columns f.0)) all)) [
        | inl c ↦ rw (run, update_rule, c) h
        | inr c ↦
            rw (run, update_rule, c)
              (elim (Option-cases (get s.rules id)) [
                | inl p ↦ rw (write_columns, p) (remirrored id s h)
                | inr (row, p) ↦
                    rw (write_columns, p)
                      (elim (Option-cases (set_columns all row)) [
                        | inl q ↦ rw (write_columns, q) h
                        | inr (changed, q) ↦
                            let same = subst (HasCore (core row)) q (HasCore-set_columns all row) in
                            let kept : changed.id ≡ row.id = ap (λ c. c.0) same in
                            let here : row.id ≡ id = subst (RowAt id) p (h.at_id id).0 in
                            rw (write_columns, q)
                              (mirrored id
                                (record s {
                                  rules = put s.rules id (record changed { updated_at = some now });
                                })
                                (IsPending-put entry_hash id
                                  (record changed { updated_at = some now }) s (kept ∙ here) h))
                      ])
              ])
      ]

  -- One row changed, and the change logged.
  logged :
      (id : ℕ) (change : RuleRow → RuleRow) (event_type actor : String) (now : ℕ)
      (note : Option String) (s : Store)
      → KeepsId change
      → IsSynced entry_hash s
      → IsSynced entry_hash (
          mirror_entry entry_hash id
            (log_event id event_type actor now note (update_row id change s)))
  logged id change event_type actor now note s k h =
      let written = update_row id change s in
      mirrored id (log_event id event_type actor now note written) (
        IsPending-log_event entry_hash id id event_type actor now note written
          (IsPending-update_row entry_hash id change s k h))

  set_metadata-IsSynced :
      (iso : ℕ → String) (now id : ℕ) (u : Updates) (valid_until : Option ℕ) (actor : String)
      (s : Store)
      → IsSynced entry_hash s
      → IsSynced entry_hash (set_rule_metadata entry_hash iso id u valid_until actor now s).1
  unfolding set_rule_metadata write_metadata
  set_metadata-IsSynced iso now id u valid_until actor s h =
      elim (Option-cases (validated_metadata_updates u)) [
        | inl p ↦ rw (set_rule_metadata, p) h
        | inr (v, p) ↦
            rw (set_rule_metadata, p)
              (elim (Option-cases (get s.rules id)) [
                | inl q ↦ rw (set_rule_metadata, q) (remirrored id s h)
                | inr (row, q) ↦
                    rw (set_rule_metadata, q)
                      (elim (Bool-cases (is_empty v valid_until)) [
                        | inl c ↦ rw (write_metadata, c) (remirrored id s h)
                        | inr c ↦
                            rw (write_metadata, c)
                              (logged id (apply_updates v valid_until actor now) "metadata" actor
                                now (some (metadata_note iso v valid_until)) s
                                (λ _. unfold apply_updates in refl) h)
                      ])
              ])
      ]

  outcome-IsSynced :
      (id : ℕ) (actor : String) (passed count : Bool) (now : ℕ) (s : Store)
      → IsSynced entry_hash s
      → IsSynced entry_hash (record_outcome entry_hash id actor passed count now s)
  unfolding record_outcome
  outcome-IsSynced id actor passed count now s h =
      let note =
        (if passed then "passed" else "failed")
        ++ (if count then "" else " (self-report, uncounted)") in
      let reported : Outcome = record {
        rule_id = id;
        actor = or_text actor "nobody";
        passed = passed;
      } in
      logged id (count_outcome count passed) "outcome" actor now (some note)
        (record s { rule_outcomes = reported ∷ s.rule_outcomes })
        (KeepsId-count_outcome count passed) (record { at_id = h.at_id })

  pub supersede_rule-IsSynced :
      (old_id new_id : ℕ) (actor : String) (now : ℕ) (s : Store)
      → IsSynced entry_hash s
      → IsSynced entry_hash (supersede_rule entry_hash old_id new_id actor now s)
  unfolding supersede_rule mirror_all
  supersede_rule-IsSynced old_id new_id actor now s h =
      remirrored new_id _ (logged old_id _ "superseded" actor now _ s (λ _. refl) h)

  pub unsupersede_rule-IsSynced :
      (id : ℕ) (actor : String) (now : ℕ) (s : Store)
      → IsSynced entry_hash s
      → IsSynced entry_hash (unsupersede_rule entry_hash id actor now s)
  unfolding unsupersede_rule
  unsupersede_rule-IsSynced id actor now s h =
      logged id _ "unsuperseded" actor now _ s (λ _. refl) h

  -- Every operation keeps the mirror, also where it raises.
  pub run-IsSynced :
      (iso : ℕ → String) (now : ℕ) (c : Command) (s : Store)
      → IsSynced entry_hash s
      → IsSynced entry_hash (run entry_hash iso now c s)
  unfolding run soft_delete_rule restore_rule supersede_rule unsupersede_rule mirror_all
  run-IsSynced iso now (insert row) s h = insert_rule-IsSynced iso now row s h
  run-IsSynced iso now (update id fields) s h = update_rule-IsSynced iso now id fields s h
  run-IsSynced iso now (set_metadata id u v actor) s h =
      set_metadata-IsSynced iso now id u v actor s h
  run-IsSynced iso now (soft_delete id) s h =
      mirrored id _ (IsPending-update_row entry_hash id _ s (λ _. refl) h)
  run-IsSynced iso now (restore id) s h =
      mirrored id _ (IsPending-update_row entry_hash id _ s (λ _. refl) h)
  run-IsSynced iso now (outcome id actor passed count) s h =
      outcome-IsSynced id actor passed count now s h
  run-IsSynced iso now (supersede old_id new_id actor) s h =
      supersede_rule-IsSynced old_id new_id actor now s h
  run-IsSynced iso now (unsupersede id actor) s h = unsupersede_rule-IsSynced id actor now s h
