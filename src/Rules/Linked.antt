-- ===== src/Rules/Linked.antt =====
-- The operations of src/mcm_engine/adapters/sqlite/storage.py other than supersession leave every
-- chain of superseded rules with its end.
use mcm_engine.Base.{
  ◌==◌, nat_eq, none, map_option, ◌∙◌, sym, ap, ℕ, String, Bool, true, false, Option, some, List,
  [], ◌∷◌, ◌≡◌, refl, string_eq, if◌then◌else◌, Equality, Option-cases, Bool-cases, inl, inr, subst,
  any, contains, not, or_text,
}
use mcm_engine.Base.Dict.{get-put, get, put, has}
use mcm_engine.Entries.Rows.{RuleRow, Entry}
use mcm_engine.Rules.State.{Store, Outcome, update_row, log_event}
use mcm_engine.Rules.Mirror.{mirror_entry}
use mcm_engine.Rules.Store.{
  rule_columns, inserted_row, insert_id, set_columns, write_columns, count_outcome, insert_rule,
  update_rule, record_outcome,
}
use mcm_engine.Rules.Metadata.{
  Updates, apply_updates, metadata_note, is_empty, validated_metadata_updates, write_metadata,
  set_rule_metadata,
}
use mcm_engine.Rules.Commands.{insert, update, run}
use mcm_engine.Rules.Columns.{core, HasCore, HasCore-set_columns}
use mcm_engine.Rules.Chains.{
  state_of, row_state, live, IsLinked, IsLinked-at, KeepsState, state_of-kept, IsLinked-same,
}
use mcm_engine.Rules.Supersession.{state_of-mirror_entry, state_of-logged}

KeepsState-count_outcome : (count passed : Bool) → KeepsState (count_outcome count passed)
unfolding count_outcome
KeepsState-count_outcome false passed row = (refl, refl)
KeepsState-count_outcome true true row = (refl, refl)
KeepsState-count_outcome true false row = (refl, refl)

state_of-put :
    (id j : ℕ) (row : RuleRow) (s : Store)
    → state_of (record s { rules = put s.rules id row }) j
      ≡ (if id == j then some (row_state row) else state_of s j)
unfolding state_of
state_of-put id j row s =
    rw (get-put s.rules id j row)
      (elim (Bool-cases (id == j)) [ inl c ↦ rw c refl | inr c ↦ rw c refl ])

module _ {ℓ} {Digest : Type ℓ} ⦃e : Equality Digest⦄ (entry_hash : Entry → Digest)
    (iso : ℕ → String) where
  pub insert-IsLinked :
      (now : ℕ) (row : RuleRow) (s : Store)
      → IsLinked s
      → IsLinked (run entry_hash iso now (insert row) s)
  unfolding run insert_rule
  insert-IsLinked now row s h =
      let id = insert_id row s in
      let added = inserted_row id now row in
      let t = record s { rules = put s.rules id added } in
      elim (Bool-cases (has s.rules id)) [
        | inl c ↦ rw (run, insert_rule, c) h
        | inr c ↦
            let after =
              λ (j : ℕ). state_of-mirror_entry entry_hash id j t ∙ state_of-put id j added s in
            let fresh : state_of (mirror_entry entry_hash id t) id ≡ some (false, none) =
              after id ∙ (rw ((nat_eq.same_iff id id).1 refl) (unfold inserted_row in refl)) in
            rw (run, insert_rule, c)
              (IsLinked-at s (mirror_entry entry_hash id t) id (live id none fresh)
                (λ j other. after j ∙ rw other refl) h)
      ]

  rewritten :
      (id now : ℕ) (row changed : RuleRow) (s : Store)
      → get s.rules id ≡ some row
      → core changed ≡ core row
      → IsLinked s
      → IsLinked (
          mirror_entry entry_hash id
            (record s { rules = put s.rules id (record changed { updated_at = some now }) }))
  rewritten id now row changed s p same h =
      let t : Store = record s {
        rules = put s.rules id (record changed { updated_at = some now });
      } in
      let before : state_of s id ≡ some (row_state row) =
        unfold state_of in ap (map_option row_state) p in
      let equal : row_state changed ≡ row_state row =
        ap {B = Bool × Option ℕ} (λ c. (c.1 == "superseded", c.2)) same in
      IsLinked-same s (mirror_entry entry_hash id t)
        (λ j.
          state_of-mirror_entry entry_hash id j t
          ∙ state_of-put id j _ s
          ∙ elim (Bool-cases (id == j)) [
            | inl c ↦ rw (c, sym ((nat_eq.same_iff id j).0 c)) (ap some equal ∙ sym before)
            | inr c ↦ rw c refl
          ])
        h

  -- An operation whose change of the row keeps its state.
  pub kept :
      (id : ℕ) (change : RuleRow → RuleRow) (s : Store)
      → KeepsState change
      → IsLinked s
      → IsLinked (mirror_entry entry_hash id (update_row id change s))
  kept id change s k h =
      IsLinked-same s (mirror_entry entry_hash id (update_row id change s))
        (λ j. state_of-mirror_entry entry_hash id j _ ∙ state_of-kept id j change s k) h

  logged_kept :
      (id now : ℕ) (change : RuleRow → RuleRow) (event_type actor : String)
      (message : Option String) (s : Store)
      → KeepsState change
      → IsLinked s
      → IsLinked (
          mirror_entry entry_hash id
            (log_event id event_type actor now message (update_row id change s)))
  logged_kept id now change event_type actor message s k h =
      IsLinked-same s _
        (λ j.
          state_of-logged entry_hash id j now change event_type actor message s
          ∙ state_of-kept id j change s k)
        h

  untouched : (id : ℕ) (s : Store) → IsLinked s → IsLinked (mirror_entry entry_hash id s)
  untouched id s h = IsLinked-same s _ (λ j. state_of-mirror_entry entry_hash id j s) h

  pub update-IsLinked :
      (now id : ℕ) (fields : List (String × Option String)) (s : Store)
      → IsLinked s
      → IsLinked (run entry_hash iso now (update id fields) s)
  unfolding run update_rule write_columns HasCore
  update-IsLinked now id [] s h = untouched id s h
  update-IsLinked now id (field ∷ fields) s h =
      let all = field ∷ fields in
      elim (Bool-cases (any (λ f. not (contains rule_columns f.0)) all)) [
        | inl c ↦ rw (run, update_rule, c) h
        | inr c ↦
            rw (run, update_rule, c)
              (elim (Option-cases (get s.rules id)) [
                | inl p ↦ rw (write_columns, p) (untouched id s h)
                | inr (row, p) ↦
                    rw (write_columns, p)
                      (elim (Option-cases (set_columns all row)) [
                        | inl q ↦ rw (write_columns, q) h
                        | inr (changed, q) ↦
                            let same = subst (HasCore (core row)) q (HasCore-set_columns all row) in
                            rw (write_columns, q) (rewritten id now row changed s p same h)
                      ])
              ])
      ]

  pub metadata-IsLinked :
      (now id : ℕ) (u : Updates) (valid_until : Option ℕ) (actor : String) (s : Store)
      → IsLinked s
      → IsLinked (set_rule_metadata entry_hash iso id u valid_until actor now s).1
  unfolding set_rule_metadata write_metadata
  metadata-IsLinked now id u valid_until actor s h =
      elim (Option-cases (validated_metadata_updates u)) [
        | inl p ↦ rw (set_rule_metadata, p) h
        | inr (v, p) ↦
            rw (set_rule_metadata, p)
              (elim (Option-cases (get s.rules id)) [
                | inl q ↦ rw (set_rule_metadata, q) (untouched id s h)
                | inr (row, q) ↦
                    rw (set_rule_metadata, q)
                      (elim (Bool-cases (is_empty v valid_until)) [
                        | inl c ↦ rw (write_metadata, c) (untouched id s h)
                        | inr c ↦
                            rw (write_metadata, c)
                              (logged_kept id now (apply_updates v valid_until actor now) "metadata"
                                actor (some (metadata_note iso v valid_until)) s
                                (λ _. unfold apply_updates in (refl, refl)) h)
                      ])
              ])
      ]

  pub outcome-IsLinked :
      (id : ℕ) (actor : String) (passed count : Bool) (now : ℕ) (s : Store)
      → IsLinked s
      → IsLinked (record_outcome entry_hash id actor passed count now s)
  unfolding record_outcome
  outcome-IsLinked id actor passed count now s h =
      let reported : Outcome = record {
        rule_id = id;
        actor = or_text actor "nobody";
        passed = passed;
      } in
      let written : Store = record s { rule_outcomes = reported ∷ s.rule_outcomes } in
      logged_kept id now (count_outcome count passed) "outcome" actor _ written
        (KeepsState-count_outcome count passed)
        (IsLinked-same s written (λ j. unfold state_of in refl) h)
