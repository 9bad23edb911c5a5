-- ===== src/Rules/Store.antt =====
-- The operations on rules of src/mcm_engine/adapters/sqlite/storage.py that change the store. Each one
-- runs in a transaction with its mirror: it gives the store after both, or `none` where the database
-- or the code raises, and then nothing is written.
use Prim.Native.String.{◌++◌}
use mcm_engine.Base.{
  ℕ, ◌+◌, String, Bool, true, false, Option, none, some, List, [], ◌∷◌, ◌==◌, nat_eq, string_eq,
  if◌then◌else◌, Equality, or_text, not, any, contains, show_nat, map_option,
}
use mcm_engine.Base.Dict.{get, put, has}
use mcm_engine.Entries.Rows.{RuleRow, Entry}
use mcm_engine.Rules.State.{Store, Outcome, max_id, update_row, log_event}
use mcm_engine.Rules.Mirror.{mirror_entry, mirror_all}

-- The columns that `insert_rule` writes; the others get the defaults of the table.
unfoldable pub inserted_row : ℕ → ℕ → RuleRow → RuleRow
inserted_row id now row = record {
  id = id;
  title = row.title;
  keywords = row.keywords;
  file_path = row.file_path;
  description = row.description;
  category = row.category;
  hit_count = 0;
  last_hit_at = none;
  reinforcement_count = 0;
  pinned = false;
  content_hash = row.content_hash;
  archived = false;
  archived_at = none;
  created_at = some now;
  updated_at = some now;
  content = row.content;
  created_by = row.created_by;
  updated_by = row.updated_by;
  correct_count = 0;
  incorrect_count = 0;
  valid_until = none;
  superseded_by = none;
  status = "active";
  importance = 0;
  scope = "conditional";
  kind = "fact";
  source_classification = row.source_classification;
}

-- The id that the row gets: its own, or the next one of the table.
unfoldable pub insert_id : RuleRow → Store → ℕ
unfolding max_id
insert_id row s = if row.id == 0 then max_id s.rules + 1 else row.id

abbrev pub rule_columns : List String
rule_columns =
    "title" ∷ "keywords" ∷ "file_path" ∷ "description" ∷ "category" ∷ "content_hash" ∷ "content"
    ∷ "created_by" ∷ "updated_by" ∷ []

-- One assignment of an UPDATE: `none` for a null in a column that refuses it.
unfoldable pub set_column : String → Option String → RuleRow → Option RuleRow
set_column k v row =
    if k == "title"
    then map_option (λ t. record row { title = t }) v
    else if k == "keywords"
    then map_option (λ t. record row { keywords = t }) v
    else some (
        if k == "file_path"
        then record row { file_path = v }
        else if k == "description"
        then record row { description = v }
        else if k == "category"
        then record row { category = v }
        else if k == "content_hash"
        then record row { content_hash = v }
        else if k == "content"
        then record row { content = v }
        else if k == "created_by"
        then record row { created_by = v }
        else if k == "updated_by"
        then record row { updated_by = v }
        else row)

unfoldable pub set_columns : List (String × Option String) → RuleRow → Option RuleRow
unfolding set_column
set_columns [] row = some row
set_columns ((k, v) ∷ fields) row = elim (set_column k v row) [
  | none ↦ none
  | some changed ↦ set_columns fields changed
]

-- The UPDATE of `update_rule`: no row, no error.
unfoldable pub write_columns : ℕ → ℕ → List (String × Option String) → Store → Option Store
unfolding set_columns
write_columns id now fields s = elim (get s.rules id) [
  | none ↦ some s
  | some row ↦ elim (set_columns fields row) [
    | none ↦ none
    | some changed ↦
        some (record s { rules = put s.rules id (record changed { updated_at = some now }) })
  ]
]

-- The passed or failed report, with its count when it counts.
unfoldable pub count_outcome : Bool → Bool → RuleRow → RuleRow
count_outcome count passed row =
    if not count
    then row
    else if passed
    then record row { correct_count = row.correct_count + 1 }
    else record row { incorrect_count = row.incorrect_count + 1 }

module _ {ℓ} {Digest : Type ℓ} ⦃e : Equality Digest⦄ (entry_hash : Entry → Digest) where
  -- With the id of the new rule. An id that is there already is an IntegrityError.
  unfoldable pub insert_rule : ℕ → RuleRow → Store → Option (ℕ × Store)
  unfolding inserted_row insert_id
  insert_rule now row s =
      let id = insert_id row s in
      if has s.rules id
      then none
      else some (
        id,
        mirror_entry entry_hash id (record s { rules = put s.rules id (inserted_row id now row) }),
      )

  unfoldable pub update_rule : ℕ → ℕ → List (String × Option String) → Store → Option Store
  unfolding write_columns
  update_rule id now [] s = some (mirror_entry entry_hash id s)
  update_rule id now (field ∷ fields) s =
      if any (λ f. not (contains rule_columns f.0)) (field ∷ fields)
      then none
      else map_option (mirror_entry entry_hash id) (write_columns id now (field ∷ fields) s)

  unfoldable pub soft_delete_rule : ℕ → ℕ → Store → Store
  unfolding update_row
  soft_delete_rule id now s = mirror_entry entry_hash id (
      update_row id
        (λ row. record row { archived = true; archived_at = some now; updated_at = some now }) s)

  unfoldable pub restore_rule : ℕ → ℕ → Store → Store
  unfolding update_row
  restore_rule id now s = mirror_entry entry_hash id (
      update_row id
        (λ row. record row { archived = false; archived_at = none; updated_at = some now }) s)

  unfoldable pub record_outcome : ℕ → String → Bool → Bool → ℕ → Store → Store
  unfolding update_row log_event count_outcome or_text
  record_outcome id actor passed count now s =
      let outcome : Outcome = record {
        rule_id = id;
        actor = or_text actor "nobody";
        passed = passed;
      } in
      let written = record s { rule_outcomes = outcome ∷ s.rule_outcomes } in
      let counted = update_row id (count_outcome count passed) written in
      let note =
        (if passed then "passed" else "failed")
        ++ (if count then "" else " (self-report, uncounted)") in
      mirror_entry entry_hash id (log_event id "outcome" actor now (some note) counted)

  unfoldable pub supersede_rule : ℕ → ℕ → String → ℕ → Store → Store
  unfolding update_row log_event mirror_all
  supersede_rule old_id new_id actor now s =
      let written =
        update_row old_id
          (λ row. record row {
            valid_until = some now;
            superseded_by = some new_id;
            status = "superseded";
            updated_at = some now;
          })
          s in
      mirror_all entry_hash (old_id ∷ new_id ∷ []) (
        log_event old_id "superseded" actor now (some ("superseded_by:" ++ show_nat new_id))
          written)

  unfoldable pub unsupersede_rule : ℕ → String → ℕ → Store → Store
  unfolding update_row log_event
  unsupersede_rule id actor now s =
      let written =
        update_row id
          (λ row. record row {
            status = "active";
            superseded_by = none;
            valid_until = none;
            updated_at = some now;
          })
          s in
      mirror_entry entry_hash id
        (log_event id "unsuperseded" actor now (some "supersede cleared") written)
