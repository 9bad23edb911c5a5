-- ===== src/Watcher/Cascade.antt =====
-- `_cascade_upsert` and `_cascade_delete` of src/mcm_engine/files/watcher.py. A path is what `_rel_path`
-- gives for it; a file is what `_parse_rule_file` gives, `none` where that gives None.
use mcm_engine.Base.{
  ℕ, ◌+◌, String, Bool, false, not, ◌&&◌, Option, none, some, List, [], ◌∷◌, ◌==◌, string_eq,
  if◌then◌else◌, or_else, Equality,
}
use mcm_engine.Entries.Rows.{RuleRow, Entry}
use mcm_engine.Rules.State.{Store}
use mcm_engine.Rules.Store.{insert_rule, update_rule, soft_delete_rule, restore_rule}
use mcm_engine.Rules.Query.{find_rule_by_file_path}

pub record Parsed : Type 0 where
  pub title : String
  pub keywords : Option String
  pub description : Option String
  pub category : Option String
  pub content_hash : String

pub record State : Type 0 where
  pub store : Store
  -- the relations "references" from rule to rule, by source and target
  pub relations : List (ℕ × ℕ)
  pub cascade_count : ℕ

pub data Action : Type 0 where
  upserted : Action
  unchanged : Action

-- `parsed.get(key, column)`
unfoldable pub or_column : Option String → Option String → Option String
or_column none column = column
or_column (some text) column = some text

unfoldable pub row_of_file : String → Parsed → RuleRow
row_of_file path parsed = record {
  id = 0;
  title = parsed.title;
  keywords = or_else parsed.keywords "";
  file_path = some path;
  description = parsed.description;
  category = parsed.category;
  hit_count = 0;
  last_hit_at = none;
  reinforcement_count = 0;
  pinned = false;
  content_hash = some parsed.content_hash;
  archived = false;
  archived_at = none;
  created_at = none;
  updated_at = none;
  content = none;
  created_by = none;
  updated_by = none;
  correct_count = 0;
  incorrect_count = 0;
  valid_until = none;
  superseded_by = none;
  status = "active";
  importance = 0;
  scope = "conditional";
  kind = "fact";
  source_classification = none;
}

unfoldable pub file_fields : Parsed → RuleRow → List (String × Option String)
unfolding or_column
file_fields parsed existing =
    ("title", some parsed.title)
    ∷ ("keywords", some (or_else parsed.keywords existing.keywords))
    ∷ ("description", or_column parsed.description existing.description)
    ∷ ("category", or_column parsed.category existing.category)
    ∷ ("content_hash", some parsed.content_hash)
    ∷ []

-- `existing.content_hash == parsed["content_hash"] and not existing.archived`
unfoldable pub is_same : Parsed → RuleRow → Bool
is_same parsed row =
    (elim row.content_hash [ none ↦ false | some hash ↦ hash == parsed.content_hash ])
    && not row.archived

-- After a write: the new store, and one more cascade.
unfoldable pub cascaded : Store → State → Action × State
cascaded after s = (upserted, record s { store = after; cascade_count = s.cascade_count + 1 })

module _ {ℓ} {Digest : Type ℓ} ⦃e : Equality Digest⦄ (entry_hash : Entry → Digest) where
  -- `none` is an exception of the database.
  unfoldable pub update_file : ℕ → Parsed → RuleRow → State → Option (Action × State)
  unfolding file_fields cascaded
  update_file now parsed existing s =
      elim (update_rule entry_hash existing.id now (file_fields parsed existing) s.store) [
        | none ↦ none
        | some after ↦ some (
            cascaded
              (if existing.archived then restore_rule entry_hash existing.id now after else after)
              s)
      ]

  unfoldable pub insert_file : ℕ → String → Parsed → State → Option (Action × State)
  unfolding row_of_file cascaded
  insert_file now path parsed s =
      elim (insert_rule entry_hash now (row_of_file path parsed) s.store) [
        | none ↦ none
        | some (id, after) ↦ some (cascaded after s)
      ]

  -- The file at the path, `none` where there is none.
  unfoldable pub cascade_upsert :
      ℕ → String → Option (Option Parsed) → State → Option (Action × State)
  unfolding update_file insert_file is_same find_rule_by_file_path
  cascade_upsert now path none s = some (unchanged, s)
  cascade_upsert now path (some none) s = some (unchanged, s)
  cascade_upsert now path (some (some parsed)) s = elim (find_rule_by_file_path path s.store) [
    | none ↦ insert_file now path parsed s
    | some existing ↦
        if existing.status == "recalled"
        then some (unchanged, s)
        else if is_same parsed existing
        then some (unchanged, s)
        else update_file now parsed existing s
  ]

  unfoldable pub cascade_delete : ℕ → String → Option (Option Parsed) → State → Option State
  unfolding cascade_upsert find_rule_by_file_path
  cascade_delete now path (some file) s = elim (cascade_upsert now path (some file) s) [
    | none ↦ none
    | some (action, after) ↦ some after
  ]
  cascade_delete now path none s = some (elim (find_rule_by_file_path path s.store) [
    | none ↦ s
    | some existing ↦ if existing.archived then s else record s {
      store = soft_delete_rule entry_hash existing.id now s.store;
      cascade_count = s.cascade_count + 1;
    }
  ])
