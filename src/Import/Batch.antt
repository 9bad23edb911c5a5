-- ===== src/Import/Batch.antt =====
-- `_apply_import_batch` of src/mcm_engine/tools/rules.py over the rule store. SHA-256 of a text is a
-- parameter, as the digest of an entry is.
use mcm_engine.Base.{
  ℕ, String, Bool, true, false, not, Option, none, some, List, [], ◌∷◌, ◌==◌, string_eq, nat_eq,
  if◌then◌else◌, or_else, Equality, map,
}
use mcm_engine.Entries.Rows.{RuleRow, Entry}
use mcm_engine.Rules.State.{Store}
use mcm_engine.Rules.Store.{insert_rule, update_rule}
use mcm_engine.Rules.Query.{find_rule_by_title}
use mcm_engine.Ingest.Commit.{take_text, text_or_none, insert_rule_event, Source}

pub data OnDuplicate : Type 0 where
  skip : OnDuplicate
  update : OnDuplicate
  error : OnDuplicate

pub record Item : Type 0 where
  pub title : String
  pub keywords : String
  pub content : String
  pub category : String
  pub file_path : String

-- The status of one rule of the answer, with its id where it has one.
pub data Status : Type 0 where
  created : ℕ → Status
  updated : ℕ → Status
  skipped : ℕ → Status
  batch_aborted : Status
  already_exists : Status
  failed : Status

pub record Line : Type 0 where
  pub title : String
  pub status : Status

-- `text or row_text`, for a column that may be null
unfoldable pub text_or_column : String → Option String → Option String
text_or_column text column = if text == "" then column else some text

unfoldable pub row_of_item : String → String → Item → RuleRow
unfolding take_text text_or_none
row_of_item content_hash who it = record {
  id = 0;
  title = it.title;
  keywords = it.keywords;
  file_path = text_or_none it.file_path;
  description = some (take_text 500 it.content);
  category = text_or_none it.category;
  hit_count = 0;
  last_hit_at = none;
  reinforcement_count = 0;
  pinned = false;
  content_hash = some content_hash;
  archived = false;
  archived_at = none;
  created_at = none;
  updated_at = none;
  content = some it.content;
  created_by = some who;
  updated_by = some who;
  correct_count = 0;
  incorrect_count = 0;
  valid_until = none;
  superseded_by = none;
  status = "active";
  importance = 0;
  scope = "conditional";
  kind = "fact";
  source_classification = none;
}

-- The keyword arguments of the update.
unfoldable pub update_fields : String → String → Item → RuleRow → List (String × Option String)
unfolding text_or_column take_text
update_fields content_hash who it existing =
    ("keywords", some it.keywords)
    ∷ ("description", some (take_text 500 it.content))
    ∷ ("category", text_or_column it.category existing.category)
    ∷ ("file_path", text_or_column it.file_path existing.file_path)
    ∷ ("content", some it.content)
    ∷ ("content_hash", some content_hash)
    ∷ ("updated_by", some who)
    ∷ []

module _ {ℓ} {Digest : Type ℓ} ⦃e : Equality Digest⦄ (entry_hash : Entry → Digest)
    (sha256 : String → String) where
  unfoldable pub log_import : Source → ℕ → ℕ → String → Item → Store → Store
  unfolding insert_rule_event text_or_none
  log_import source now rule_id event_type it s =
      insert_rule_event rule_id event_type source.actor now (some (sha256 it.content))
        (text_or_none source.source_repo) (text_or_none source.source_ref)
        (text_or_none source.source_commit) s

  -- An item whose title is there. `none` is an exception of the database.
  unfoldable pub update_existing : Source → ℕ → Item → RuleRow → Store → Option (Line × Store)
  unfolding update_fields log_import
  update_existing source now it existing s =
      let material = not (it.content == or_else existing.content "") in
      elim (update_rule entry_hash existing.id now
        (update_fields (sha256 it.content) source.actor it existing) s) [
          | none ↦ none
          | some after ↦ some (
              if material
              then (
                record { title = it.title; status = updated existing.id },
                log_import source now existing.id "updated" it after,
              )
              else (record { title = it.title; status = skipped existing.id }, after))
        ]

  unfoldable pub insert_new : Source → ℕ → Item → Store → Option (Line × Store)
  unfolding row_of_item log_import
  insert_new source now it s =
      elim (insert_rule entry_hash now (row_of_item (sha256 it.content) source.actor it) s) [
        | none ↦ none
        | some (id, after) ↦ some (
          record { title = it.title; status = created id },
          log_import source now id "created" it after,
        )
      ]

  unfoldable pub apply_item : OnDuplicate → Source → ℕ → Item → Store → Option (Line × Store)
  unfolding update_existing insert_new find_rule_by_title
  apply_item on_duplicate source now it s = elim (find_rule_by_title it.title s) [
    | none ↦ insert_new source now it s
    | some existing ↦ elim on_duplicate [
      | skip ↦ some (record { title = it.title; status = skipped existing.id }, s)
      | update ↦ update_existing source now it existing s
      | error ↦ update_existing source now it existing s
    ]
  ]

  unfoldable pub apply_items :
      OnDuplicate → Source → ℕ → List Item → Store → Option (List Line × Store)
  unfolding apply_item
  apply_items on_duplicate source now [] s = some ([], s)
  apply_items on_duplicate source now (it ∷ items) s =
      elim (apply_item on_duplicate source now it s) [
        | none ↦ none
        | some (line, after) ↦ elim (apply_items on_duplicate source now items after) [
          | none ↦ none
          | some (lines, last) ↦ some (line ∷ lines, last)
        ]
      ]

-- `title in collisions`
unfoldable pub collides : Store → Item → Bool
unfolding find_rule_by_title
collides s it = elim (find_rule_by_title it.title s) [ none ↦ false | some existing ↦ true ]

unfoldable pub abort_lines : Store → List Item → List Line
unfolding collides
abort_lines s items =
    map
      (λ (it : Item). record {
        title = it.title;
        status = if collides s it then already_exists else batch_aborted;
      })
      items
