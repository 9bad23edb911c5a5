-- ===== src/Import/Step.antt =====
-- One item of `_apply_import_batch` in src/mcm_engine/tools/rules.py, in update mode: it never fails, its
-- title then names a rule with its content, and no other title is touched.
use mcm_engine.Base.{
  ℕ, ◌+◌, ◌≡◌, refl, ap, ◌∙◌, String, true, false, none, some, ◌==◌, string_eq, nat_eq, Equality,
  map_option, arith, contains,
}
use mcm_engine.Base.Dict.{get, put}
use mcm_engine.Entries.Rows.{RuleRow, Entry}
use mcm_engine.Rules.State.{Store, max_id}
use mcm_engine.Rules.Mirror.{mirror_entry}
use mcm_engine.Rules.Store.{
  insert_rule, insert_id, inserted_row, update_rule, write_columns, set_columns, set_column,
}
use mcm_engine.Rules.Query.{
  first_row, has_title, find_rule_by_title, IsTable, IsTable-put, first_row-found, first_row-fresh,
  first_row-replaced, first_row-other, first_row-unseen, fresh,
}
use mcm_engine.Ingest.Commit.{take_text}
use mcm_engine.Import.Batch.{Item, text_or_column, row_of_item, update_fields}

-- The row as the update leaves it.
unfoldable pub rewritten : String → String → ℕ → Item → RuleRow → RuleRow
rewritten content_hash who now it row = record row {
  keywords = it.keywords;
  description = some (take_text 500 it.content);
  category = text_or_column it.category row.category;
  file_path = text_or_column it.file_path row.file_path;
  content = some it.content;
  content_hash = some content_hash;
  updated_by = some who;
  updated_at = some now;
}

module _ {ℓ} {Digest : Type ℓ} ⦃e : Equality Digest⦄ (entry_hash : Entry → Digest) where
  pub update_rule-rewritten :
      (id now : ℕ) (content_hash who : String) (it : Item) (row : RuleRow) (s : Store)
      → get s.rules id ≡ some row
      → update_rule entry_hash id now (update_fields content_hash who it row) s
        ≡ some (
            mirror_entry entry_hash id
              (record s { rules = put s.rules id (rewritten content_hash who now it row) }))
  unfolding update_rule update_fields contains write_columns set_columns set_column rewritten
  update_rule-rewritten id now content_hash who it row s p = rw (write_columns, p) refl

  pub insert_rule-fresh :
      (now : ℕ) (content_hash who : String) (it : Item) (s : Store)
      → insert_rule entry_hash now (row_of_item content_hash who it) s
        ≡ some (
          max_id s.rules + 1,
          mirror_entry entry_hash (max_id s.rules + 1) (record s {
            rules =
                put s.rules
                  (max_id s.rules + 1)
                  (inserted_row (max_id s.rules + 1) now (row_of_item content_hash who it));
          }),
        )
  unfolding insert_rule insert_id row_of_item
  insert_rule-fresh now content_hash who it s =
      rw (insert_rule, fresh s.rules (max_id s.rules + 1) (omega arith)) refl

-- What an item leaves: its title found with its content, and every other title as it was.
pub record Written (it : Item) (s t : Store) : Type 0 where
  pub table : IsTable t.rules
  pub found :
      map_option (λ (row : RuleRow). row.content) (find_rule_by_title it.title t)
      ≡ some (some it.content)
  pub others :
      (title : String)
      → (it.title == title) ≡ false
      → find_rule_by_title title t ≡ find_rule_by_title title s

pub Written-fresh :
    (it : Item) (s t : Store) (id : ℕ) (row : RuleRow)
    → IsTable s.rules
    → t.rules ≡ put s.rules id row
    → get s.rules id ≡ none
    → row.id ≡ id
    → row.title ≡ it.title
    → row.content ≡ some it.content
    → first_row (has_title it.title) s.rules ≡ none
    → Written it s t
unfolding find_rule_by_title
Written-fresh it s t id row h r g i n c f =
    let named : has_title it.title row ≡ true = (string_eq.same_iff row.title it.title).1 n in
    record {
      table = rw r (IsTable-put s.rules id row h i);
      found = rw (r, first_row-fresh (has_title it.title) s.rules id row g f, named) (ap some c);
      others = λ title o. rw (r, first_row-unseen (has_title title) s.rules id row g (rw n o)) refl;
    }

pub Written-old :
    (it : Item) (s t : Store) (id : ℕ) (old row : RuleRow)
    → IsTable s.rules
    → t.rules ≡ put s.rules id row
    → row.id ≡ old.id
    → row.title ≡ old.title
    → row.content ≡ some it.content
    → first_row (has_title it.title) s.rules ≡ some (id, old)
    → Written it s t
unfolding find_rule_by_title
Written-old it s t id old row h r i n c f =
    let (g, k, old_named) = first_row-found (has_title it.title) s.rules id old h f in
    let same : old.title ≡ it.title = (string_eq.same_iff old.title it.title).0 old_named in
    let named : has_title it.title row ≡ true =
      (string_eq.same_iff row.title it.title).1 (n ∙ same) in
    record {
      table = rw r (IsTable-put s.rules id row h (i ∙ k));
      found =
          rw (r, first_row-replaced (has_title it.title) s.rules id old row f named) (ap some c);
      others = λ title o.
          rw
            (r, first_row-other (has_title title) s.rules id old row g (rw same o) (rw (n, same) o))
            refl;
    }
