-- ===== src/Import/Respond.antt =====
-- `import_rules` of src/mcm_engine/tools/rules.py: the validation, the transaction and the answer. The
-- calls that it makes of the session tracker are modelled with the tracker. A rule of the request is an
-- object whose five keys are texts, `""` where one is absent.
use mcm_engine.Base.{
  ℕ, ◌+◌, String, Bool, false, Option, none, some, List, [], ◌∷◌, ◌==◌, string_eq, if◌then◌else◌,
  Equality, any, map, length, strip, contains,
}
use mcm_engine.Entries.Rows.{Entry}
use mcm_engine.Rules.State.{Store}
use mcm_engine.Ingest.Commit.{Source}
use mcm_engine.Import.Batch.{
  OnDuplicate, error, Item, Status, created, updated, skipped, batch_aborted, already_exists,
  failed, Line, apply_items, collides, abort_lines,
}

-- What a validation failure says.
pub data Rejection : Type 0 where
  missing_title : Rejection
  missing_keywords : String → Rejection
  missing_content : String → Rejection
  duplicate_title : String → Rejection

unfoldable pub normalized : Item → Item
unfolding strip
normalized r = record {
  title = strip r.title;
  keywords = strip r.keywords;
  content = r.content;
  category = strip r.category;
  file_path = strip r.file_path;
}

-- The tests of one rule, with the titles seen before it.
unfoldable pub reject : List String → Item → Option Rejection
reject seen it =
    if it.title == ""
    then some missing_title
    else if it.keywords == ""
    then some (missing_keywords it.title)
    else if it.content == ""
    then some (missing_content it.title)
    else if contains seen it.title
    then some (duplicate_title it.title)
    else none

pub data Validated : Type 0 where
  rejected : Rejection → Validated
  valid : List Item → Validated

unfoldable pub validate_items : List String → List Item → Validated
unfolding normalized reject
validate_items seen [] = valid []
validate_items seen (r ∷ rules) =
    let it = normalized r in
    let rest = validate_items (it.title ∷ seen) rules in
    elim (reject seen it) [
      | some rejection ↦ rejected rejection
      | none ↦ elim rest [
        | rejected rejection ↦ rejected rejection
        | valid items ↦ valid (it ∷ items)
      ]
    ]

pub record Tally : Type 0 where
  pub total : ℕ
  pub created_count : ℕ
  pub updated_count : ℕ
  pub skipped_count : ℕ
  pub error_count : ℕ

unfoldable pub tally_line : Status → Tally → Tally
tally_line (created _) t = record t { created_count = t.created_count + 1 }
tally_line (updated _) t = record t { updated_count = t.updated_count + 1 }
tally_line (skipped _) t = record t { skipped_count = t.skipped_count + 1 }
tally_line batch_aborted t = record t { skipped_count = t.skipped_count + 1 }
tally_line already_exists t = record t { error_count = t.error_count + 1 }
tally_line failed t = record t { error_count = t.error_count + 1 }

unfoldable pub count_lines : List Line → Tally → Tally
unfolding tally_line
count_lines [] t = t
count_lines (line ∷ lines) t = count_lines lines (tally_line line.status t)

-- `_tally`
unfoldable pub tally : List Line → Tally
unfolding count_lines
tally lines = count_lines lines (record {
  total = length lines;
  created_count = 0;
  updated_count = 0;
  skipped_count = 0;
  error_count = 0;
})

pub data Response : Type 0 where
  -- with the number of rules of the request
  batch_rejected : Rejection → ℕ → Response
  -- on_duplicate=error, with titles that exist
  aborted : Tally → List Line → Response
  rolled_back : Tally → List Line → Response
  imported : Tally → List Line → Response

-- The check of on_duplicate=error, before any write.
unfoldable pub stops : OnDuplicate → Store → List Item → Bool
unfolding collides
stops error s items = any (collides s) items
stops _ s items = false

module _ {ℓ} {Digest : Type ℓ} ⦃e : Equality Digest⦄ (entry_hash : Entry → Digest)
    (sha256 : String → String) where
  unfoldable pub import_valid : OnDuplicate → Source → ℕ → List Item → Store → Response × Store
  unfolding tally stops abort_lines
  import_valid on_duplicate source now items s =
      if stops on_duplicate s items
      then (let lines = abort_lines s items in (aborted (tally lines) lines, s))
      else elim (apply_items entry_hash sha256 on_duplicate source now items s) [
        | none ↦
            let lines = map (λ (it : Item). record { title = it.title; status = failed }) items in
            (rolled_back (tally lines) lines, s)
        | some (lines, after) ↦ (imported (tally lines) lines, after)
      ]

  unfoldable pub import_rules : OnDuplicate → Source → ℕ → List Item → Store → Response × Store
  unfolding import_valid validate_items
  import_rules on_duplicate source now rules s = elim (validate_items [] rules) [
    | rejected rejection ↦ (batch_rejected rejection (length rules), s)
    | valid items ↦ import_valid on_duplicate source now items s
  ]
