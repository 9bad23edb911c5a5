-- ===== src/Ingest/Verdict.antt =====
-- `Verdict` and the report of src/mcm_engine/ingest/adjudicate.py. The reason and the confidence of a
-- verdict, which committing does not read, are left out.
use mcm_engine.Base.{
  ℕ, ◌+◌, String, Option, none, some, List, [], ◌∷◌, ◌==◌, string_eq, if◌then◌else◌, strip, is_some,
}

pub data Action : Type 0 where
  add : Action
  refine : Action
  reinforce : Action
  reject : Action

pub record Verdict : Type 0 where
  pub action : Action
  pub source_topic : String
  pub title : String
  pub keywords : String
  pub category : String
  pub content : String
  pub target_rule_id : Option ℕ

pub data Invalid : Type 0 where
  needs_title : Invalid
  needs_content : Invalid
  needs_target : Invalid

-- The first two tests of `validate`.
unfoldable pub validate_text : Verdict → Option Invalid
unfolding strip
validate_text v =
    if strip v.title == ""
    then some needs_title
    else if strip v.content == ""
    then some needs_content
    else none

unfoldable pub validate_target : Verdict → Option Invalid
validate_target v = if is_some v.target_rule_id then none else some needs_target

unfoldable pub validate : Verdict → Option Invalid
unfolding validate_text validate_target
validate v = elim v.action [
  | add ↦ validate_text v
  | refine ↦ elim (validate_text v) [ none ↦ validate_target v | some err ↦ some err ]
  | reinforce ↦ validate_target v
  | reject ↦ none
]

-- One element of `details`, and what it counts as.
pub data Detail : Type 0 where
  invalid : Invalid → Detail
  rejected : Detail
  duplicate : ℕ → Detail
  created : ℕ → Detail
  refined : ℕ → ℕ → Detail
  reinforced : ℕ → Detail
  target_missing : ℕ → Detail
  insert_failed : Detail
  -- the exception of the commit that ends the transaction of a verdict
  commit_raised : Detail

pub record CommitReport : Type 0 where
  pub created_count : ℕ
  pub superseded_count : ℕ
  pub reinforced_count : ℕ
  pub rejected_count : ℕ
  pub duplicate_count : ℕ
  pub error_count : ℕ
  -- the newest first
  pub details : List Detail

abbrev pub empty_report : CommitReport
empty_report = record {
  created_count = 0;
  superseded_count = 0;
  reinforced_count = 0;
  rejected_count = 0;
  duplicate_count = 0;
  error_count = 0;
  details = [];
}

unfoldable pub tally : Detail → CommitReport → CommitReport
tally detail r =
    let noted = record r { details = detail ∷ r.details } in
    elim detail [
      | invalid _ ↦ record noted { error_count = r.error_count + 1 }
      | rejected ↦ record noted { rejected_count = r.rejected_count + 1 }
      | duplicate _ ↦ record noted { duplicate_count = r.duplicate_count + 1 }
      | created _ ↦ record noted { created_count = r.created_count + 1 }
      | refined _ _ ↦ record noted {
        created_count = r.created_count + 1;
        superseded_count = r.superseded_count + 1;
      }
      | reinforced _ ↦ record noted { reinforced_count = r.reinforced_count + 1 }
      | target_missing _ ↦ record noted { error_count = r.error_count + 1 }
      | insert_failed ↦ record noted { error_count = r.error_count + 1 }
      | commit_raised ↦ record noted { error_count = r.error_count + 1 }
    ]
