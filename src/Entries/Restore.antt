-- ===== src/Entries/Restore.antt =====
-- The projections of src/mcm_engine/entries.py from the entry back to each kind of row.
use mcm_engine.Base.{
  String, Option, none, some, ◌==◌, nat_eq, string_eq, if◌then◌else◌, or_else, or_text,
}
use mcm_engine.Base.Dict.{get}
use mcm_engine.Entries.Rows.{KnowledgeRow, NegativeRow, ErrorRow, RuleRow, Entry}
use mcm_engine.Entries.Facets.{as_text, as_links, as_moment, as_number, as_flag}
use mcm_engine.Entries.Project.{Row, knowledge, negative, error, rule}

-- `o or d`, for an optional text
abbrev pub text_or : Option String → String → String
text_or o d = or_text (or_else o "") d

unfoldable pub entry_to_knowledge : Entry → KnowledgeRow
unfolding as_text as_links or_text
entry_to_knowledge e = record {
  id = e.id;
  topic = e.title;
  summary = text_or e.summary "";
  kind = text_or e.subkind "finding";
  detail = e.body;
  tags = e.tags;
  project = e.project;
  rationale = as_text (get e.facets "rationale");
  alternatives = as_text (get e.facets "alternatives");
  references = as_links (get e.facets "references");
  hit_count = e.hit_count;
  last_hit_at = e.last_hit_at;
  reinforcement_count = e.reinforcement_count;
  pinned = e.pinned;
  created_at = e.created_at;
  updated_at = e.updated_at;
  source_classification = e.source_classification;
  status = e.status;
  superseded_by = e.superseded_by;
  valid_until = e.valid_until;
}

unfoldable pub entry_to_negative : Entry → NegativeRow
unfolding as_text or_text
entry_to_negative e = record {
  id = e.id;
  category = e.title;
  what_failed = text_or e.summary "";
  why_failed = as_text (get e.facets "why_failed");
  correct_approach = as_text (get e.facets "correct_approach");
  severity = text_or (as_text (get e.facets "severity")) "normal";
  project = e.project;
  pinned = e.pinned;
  created_at = e.created_at;
  source_classification = e.source_classification;
}

unfoldable pub entry_to_error : Entry → ErrorRow
unfolding as_text
entry_to_error e = record {
  id = e.id;
  pattern_text = e.title;
  context = as_text (get e.facets "context");
  root_cause = as_text (get e.facets "root_cause");
  fix = as_text (get e.facets "fix");
  tags = e.tags;
  project = e.project;
  pinned = e.pinned;
  created_at = e.created_at;
  source_classification = e.source_classification;
}

unfoldable pub entry_to_rule : Entry → RuleRow
unfolding as_text as_moment as_number as_flag or_text
entry_to_rule e = record {
  id = e.id;
  title = e.title;
  keywords = text_or e.tags "";
  file_path = as_text (get e.facets "file_path");
  description = e.summary;
  category = as_text (get e.facets "category");
  hit_count = e.hit_count;
  last_hit_at = e.last_hit_at;
  reinforcement_count = e.reinforcement_count;
  pinned = e.pinned;
  content_hash = as_text (get e.facets "content_hash");
  archived = as_flag (get e.facets "archived");
  archived_at = as_moment (get e.facets "archived_at");
  created_at = e.created_at;
  updated_at = e.updated_at;
  content = e.body;
  created_by = as_text (get e.facets "created_by");
  updated_by = as_text (get e.facets "updated_by");
  correct_count = as_number (get e.facets "correct_count");
  incorrect_count = as_number (get e.facets "incorrect_count");
  valid_until = e.valid_until;
  superseded_by = e.superseded_by;
  status = e.status;
  importance = as_number (get e.facets "importance");
  scope = text_or (as_text (get e.facets "scope")) "conditional";
  kind = text_or e.subkind "fact";
  source_classification = e.source_classification;
}

-- A kind that no table names is a KeyError, here `none`.
unfoldable pub from_entry : Entry → Option Row
unfolding entry_to_knowledge entry_to_negative entry_to_error entry_to_rule
from_entry e =
    if e.kind == "knowledge"
    then some (knowledge (entry_to_knowledge e))
    else if e.kind == "negative"
    then some (negative (entry_to_negative e))
    else if e.kind == "error"
    then some (error (entry_to_error e))
    else if e.kind == "rule"
    then some (rule (entry_to_rule e))
    else none
