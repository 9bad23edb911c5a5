-- ===== src/Entries/Project.antt =====
-- The projections of src/mcm_engine/entries.py, from each kind of row to the entry.
use mcm_engine.Base.{
  ℕ, String, true, false, not, Option, none, some, List, [], ◌∷◌, ◌==◌, nat_eq, string_eq,
  if◌then◌else◌, or_text,
}
use mcm_engine.Base.Dict.{Dict}
use mcm_engine.Entries.Rows.{
  KnowledgeRow, NegativeRow, ErrorRow, RuleRow, Entry, Facet, text, number, flag, links, moment,
}
use mcm_engine.Entries.Facets.{keep, put_if}

abbrev pub as_facet {ℓ} : {A : Type ℓ} → (A → Facet) → Option A → Option Facet
as_facet f none = none
as_facet f (some a) = some (f a)

unfoldable pub knowledge_fields : KnowledgeRow → List (String × Option Facet)
knowledge_fields r =
    ("rationale", as_facet text r.rationale)
    ∷ ("alternatives", as_facet text r.alternatives)
    ∷ ("references", as_facet links r.references)
    ∷ []

unfoldable pub knowledge_to_entry : KnowledgeRow → Entry
unfolding knowledge_fields or_text
knowledge_to_entry r = record {
  kind = "knowledge";
  id = r.id;
  title = r.topic;
  summary = some r.summary;
  body = r.detail;
  tags = r.tags;
  project = r.project;
  subkind = some r.kind;
  pinned = r.pinned;
  status = or_text r.status "active";
  superseded_by = r.superseded_by;
  valid_until = r.valid_until;
  hit_count = r.hit_count;
  last_hit_at = r.last_hit_at;
  reinforcement_count = r.reinforcement_count;
  created_at = r.created_at;
  updated_at = r.updated_at;
  source_classification = r.source_classification;
  facets = keep (knowledge_fields r);
}

unfoldable pub negative_fields : NegativeRow → List (String × Option Facet)
negative_fields r =
    ("why_failed", as_facet text r.why_failed)
    ∷ ("correct_approach", as_facet text r.correct_approach)
    ∷ ("severity", if r.severity == "normal" then none else some (text r.severity))
    ∷ []

-- The fields of an entry that a row without a life cycle leaves at their defaults.
unfoldable pub plain_entry : String → ℕ → String → Entry
plain_entry kind id title = record {
  kind = kind;
  id = id;
  title = title;
  summary = none;
  body = none;
  tags = none;
  project = none;
  subkind = none;
  pinned = false;
  status = "active";
  superseded_by = none;
  valid_until = none;
  hit_count = 0;
  last_hit_at = none;
  reinforcement_count = 0;
  created_at = none;
  updated_at = none;
  source_classification = none;
  facets = [];
}

unfoldable pub negative_to_entry : NegativeRow → Entry
unfolding negative_fields plain_entry
negative_to_entry r = record (plain_entry "negative" r.id r.category) {
  summary = some r.what_failed;
  project = r.project;
  pinned = r.pinned;
  created_at = r.created_at;
  source_classification = r.source_classification;
  facets = keep (negative_fields r);
}

unfoldable pub error_fields : ErrorRow → List (String × Option Facet)
error_fields r =
    ("context", as_facet text r.context)
    ∷ ("root_cause", as_facet text r.root_cause)
    ∷ ("fix", as_facet text r.fix)
    ∷ []

unfoldable pub error_to_entry : ErrorRow → Entry
unfolding error_fields plain_entry
error_to_entry r = record (plain_entry "error" r.id r.pattern_text) {
  tags = r.tags;
  project = r.project;
  pinned = r.pinned;
  created_at = r.created_at;
  source_classification = r.source_classification;
  facets = keep (error_fields r);
}

unfoldable pub rule_fields : RuleRow → List (String × Option Facet)
rule_fields r =
    ("file_path", as_facet text r.file_path)
    ∷ ("category", as_facet text r.category)
    ∷ ("content_hash", as_facet text r.content_hash)
    ∷ ("created_by", as_facet text r.created_by)
    ∷ ("updated_by", as_facet text r.updated_by)
    ∷ ("archived_at", as_facet moment r.archived_at)
    ∷ []

unfoldable pub rule_facets : RuleRow → Dict String Facet
unfolding rule_fields
rule_facets r =
    let facets = keep (rule_fields r) in
    let facets = put_if r.archived "archived" (flag true) facets in
    let facets =
      put_if (not (r.correct_count == 0)) "correct_count" (number r.correct_count) facets in
    let facets =
      put_if (not (r.incorrect_count == 0)) "incorrect_count" (number r.incorrect_count) facets in
    let facets = put_if (not (r.importance == 0)) "importance" (number r.importance) facets in
    put_if (not (r.scope == "conditional")) "scope" (text r.scope) facets

unfoldable pub rule_to_entry : RuleRow → Entry
unfolding rule_facets or_text
rule_to_entry r = record {
  kind = "rule";
  id = r.id;
  title = r.title;
  summary = r.description;
  body = r.content;
  tags = some r.keywords;
  project = none;
  subkind = some r.kind;
  pinned = r.pinned;
  status = or_text r.status "active";
  superseded_by = r.superseded_by;
  valid_until = r.valid_until;
  hit_count = r.hit_count;
  last_hit_at = r.last_hit_at;
  reinforcement_count = r.reinforcement_count;
  created_at = r.created_at;
  updated_at = r.updated_at;
  source_classification = r.source_classification;
  facets = rule_facets r;
}

-- A row of any kind, and the dispatch table `_TO_ENTRY`.
pub data Row : Type 0 where
  knowledge : KnowledgeRow → Row
  negative : NegativeRow → Row
  error : ErrorRow → Row
  rule : RuleRow → Row

unfoldable pub to_entry : Row → Entry
unfolding knowledge_to_entry negative_to_entry error_to_entry rule_to_entry
to_entry (knowledge r) = knowledge_to_entry r
to_entry (negative r) = negative_to_entry r
to_entry (error r) = error_to_entry r
to_entry (rule r) = rule_to_entry r
