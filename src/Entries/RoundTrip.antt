-- ===== src/Entries/RoundTrip.antt =====
-- What the projection keeps of a row: everything, but for an empty text or an empty list of
-- references, which come back absent, and a kind, status, severity or scope that is empty, which
-- comes back as the default.
use mcm_engine.Base.{some, ◌≡◌, nat_eq, string_eq, or_text, ap, ◌∙◌}
use mcm_engine.Entries.Rows.{KnowledgeRow, NegativeRow, ErrorRow, RuleRow}
use mcm_engine.Entries.Facets.{lookup, as_text, as_links, as_moment, as_number, as_flag, get-keep}
use mcm_engine.Entries.Restore.{text_or, from_entry}
use mcm_engine.Entries.Project.{
  knowledge_fields, negative_fields, error_fields, Row, knowledge, negative, error, rule, to_entry,
}
use mcm_engine.Entries.Fields.{
  nonempty, nonempty_list, only, text_field, links_field, moment_field, or_empty, severity_field,
  rule_read, get-rule_facets, count_field, flag_field, scope_field,
}

unfoldable pub canonical : Row → Row
canonical (knowledge r) = knowledge (record r {
  kind = or_text r.kind "finding";
  status = or_text r.status "active";
  rationale = nonempty r.rationale;
  alternatives = nonempty r.alternatives;
  references = nonempty_list r.references;
})
canonical (negative r) = negative (record r {
  why_failed = nonempty r.why_failed;
  correct_approach = nonempty r.correct_approach;
  severity = or_text r.severity "normal";
})
canonical (error r) = error (record r {
  context = nonempty r.context;
  root_cause = nonempty r.root_cause;
  fix = nonempty r.fix;
})
canonical (rule r) = rule (record r {
  file_path = nonempty r.file_path;
  category = nonempty r.category;
  content_hash = nonempty r.content_hash;
  created_by = nonempty r.created_by;
  updated_by = nonempty r.updated_by;
  status = or_text r.status "active";
  scope = or_text r.scope "conditional";
  kind = or_text r.kind "fact";
})

knowledge_trip :
    (r : KnowledgeRow) → from_entry (to_entry (knowledge r)) ≡ some (canonical (knowledge r))
unfolding from_entry to_entry canonical lookup only
knowledge_trip r =
    let fields = knowledge_fields r in
    let rationale = ap as_text (get-keep fields "rationale") ∙ text_field r.rationale in
    let alternatives = ap as_text (get-keep fields "alternatives") ∙ text_field r.alternatives in
    let references = ap as_links (get-keep fields "references") ∙ links_field r.references in
    λ i. some (
      knowledge (record r {
        summary = or_empty r.summary i;
        kind = or_text r.kind "finding";
        status = or_text r.status "active";
        rationale = rationale i;
        alternatives = alternatives i;
        references = references i;
      }))

negative_trip :
    (r : NegativeRow) → from_entry (to_entry (negative r)) ≡ some (canonical (negative r))
unfolding from_entry to_entry canonical lookup only
negative_trip r =
    let fields = negative_fields r in
    let why = ap as_text (get-keep fields "why_failed") ∙ text_field r.why_failed in
    let correct = ap as_text (get-keep fields "correct_approach") ∙ text_field r.correct_approach in
    let severity =
      ap (λ o. text_or (as_text o) "normal") (get-keep fields "severity")
      ∙ severity_field r.severity in
    λ i. some (
      negative (record r {
        what_failed = or_empty r.what_failed i;
        why_failed = why i;
        correct_approach = correct i;
        severity = severity i;
      }))

error_trip : (r : ErrorRow) → from_entry (to_entry (error r)) ≡ some (canonical (error r))
unfolding from_entry to_entry canonical lookup only
error_trip r =
    let fields = error_fields r in
    let context = ap as_text (get-keep fields "context") ∙ text_field r.context in
    let root_cause = ap as_text (get-keep fields "root_cause") ∙ text_field r.root_cause in
    let fix = ap as_text (get-keep fields "fix") ∙ text_field r.fix in
    λ i. some (error (record r { context = context i; root_cause = root_cause i; fix = fix i }))

rule_trip : (r : RuleRow) → from_entry (to_entry (rule r)) ≡ some (canonical (rule r))
unfolding from_entry to_entry canonical lookup only rule_read
rule_trip r =
    let read = get-rule_facets r in
    let file_path = ap as_text (read "file_path") ∙ text_field r.file_path in
    let category = ap as_text (read "category") ∙ text_field r.category in
    let content_hash = ap as_text (read "content_hash") ∙ text_field r.content_hash in
    let created_by = ap as_text (read "created_by") ∙ text_field r.created_by in
    let updated_by = ap as_text (read "updated_by") ∙ text_field r.updated_by in
    let archived = ap as_flag (read "archived") ∙ flag_field r.archived in
    let archived_at = ap as_moment (read "archived_at") ∙ moment_field r.archived_at in
    let correct = ap as_number (read "correct_count") ∙ count_field r.correct_count in
    let incorrect = ap as_number (read "incorrect_count") ∙ count_field r.incorrect_count in
    let importance = ap as_number (read "importance") ∙ count_field r.importance in
    let scope = ap (λ o. text_or (as_text o) "conditional") (read "scope") ∙ scope_field r.scope in
    λ i. some (
      rule (record r {
        keywords = or_empty r.keywords i;
        file_path = file_path i;
        category = category i;
        content_hash = content_hash i;
        archived = archived i;
        archived_at = archived_at i;
        created_by = created_by i;
        updated_by = updated_by i;
        correct_count = correct i;
        incorrect_count = incorrect i;
        importance = importance i;
        scope = scope i;
        status = or_text r.status "active";
        kind = or_text r.kind "fact";
      }))

-- A row of any kind comes back from the entry it is projected to, in its canonical form.
pub from_entry-to_entry : (r : Row) → from_entry (to_entry r) ≡ some (canonical r)
from_entry-to_entry (knowledge r) = knowledge_trip r
from_entry-to_entry (negative r) = negative_trip r
from_entry-to_entry (error r) = error_trip r
from_entry-to_entry (rule r) = rule_trip r
