-- ===== src/Search/Agree.antt =====
-- The two read paths of src/mcm_engine/tools/search.py agree.
use mcm_engine.Base.{
  ℕ, Bool, true, false, not, ◌&&◌, ◌||◌, Option, none, some, List, [], ◌∷◌, ◌++◌, ◌==◌, ◌≡◌, refl,
  ap, ◌∙◌, string_eq, nat_eq, if◌then◌else◌, or_text, min,
}
use mcm_engine.Entries.Rows.{KnowledgeRow, NegativeRow, ErrorRow, RuleRow}
use mcm_engine.Entries.Facets.{lookup, as_text, as_links, as_number, as_flag, get-keep}
use mcm_engine.Entries.Restore.{text_or}
use mcm_engine.Entries.Project.{
  knowledge_fields, negative_fields, error_fields, Row, knowledge, negative, error, rule, to_entry,
}
use mcm_engine.Entries.Fields.{
  only, text_field, links_field, or_empty, rule_read, get-rule_facets, count_field, flag_field,
  scope_field,
}
use mcm_engine.Rules.Metadata.{importance_max}
use mcm_engine.Search.Policy.{Piece, plain, number, upper, when_text, when_refs, line, capped_line}
use mcm_engine.Search.Score.{
  RankTerms, SearchHit, Sources, SearchCall, composite, pinned_only, compose_rank, is_expired,
  full_tags, pinned_tag, is_elsewhere, graded, scope_term, Scored, score_row, score_entry,
}
use mcm_engine.Search.Kept.{
  field_text, when_refs-nonempty_list, graded-nonempty, status_test, scope_lem, elsewhere_none,
}

module _ (src : Sources) (req : SearchCall) (relevance : ℕ) (hit : SearchHit) where
  knowledge_agrees :
      (r : KnowledgeRow)
      → score_entry src req relevance hit (to_entry (knowledge r))
        ≡ score_row src req relevance hit (knowledge r)
  unfolding score_entry score_row to_entry lookup only
  knowledge_agrees r =
      let e = to_entry (knowledge r) in
      let refs =
        ap when_refs
          (ap as_links (get-keep (knowledge_fields r) "references") ∙ links_field r.references)
        ∙ when_refs-nonempty_list r.references in
      let expired = is_expired src.now r.valid_until in
      λ i.
        if status_test r.status "superseded" refl refl i && not req.include_archived
        then none
        else if is_elsewhere r.project req.project
        then none
        else some (
          composite
              (compose_rank relevance (src.snapshot "knowledge" hit.entity_id) r.created_at (0, 0)
                (none, none))
              expired,
          (plain "[KNOWLEDGE/"
                ∷ upper (or_text r.kind "finding")
                ∷ plain " #"
                ∷ number r.id
                ∷ plain "]"
                ∷ [])
              ++ full_tags src.now r.created_at r.last_hit_at expired hit.is_pinned
              ++ (plain " " ∷ plain r.topic ∷ plain ": " ∷ plain (or_empty r.summary i) ∷ [])
              ++ (if req.full
                  then when_text r.detail (line "\n  Detail: ")
                    ++ when_text r.tags (line "\n  Tags: ")
                    ++ refs i
                  else when_text r.tags (line "\n  Tags: ")),
        )

  negative_agrees :
      (r : NegativeRow)
      → score_entry src req relevance hit (to_entry (negative r))
        ≡ score_row src req relevance hit (negative r)
  unfolding score_entry score_row to_entry lookup only
  negative_agrees r =
      let fields = negative_fields r in
      let why =
        field_text r.why_failed (capped_line "\n  Why: " "negative" r.id)
          (ap as_text (get-keep fields "why_failed") ∙ text_field r.why_failed) in
      let correct =
        field_text r.correct_approach (capped_line "\n  Fix: " "negative" r.id)
          (ap as_text (get-keep fields "correct_approach") ∙ text_field r.correct_approach) in
      λ i.
        if is_elsewhere r.project req.project
        then none
        else some (
          pinned_only relevance hit.is_pinned,
          (plain "[NEGATIVE #" ∷ number r.id ∷ plain "]" ∷ [])
              ++ pinned_tag hit.is_pinned
              ++ (plain " " ∷ plain r.category ∷ plain ": " ∷ plain (or_empty r.what_failed i) ∷ [])
              ++ why i
              ++ correct i,
        )

  error_agrees :
      (r : ErrorRow)
      → score_entry src req relevance hit (to_entry (error r))
        ≡ score_row src req relevance hit (error r)
  unfolding score_entry score_row to_entry lookup only
  error_agrees r =
      let fields = error_fields r in
      let cause =
        field_text r.root_cause (capped_line "\n  Root cause: " "error" r.id)
          (ap as_text (get-keep fields "root_cause") ∙ text_field r.root_cause) in
      let fix =
        field_text r.fix (capped_line "\n  Fix: " "error" r.id)
          (ap as_text (get-keep fields "fix") ∙ text_field r.fix) in
      λ i.
        if is_elsewhere r.project req.project
        then none
        else some (
          pinned_only relevance hit.is_pinned,
          (plain "[ERROR #" ∷ number r.id ∷ plain "]" ∷ [])
              ++ pinned_tag hit.is_pinned
              ++ (plain " " ∷ plain r.pattern_text ∷ [])
              ++ cause i
              ++ fix i,
        )

  -- The two tests of a rule, and the one of the policy.
  rule_hidden :
      (recalled superseded archived reveals : Bool) (out : Option Scored)
      → (if (recalled || archived && reveals) || (superseded && reveals) then none else out) ≡ (
          if recalled
          then none
          else if archived && reveals
          then none
          else if superseded && reveals
          then none
          else out)
  rule_hidden true superseded archived reveals out = refl
  rule_hidden false superseded true true out = refl
  rule_hidden false superseded true false out = refl
  rule_hidden false superseded false reveals out = refl

  rule_agrees :
      (r : RuleRow)
      → score_entry src req relevance hit (to_entry (rule r))
        ≡ score_row src req relevance hit (rule r)
  unfolding score_entry score_row to_entry lookup only rule_read
  rule_agrees r =
      let read = get-rule_facets r in
      let category =
        field_text r.category (λ c. plain " (" ∷ plain c ∷ plain ")" ∷ [])
          (ap as_text (read "category") ∙ text_field r.category) in
      let file_path =
        field_text r.file_path (line "\n  File: ")
          (ap as_text (read "file_path") ∙ text_field r.file_path) in
      let archived = ap as_flag (read "archived") ∙ flag_field r.archived in
      let importance = ap as_number (read "importance") ∙ count_field r.importance in
      let scope =
        ap (λ o. scope_term (some (text_or (as_text o) "conditional"))) (read "scope")
        ∙ ap (λ s. scope_term (some s)) (scope_field r.scope)
        ∙ scope_lem r.scope in
      let snap = src.snapshot "rule" hit.entity_id in
      let outcomes =
        ap (λ o. graded src snap r.id (as_text o)) (read "created_by")
        ∙ ap (graded src snap r.id) (text_field r.created_by)
        ∙ graded-nonempty src snap r.id r.created_by in
      let expired = is_expired src.now r.valid_until in
      let terms : ℕ × ℕ → ℕ → Bool → RankTerms = λ rated important universal.
        record (compose_rank relevance snap r.created_at (0, 0) (none, none)) {
          correct = rated.0;
          incorrect = rated.1;
          importance = min importance_max important;
          is_universal = universal;
        } in
      let shown : ℕ × ℕ → ℕ → Bool → List Piece → List Piece → Option Scored =
        λ rated important universal c file. some (
          composite (terms rated important universal) expired,
          (plain "[RULE #" ∷ number r.id ∷ plain "]" ∷ [])
              ++ full_tags src.now r.created_at r.last_hit_at expired hit.is_pinned
              ++ (plain " " ∷ plain r.title ∷ [])
              ++ c
              ++ when_text r.description (line "\n  ")
              ++ (if req.full then file else []),
        ) in
      let recalled = status_test r.status "recalled" refl refl in
      let superseded = status_test r.status "superseded" refl refl in
      let nowhere = elsewhere_none req.project in
      let reveals = not req.include_archived in
      (λ i.
        if (recalled i || archived i && reveals) || (superseded i && reveals)
        then none
        else if nowhere i
        then none
        else shown (outcomes i) (importance i) (scope i) (category i) (file_path i))
      ∙ rule_hidden (r.status == "recalled") (r.status == "superseded") r.archived reveals (
          shown (graded src snap r.id r.created_by) r.importance (scope_term (some r.scope))
            (when_text r.category (λ c. plain " (" ∷ plain c ∷ plain ")" ∷ []))
            (when_text r.file_path (line "\n  File: ")))

  -- The unified read path over the entry that a row is projected to, of any kind, gives the rank and the
  -- text of the legacy path over the row, or withholds the hit when that does.
  pub score_entry-to_entry :
      (r : Row) → score_entry src req relevance hit (to_entry r) ≡ score_row src req relevance hit r
  score_entry-to_entry (knowledge r) = knowledge_agrees r
  score_entry-to_entry (negative r) = negative_agrees r
  score_entry-to_entry (error r) = error_agrees r
  score_entry-to_entry (rule r) = rule_agrees r
