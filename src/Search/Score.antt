-- ===== src/Search/Score.antt =====
-- The scorers of src/mcm_engine/tools/search.py, one for each kind of row and one for the entries. The
-- rank is kept as the terms that src/mcm_engine/scoring.py adds up in floating point. The thresholds of age
-- have their defaults.
use mcm_engine.Base.{
  ℕ, ◌+◌, ◌*◌, String, Bool, true, false, not, ◌&&◌, ◌||◌, Option, none, some, List, [], ◌∷◌, ◌++◌,
  ◌==◌, string_eq, nat_eq, if◌then◌else◌, or_text, or_else, min, ltb,
}
use mcm_engine.Base.Dict.{get}
use mcm_engine.Entries.Rows.{KnowledgeRow, NegativeRow, ErrorRow, RuleRow, Entry}
use mcm_engine.Entries.Facets.{as_text}
use mcm_engine.Entries.Project.{Row, knowledge, negative, error, rule}
use mcm_engine.Rules.Metadata.{importance_max}
use mcm_engine.Search.Policy.{
  policy_for, hidden, rank_inputs, Piece, plain, number, upper, when_text, when_refs, line,
  capped_line, render_hit,
}

abbrev pub stale_days : ℕ
stale_days = 90

-- What the counters have of an entry.
pub record Snapshot : Type 0 where
  pub hit_count : ℕ
  pub reinforcement_count : ℕ
  pub pinned : Bool
  pub correct_count : ℕ
  pub incorrect_count : ℕ

-- What a scorer reads besides the entry: the time, in seconds, the trust in an actor, the outcomes of a
-- rule and the counters.
pub record Sources : Type 0 where
  pub now : ℕ
  pub actor_weight : String → ℕ
  pub list_rule_outcomes : ℕ → List (String × Bool)
  pub snapshot : String → ℕ → Snapshot

pub record SearchHit : Type 0 where
  pub entity_id : ℕ
  pub score : ℕ
  pub is_pinned : Bool
  pub match_text : Option String

-- The call's parameters.
pub record SearchCall : Type 0 where
  pub project : String
  pub include_archived : Bool
  pub full : Bool

-- What `compose_rank` adds up; `age_days` is told by the moment of creation.
pub record RankTerms : Type 0 where
  pub relevance : ℕ
  pub hit_count : ℕ
  pub reinforcement_count : ℕ
  pub pinned : Bool
  pub created_at : Option ℕ
  pub correct : ℕ
  pub incorrect : ℕ
  pub importance : ℕ
  pub is_universal : Bool

pub data Rank : Type 0 where
  -- with the penalty for an expired entry
  composite : RankTerms → Bool → Rank
  pinned_only : ℕ → Bool → Rank

abbrev pub importance_term : Option ℕ → ℕ
importance_term importance = min importance_max (or_else importance 0)

abbrev pub scope_term : Option String → Bool
scope_term scope = or_else scope "" == "universal"

unfoldable pub compose_rank : ℕ → Snapshot → Option ℕ → ℕ × ℕ → Option ℕ × Option String → RankTerms
compose_rank relevance snap created_at outcomes inputs = record {
  relevance = relevance;
  hit_count = snap.hit_count;
  reinforcement_count = snap.reinforcement_count;
  pinned = snap.pinned;
  created_at = created_at;
  correct = outcomes.0;
  incorrect = outcomes.1;
  importance = importance_term inputs.0;
  is_universal = scope_term inputs.1;
}

-- `age_days < STALE_DAYS`
abbrev pub is_young : ℕ → ℕ → Bool
is_young now moment = ltb now (moment + stale_days * 86400)

unfoldable pub is_stale : ℕ → Option ℕ → Option ℕ → Bool → Bool
is_stale now created_at last_hit_at pinned = elim created_at [
  | none ↦ false
  | some created ↦
      not pinned
      && not (is_young now created)
      && not (elim last_hit_at [ none ↦ false | some last ↦ is_young now last ])
]

unfoldable pub is_expired : ℕ → Option ℕ → Bool
is_expired now valid_until = elim valid_until [ none ↦ false | some moment ↦ ltb moment now ]

unfoldable pub pinned_tag : Bool → List Piece
pinned_tag pinned = if pinned then plain " [PINNED]" ∷ [] else []

unfoldable pub full_tags : ℕ → Option ℕ → Option ℕ → Bool → Bool → List Piece
unfolding is_stale pinned_tag
full_tags now created_at last_hit_at expired pinned =
    (if is_stale now created_at last_hit_at pinned then plain " [STALE]" ∷ [] else [])
    ++ (if expired then plain " [EXPIRED]" ∷ [] else [])
    ++ pinned_tag pinned

-- A row without a project matches each.
unfoldable pub project_match : Option String → String → Bool
project_match none requested = true
project_match (some project) requested = project == requested || project == ""

-- `project and not _project_match(row.project, project)`
abbrev pub is_elsewhere : Option String → String → Bool
is_elsewhere project requested = not (requested == "") && not (project_match project requested)

unfoldable pub is_author : Option String → String → Bool
is_author none actor = false
is_author (some author) actor = not (author == "") && actor == author

-- The weights of the outcomes, those by the author left out.
unfoldable pub weigh : (String → ℕ) → Option String → List (String × Bool) → ℕ × ℕ
unfolding is_author
weigh weight author [] = (0, 0)
weigh weight author ((actor, passed) ∷ outcomes) =
    let (correct, incorrect) = weigh weight author outcomes in
    if is_author author actor
    then (correct, incorrect)
    else if passed
    then (weight actor + correct, incorrect)
    else (correct, weight actor + incorrect)

-- The counters only tell whether there are outcomes.
unfoldable pub graded : Sources → Snapshot → ℕ → Option String → ℕ × ℕ
unfolding weigh
graded src snap id author =
    if snap.correct_count == 0 && snap.incorrect_count == 0
    then (0, 0)
    else weigh src.actor_weight author (src.list_rule_outcomes id)

abbrev pub Scored : Type 0
Scored = Rank × List Piece

unfoldable pub score_knowledge : Sources → SearchCall → ℕ → SearchHit → KnowledgeRow → Option Scored
unfolding project_match compose_rank is_expired full_tags when_text when_refs or_text
score_knowledge src req relevance hit row =
    if row.status == "superseded" && not req.include_archived
    then none
    else if is_elsewhere row.project req.project
    then none
    else let snap = src.snapshot "knowledge" hit.entity_id in
      let terms = compose_rank relevance snap row.created_at (0, 0) (none, none) in
      let expired = is_expired src.now row.valid_until in
      let tags = full_tags src.now row.created_at row.last_hit_at expired hit.is_pinned in
      some (
        composite terms expired,
        (plain "[KNOWLEDGE/"
              ∷ upper (or_text row.kind "finding")
              ∷ plain " #"
              ∷ number row.id
              ∷ plain "]"
              ∷ [])
            ++ tags
            ++ (plain " " ∷ plain row.topic ∷ plain ": " ∷ plain row.summary ∷ [])
            ++ (if req.full
                then when_text row.detail (line "\n  Detail: ")
                  ++ when_text row.tags (line "\n  Tags: ")
                  ++ when_refs row.references
                else when_text row.tags (line "\n  Tags: ")),
      )

unfoldable pub score_rule : Sources → SearchCall → ℕ → SearchHit → RuleRow → Option Scored
unfolding graded compose_rank is_expired full_tags when_text
score_rule src req relevance hit row =
    if row.status == "recalled"
    then none
    else if row.archived && not req.include_archived
    then none
    else if row.status == "superseded" && not req.include_archived
    then none
    else let snap = src.snapshot "rule" hit.entity_id in
      let outcomes = graded src snap row.id row.created_by in
      let terms =
        compose_rank relevance snap row.created_at outcomes (some row.importance, some row.scope) in
      let expired = is_expired src.now row.valid_until in
      let tags = full_tags src.now row.created_at row.last_hit_at expired hit.is_pinned in
      some (
        composite terms expired,
        (plain "[RULE #" ∷ number row.id ∷ plain "]" ∷ [])
            ++ tags
            ++ (plain " " ∷ plain row.title ∷ [])
            ++ when_text row.category (λ c. plain " (" ∷ plain c ∷ plain ")" ∷ [])
            ++ when_text row.description (line "\n  ")
            ++ (if req.full then when_text row.file_path (line "\n  File: ") else []),
      )

unfoldable pub score_negative : SearchCall → ℕ → SearchHit → NegativeRow → Option Scored
unfolding project_match pinned_tag when_text
score_negative req relevance hit row =
    if is_elsewhere row.project req.project
    then none
    else some (
      pinned_only relevance hit.is_pinned,
      (plain "[NEGATIVE #" ∷ number row.id ∷ plain "]" ∷ [])
          ++ pinned_tag hit.is_pinned
          ++ (plain " " ∷ plain row.category ∷ plain ": " ∷ plain row.what_failed ∷ [])
          ++ when_text row.why_failed (capped_line "\n  Why: " "negative" row.id)
          ++ when_text row.correct_approach (capped_line "\n  Fix: " "negative" row.id),
    )

unfoldable pub score_error : SearchCall → ℕ → SearchHit → ErrorRow → Option Scored
unfolding project_match pinned_tag when_text
score_error req relevance hit row =
    if is_elsewhere row.project req.project
    then none
    else some (
      pinned_only relevance hit.is_pinned,
      (plain "[ERROR #" ∷ number row.id ∷ plain "]" ∷ [])
          ++ pinned_tag hit.is_pinned
          ++ (plain " " ∷ plain row.pattern_text ∷ [])
          ++ when_text row.root_cause (capped_line "\n  Root cause: " "error" row.id)
          ++ when_text row.fix (capped_line "\n  Fix: " "error" row.id),
    )

-- The legacy read path, by the kind of the row.
unfoldable pub score_row : Sources → SearchCall → ℕ → SearchHit → Row → Option Scored
unfolding score_knowledge score_rule score_negative score_error
score_row src req relevance hit (knowledge row) = score_knowledge src req relevance hit row
score_row src req relevance hit (negative row) = score_negative req relevance hit row
score_row src req relevance hit (error row) = score_error req relevance hit row
score_row src req relevance hit (rule row) = score_rule src req relevance hit row

-- The unified read path. An entry whose kind has no policy is a KeyError there, and `none` here.
unfoldable pub score_entry : Sources → SearchCall → ℕ → SearchHit → Entry → Option Scored
unfolding hidden project_match policy_for graded rank_inputs compose_rank is_expired full_tags
    pinned_tag render_hit as_text get
score_entry src req relevance hit e =
    if hidden e req.include_archived
    then none
    else if is_elsewhere e.project req.project
    then none
    else elim (policy_for e.kind) [
      | none ↦ none
      | some policy ↦
          if not policy.composite_rank
          then some (
            pinned_only relevance hit.is_pinned,
            render_hit e req.full (pinned_tag hit.is_pinned),
          )
          else let snap = src.snapshot e.kind hit.entity_id in
            let outcomes =
              if policy.governed
              then graded src snap e.id (as_text (get e.facets "created_by"))
              else (0, 0) in
            let terms = compose_rank relevance snap e.created_at outcomes (rank_inputs e) in
            let expired = is_expired src.now e.valid_until in
            let tags = full_tags src.now e.created_at e.last_hit_at expired hit.is_pinned in
            some (composite terms expired, render_hit e req.full tags)
    ]
