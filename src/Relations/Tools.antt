-- ===== src/Relations/Tools.antt =====
-- The tools of src/mcm_engine/tools/relations.py: what they check, and what they do to the table. An
-- answer stands for its text; the nudge that follows it and the labels of the entries are left out. Which
-- entries are there is an argument.
use mathlib.Core.List.{reverse}
use mcm_engine.Base.{
  ◌||◌, map_option, ℕ, String, Bool, not, ◌&&◌, Option, none, some, List, [], ◌∷◌, ◌==◌, string_eq,
  nat_eq, if◌then◌else◌, contains,
}
use mcm_engine.Relations.Table.{
  EntityType, knowledge, negative, error, rule, Node, RelationRow, insert_relation_row,
  delete_relation, list_outgoing_relations, list_incoming_relations,
}
use mcm_engine.Relations.Trace.{Filter, TraceLine, Walk, trace}

-- EntityType(value), and none outside VALID_TYPES
unfoldable pub parse_type : String → Option EntityType
parse_type name =
    if name == "knowledge"
    then some knowledge
    else if name == "negative"
    then some negative
    else if name == "error"
    then some error
    else if name == "rule"
    then some rule
    else none

abbrev pub valid_relations : List String
valid_relations = "causes" ∷ "contradicts" ∷ "fixes" ∷ "related" ∷ "supersedes" ∷ "depends_on" ∷ []

pub data LinkAnswer : Type 0 where
  invalid_source_type invalid_target_type invalid_relation : LinkAnswer
  source_not_found target_not_found : LinkAnswer
  already_linked linked : LinkAnswer
  unlinked no_such_link : LinkAnswer

pub data RelatedAnswer : Type 0 where
  related_invalid_type related_not_found : RelatedAnswer
  -- the outgoing rows and the incoming ones
  related : List RelationRow → List RelationRow → RelatedAnswer

pub data TraceAnswer : Type 0 where
  trace_invalid_type trace_invalid_relation trace_invalid_direction trace_not_found : TraceAnswer
  -- the lines in the order of the text, and whether the walk was truncated
  traced : List TraceLine → Bool → TraceAnswer

abbrev pub directions : List String
directions = "outgoing" ∷ "incoming" ∷ "both" ∷ []

unfoldable pub unlink_knowledge :
    String → ℕ → String → ℕ → String → List RelationRow → LinkAnswer × List RelationRow
unfolding parse_type delete_relation
unlink_knowledge source_type source_id target_type target_id relation rows =
    elim (parse_type source_type) [
      | none ↦ (invalid_source_type, rows)
      | some source ↦ elim (parse_type target_type) [
        | none ↦ (invalid_target_type, rows)
        | some target ↦
            if not (contains valid_relations relation)
            then (invalid_relation, rows)
            else let (deleted, after) =
                delete_relation (source, source_id) (target, target_id) relation rows in
              (if deleted == 0 then no_such_link else unlinked, after)
      ]
    ]

-- What the direction of a call asks for.
abbrev pub trace_filter : String → String → Filter
trace_filter relation direction = record {
  relation = relation;
  want_out = direction == "outgoing" || direction == "both";
  want_in = direction == "incoming" || direction == "both";
}

module _ (entry_exists : Node → Bool) where
  -- The row that is asked for; the database gives it its id.
  abbrev pub link_row : Node → Node → String → String → RelationRow
  link_row source target relation note = record {
    id = 0;
    source = source;
    target = target;
    relation = relation;
    note = if note == "" then none else some note;
  }

  -- A valid call.
  unfoldable pub link_nodes :
      Node → Node → String → String → List RelationRow → LinkAnswer × List RelationRow
  unfolding insert_relation_row
  link_nodes source target relation note rows =
      if not (entry_exists source)
      then (source_not_found, rows)
      else if not (entry_exists target)
      then (target_not_found, rows)
      else let (id, after) = insert_relation_row (link_row source target relation note) rows in
        elim id [ none ↦ (already_linked, after) | some new ↦ (linked, after) ]

  unfoldable pub link_knowledge :
      String → ℕ → String → ℕ → String → String → List RelationRow → LinkAnswer × List RelationRow
  unfolding parse_type link_nodes
  link_knowledge source_type source_id target_type target_id relation note rows =
      elim (parse_type source_type) [
        | none ↦ (invalid_source_type, rows)
        | some source ↦ elim (parse_type target_type) [
          | none ↦ (invalid_target_type, rows)
          | some target ↦
              if not (contains valid_relations relation)
              then (invalid_relation, rows)
              else link_nodes (source, source_id) (target, target_id) relation note rows
        ]
      ]

  unfoldable pub get_related : String → ℕ → List RelationRow → RelatedAnswer
  unfolding parse_type list_outgoing_relations list_incoming_relations
  get_related entry_type entry_id rows = elim (parse_type entry_type) [
    | none ↦ related_invalid_type
    | some kind ↦
        if not (entry_exists (kind, entry_id))
        then related_not_found
        else related (list_outgoing_relations (kind, entry_id) rows)
            (list_incoming_relations (kind, entry_id) rows)
  ]

  -- `none` is a walk that has not come to its end.
  unfoldable pub trace_chain :
      String → ℕ → String → String → ℕ → List RelationRow → Option TraceAnswer
  unfolding parse_type trace
  trace_chain entry_type entry_id relation direction max_depth rows = elim (parse_type entry_type) [
    | none ↦ some trace_invalid_type
    | some kind ↦
        if not (relation == "") && not (contains valid_relations relation)
        then some trace_invalid_relation
        else if not (contains directions direction)
        then some trace_invalid_direction
        else if not (entry_exists (kind, entry_id))
        then some trace_not_found
        else map_option (λ (t : Walk). traced (reverse t.lines) t.truncated)
            (trace rows (trace_filter relation direction) max_depth (kind, entry_id))
  ]
