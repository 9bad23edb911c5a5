-- ===== src/Relations/Tests.antt =====
-- Runs of the tools on relations, and instances of their theorems.
use mcm_engine.Base.{
  ℕ, Bool, true, false, ◌≡◌, refl, ◌≤◌, none, some, List, [], ◌∷◌, inl, arith, string_eq, nat_eq,
  length, contains,
}
use mathlib.Core.List.Memᴰ
use mcm_engine.Base.Dict.{get, Distinct}
use mcm_engine.Relations.Table.{
  knowledge, error, rule, Node, node_eq, node_same, entity_same, RelationRow,
}
use mcm_engine.Relations.Trace.{Filter, Walk, trace, depth_cap, max_trace_nodes}
use mcm_engine.Relations.Step.{Reaches, here, onward}
use mcm_engine.Relations.Visit.{depths}
use mcm_engine.Relations.Reached.{trace_returns, trace_complete}
use mcm_engine.Relations.Undo.{unlink_knowledge-link_knowledge}
use mcm_engine.Relations.Tools.{
  link_knowledge, unlink_knowledge, linked, unlinked, invalid_relation, already_linked,
}

abbrev decision : Node
decision = (rule, 1)

abbrev ground_fact : Node
ground_fact = (knowledge, 2)

abbrev cause : Node
cause = (error, 3)

abbrev decision_row : RelationRow
decision_row = record {
  id = 1;
  source = decision;
  target = ground_fact;
  relation = "depends_on";
  note = none;
}

abbrev second_row : RelationRow
second_row = record {
  id = 2;
  source = ground_fact;
  target = cause;
  relation = "causes";
  note = none;
}

abbrev back_row : RelationRow
back_row = record { id = 3; source = cause; target = decision; relation = "related"; note = none }

abbrev cycle : List RelationRow
cycle = decision_row ∷ second_row ∷ back_row ∷ []

abbrev any_out : Filter
any_out = record { relation = ""; want_out = true; want_in = false }

abbrev two_rows : List RelationRow
two_rows = decision_row ∷ second_row ∷ []

-- The cycle is walked once, and the step back to the start has no line.
abbrev cycle_walk : Walk
cycle_walk = record {
  seen = cause ∷ ground_fact ∷ decision ∷ [];
  queue = [];
  lines =
      record {
        depth = 2;
        edge = record { is_outgoing = true; relation = "causes"; neighbor = cause; note = none };
      }
      ∷ record {
        depth = 1;
        edge = record {
          is_outgoing = true;
          relation = "depends_on";
          neighbor = ground_fact;
          note = none;
        };
      }
      ∷ [];
  truncated = false;
}

cycle_test : trace cycle any_out 5 decision ≡ some cycle_walk
unfolding trace node_same entity_same
cycle_test = refl

trace_returns_example :
    (t : Walk) × (trace cycle any_out 5 decision ≡ some t)
    × (length t.lines ≤ max_trace_nodes)
    × Distinct (depths decision t.lines)
    × ((w : Node) (x : ℕ)
        → get (depths decision t.lines) w ≡ some x
        → (x ≤ depth_cap 5) × Reaches cycle any_out decision x w)
trace_returns_example = trace_returns cycle any_out 5 decision

to_fact : Reaches cycle any_out decision 1 ground_fact
to_fact =
    onward 0 decision ground_fact (here decision refl)
      (decision_row, Memᴰ.head refl, refl, inl (refl, refl, refl))

to_cause : Reaches cycle any_out decision 2 cause
to_cause =
    onward 1 ground_fact cause to_fact
      (second_row, Memᴰ.tail (Memᴰ.head refl), refl, inl (refl, refl, refl))

trace_complete_example : (x : ℕ) × (get (depths decision cycle_walk.lines) cause ≡ some x) × (x ≤ 2)
unfolding depth_cap
trace_complete_example =
    trace_complete cycle any_out 5 decision cycle_walk cycle_test refl 2 cause to_cause
      (omega arith)

abbrev all_there : Node → Bool
all_there node = true

link_test : link_knowledge all_there "error" 3 "rule" 1 "related" "" two_rows ≡ (linked, cycle)
unfolding link_knowledge contains node_same entity_same
link_test = refl

twice_test :
    link_knowledge all_there "error" 3 "rule" 1 "related" "again" cycle ≡ (already_linked, cycle)
unfolding link_knowledge contains node_same entity_same
twice_test = refl

unknown_verb_test :
    link_knowledge all_there "error" 3 "rule" 1 "blocks" "" two_rows ≡ (invalid_relation, two_rows)
unfolding link_knowledge contains
unknown_verb_test = refl

unlink_knowledge-link_knowledge_example :
    unlink_knowledge "error" 3 "rule" 1 "related" cycle ≡ (unlinked, two_rows)
unlink_knowledge-link_knowledge_example =
    unlink_knowledge-link_knowledge all_there "error" 3 "rule" 1 "related" "" two_rows cycle
      link_test
