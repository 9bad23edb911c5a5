-- ===== src/Relations/Trace.antt =====
-- `trace_chain` of src/mcm_engine/tools/relations.py: the walk over the relations. A line stands for its
-- text; the walk runs on fuel, and `none` is a walk that has not come to its end.
use mcm_engine.Base.{
  ℕ, zero, suc, ◌+◌, ◌-◌, max, min, String, Bool, true, false, ◌||◌, Option, none, some, List, [],
  ◌∷◌, ◌++◌, ◌==◌, string_eq, nat_eq, if◌then◌else◌, filter, map, length, leb, contains,
}
use mcm_engine.Relations.Table.{
  Node, node_eq, RelationRow, list_outgoing_relations, list_incoming_relations,
}

abbrev pub max_trace_depth : ℕ
max_trace_depth = 20

abbrev pub max_trace_nodes : ℕ
max_trace_nodes = 200

pub record Edge : Type 0 where
  pub is_outgoing : Bool
  pub relation : String
  pub neighbor : Node
  pub note : Option String

-- What the walk follows: a verb, "" for any, and the directions.
pub record Filter : Type 0 where
  pub relation : String
  pub want_out : Bool
  pub want_in : Bool

abbrev pub is_wanted : Filter → RelationRow → Bool
is_wanted f row = f.relation == "" || row.relation == f.relation

abbrev pub out_edge : RelationRow → Edge
out_edge row = record {
  is_outgoing = true;
  relation = row.relation;
  neighbor = row.target;
  note = row.note;
}

abbrev pub in_edge : RelationRow → Edge
in_edge row = record {
  is_outgoing = false;
  relation = row.relation;
  neighbor = row.source;
  note = row.note;
}

unfoldable pub edges_of : List RelationRow → Filter → Node → List Edge
unfolding list_outgoing_relations list_incoming_relations
edges_of rows f node =
    (if f.want_out
      then map out_edge (filter (is_wanted f) (list_outgoing_relations node rows))
      else [])
    ++ (if f.want_in
        then map in_edge (filter (is_wanted f) (list_incoming_relations node rows))
        else [])

-- The line of one neighbor, which stands `depth` steps in.
pub record TraceLine : Type 0 where
  pub depth : ℕ
  pub edge : Edge

pub record Walk : Type 0 where
  pub seen : List Node
  pub queue : List (Node × ℕ)
  -- the newest first
  pub lines : List TraceLine
  pub truncated : Bool

-- A neighbor that was not seen: its line, and its place in the queue unless the walk is full.
unfoldable pub visit : ℕ → Edge → Walk → Walk
visit depth edge s =
    let seen = edge.neighbor ∷ s.seen in
    let lines = record { depth = suc depth; edge = edge } ∷ s.lines in
    if leb max_trace_nodes (length seen - 1)
    then record s { seen = seen; lines = lines; truncated = true }
    else record s { seen = seen; lines = lines; queue = s.queue ++ (edge.neighbor, suc depth) ∷ [] }

-- The loop over the edges of one node, which a full walk breaks off.
unfoldable pub scan : ℕ → List Edge → Walk → Walk
unfolding visit contains
scan depth [] s = s
scan depth (edge ∷ edges) s =
    let skipped = scan depth edges s in
    let visited = scan depth edges (visit depth edge s) in
    if s.truncated then s else if contains s.seen edge.neighbor then skipped else visited

-- `while queue and not truncated`
unfoldable pub walk : List RelationRow → Filter → ℕ → ℕ → Walk → Option Walk
unfolding scan edges_of
walk rows f cap zero s = none
walk rows f cap (suc fuel) s = if s.truncated then some s else elim s.queue [
  | [] ↦ some s
  | (node, depth) ∷ rest ↦
      let popped = record s { queue = rest } in
      walk rows f cap fuel
        (if leb cap depth then popped else scan depth (edges_of rows f node) popped)
]

unfoldable pub start : Node → Walk
start node = record { seen = node ∷ []; queue = (node, 0) ∷ []; lines = []; truncated = false }

-- `max(1, min(max_depth, _MAX_TRACE_DEPTH))`; a negative depth counts as 0.
unfoldable pub depth_cap : ℕ → ℕ
depth_cap max_depth = max 1 (min max_depth max_trace_depth)

abbrev pub trace_fuel : ℕ
trace_fuel = max_trace_nodes + 2

-- The walk of a valid call from an entry that is there.
unfoldable pub trace : List RelationRow → Filter → ℕ → Node → Option Walk
unfolding walk start depth_cap
trace rows f max_depth node = walk rows f (depth_cap max_depth) trace_fuel (start node)
