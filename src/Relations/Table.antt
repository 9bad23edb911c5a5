-- ===== src/Relations/Table.antt =====
-- The table `relations` and the operations of src/mcm_engine/adapters/sqlite/storage.py on it. A row's
-- five key columns are unique together. The rows stand in the order in which they came in; the queries
-- ask for no order, and the theorems rest on none.
use mcm_engine.Base.{
  ℕ, ◌+◌, max, String, Bool, true, false, not, ◌&&◌, ◌≡◌, ◌↔◌, ap, Option, none, some, List, [],
  ◌∷◌, ◌++◌, ◌==◌, string_eq, nat_eq, if◌then◌else◌, any, filter, length, Equality, arith,
}

pub data EntityType : Type 0 where
  knowledge negative error rule : EntityType

unfoldable pub entity_same : EntityType → EntityType → Bool
entity_same knowledge knowledge = true
entity_same negative negative = true
entity_same error error = true
entity_same rule rule = true
entity_same _ _ = false

pub entity_same_iff : (a b : EntityType) → (entity_same a b ≡ true) ↔ (a ≡ b)
unfolding entity_same
entity_same_iff knowledge b = ground arith
entity_same_iff negative b = ground arith
entity_same_iff error b = ground arith
entity_same_iff rule b = ground arith

instance abbrev pub entity_eq : Equality EntityType
entity_eq = record { same = entity_same; same_iff = entity_same_iff }

-- An entry: its type and its id.
abbrev pub Node : Type 0
Node = EntityType × ℕ

unfoldable pub node_same : Node → Node → Bool
node_same a b = a.0 == b.0 && a.1 == b.1

pub node_same_iff : (a b : Node) → (node_same a b ≡ true) ↔ (a ≡ b)
unfolding node_same
node_same_iff a b = (
  λ h i. (
    (entity_same_iff a.0 b.0).0 (ground (arith, h)) i,
    (nat_eq.same_iff a.1 b.1).0 (ground (arith, h)) i,
  ),
  λ p. ground (
    arith,
    (entity_same_iff a.0 b.0).1 (ap (λ (n : Node). n.0) p),
    (nat_eq.same_iff a.1 b.1).1 (ap (λ (n : Node). n.1) p),
  ),
)

instance abbrev pub node_eq : Equality Node
node_eq = record { same = node_same; same_iff = node_same_iff }

pub record RelationRow : Type 0 where
  pub id : ℕ
  pub source : Node
  pub target : Node
  pub relation : String
  pub note : Option String

-- The columns that are unique together.
abbrev pub is_same_link : Node → Node → String → RelationRow → Bool
is_same_link source target relation row =
    row.source == source && row.target == target && row.relation == relation

unfoldable pub max_row_id : List RelationRow → ℕ
max_row_id [] = 0
max_row_id (row ∷ rows) = max row.id (max_row_id rows)

-- The id that the database gives a row without one.
unfoldable pub row_id : RelationRow → List RelationRow → ℕ
unfolding max_row_id
row_id row rows = if row.id == 0 then max_row_id rows + 1 else row.id

-- An id or a link that is there is an IntegrityError, and the answer is None.
unfoldable pub insert_relation_row : RelationRow → List RelationRow → Option ℕ × List RelationRow
unfolding row_id
insert_relation_row row rows =
    let id = row_id row rows in
    if any (is_same_link row.source row.target row.relation) rows
    then (none, rows)
    else if any (λ (other : RelationRow). other.id == id) rows
    then (none, rows)
    else (some id, rows ++ record row { id = id } ∷ [])

-- With the number of rows that were deleted.
unfoldable pub delete_relation : Node → Node → String → List RelationRow → ℕ × List RelationRow
delete_relation source target relation rows = (
  length (filter (is_same_link source target relation) rows),
  filter (λ row. not (is_same_link source target relation row)) rows,
)

unfoldable pub list_outgoing_relations : Node → List RelationRow → List RelationRow
list_outgoing_relations node rows = filter (λ row. row.source == node) rows

unfoldable pub list_incoming_relations : Node → List RelationRow → List RelationRow
list_incoming_relations node rows = filter (λ row. row.target == node) rows
