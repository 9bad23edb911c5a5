-- ===== src/Search/Block.antt =====
-- The search over one kind and over all of them in src/mcm_engine/tools/search.py. What the index finds is
-- an argument, and so are the two functions on floating-point numbers: the relevance of a score in its batch,
-- and the order of the ranks. The bumps of the counters are kept as the list of ids; the plugins' scopes
-- are left out.
use mcm_engine.Base.{
  ℕ, ◌*◌, String, Bool, true, false, not, ◌&&◌, ◌||◌, Option, none, some, List, [], ◌∷◌, ◌++◌, ◌==◌,
  string_eq, nat_eq, if◌then◌else◌, min, max, ltb, leb, map, contains, length, take,
}
use mcm_engine.Entries.Rows.{Entry}
use mcm_engine.Entries.Project.{Row}
use mcm_engine.Relations.Table.{
  EntityType, knowledge, negative, error, rule, entity_eq, Node, RelationRow,
  list_outgoing_relations, list_incoming_relations,
}
use mcm_engine.Search.Policy.{Piece, snippet, when_text}
use mcm_engine.Search.Score.{SearchHit, Sources, SearchCall, Rank, Scored, score_row, score_entry}

abbrev pub neg_err_summary_cap : ℕ
neg_err_summary_cap = 3

-- The storage, the index and the flag that selects the read path.
pub record Corpus : Type 0 where
  pub unified : Bool
  pub find_by_id : EntityType → ℕ → Option Row
  pub find_entry : EntityType → ℕ → Option Entry
  pub search : EntityType → ℕ → List SearchHit
  pub search_entries : EntityType → ℕ → List SearchHit
  pub relations : List RelationRow
  pub sources : Sources
  pub minmax_normalize : ℕ → ℕ → ℕ → ℕ
  pub value : Rank → ℕ

pub record Ranked : Type 0 where
  pub entity_id : ℕ
  pub rank : Rank
  pub text : List Piece

pub record Shown : Type 0 where
  pub kind : EntityType
  pub entity_id : ℕ
  pub is_related : Bool
  pub text : List Piece

unfoldable pub lowest : List SearchHit → ℕ
lowest [] = 0
lowest (hit ∷ []) = hit.score
lowest (hit ∷ hits) = min hit.score (lowest hits)

unfoldable pub highest : List SearchHit → ℕ
highest [] = 0
highest (hit ∷ hits) = max hit.score (highest hits)

-- One hit, through the read path that is selected.
unfoldable pub score_hit : Corpus → SearchCall → ℕ → EntityType → SearchHit → Option Scored
unfolding score_row score_entry
score_hit c req relevance kind hit =
    if c.unified
    then elim (c.find_entry kind hit.entity_id) [
      | none ↦ none
      | some e ↦ score_entry c.sources req relevance hit e
    ]
    else elim (c.find_by_id kind hit.entity_id) [
      | none ↦ none
      | some row ↦ score_row c.sources req relevance hit row
    ]

unfoldable pub match_pieces : SearchCall → SearchHit → List Piece
unfolding when_text
match_pieces req hit = if req.full then [] else when_text hit.match_text (λ s. snippet s ∷ [])

unfoldable pub score_hits :
    Corpus → SearchCall → EntityType → ℕ → ℕ → ℕ → List SearchHit → List Ranked
unfolding score_hit match_pieces
score_hits c req kind min_rank lo hi [] = []
score_hits c req kind min_rank lo hi (hit ∷ hits) =
    let rest = score_hits c req kind min_rank lo hi hits in
    if ltb hit.score min_rank
    then rest
    else elim (score_hit c req (c.minmax_normalize hit.score lo hi) kind hit) [
      | none ↦ rest
      | some scored ↦
          record {
            entity_id = hit.entity_id;
            rank = scored.0;
            text = scored.1 ++ match_pieces req hit;
          }
          ∷ rest
    ]

-- `scored.sort(key=..., reverse=True)`, which keeps the order of equals.
unfoldable pub insert_ranked : (Rank → ℕ) → Ranked → List Ranked → List Ranked
insert_ranked value x [] = x ∷ []
insert_ranked value x (y ∷ ys) =
    let later = insert_ranked value x ys in
    if leb (value y.rank) (value x.rank) then x ∷ y ∷ ys else y ∷ later

unfoldable pub sort_ranked : (Rank → ℕ) → List Ranked → List Ranked
unfolding insert_ranked
sort_ranked value [] = []
sort_ranked value (x ∷ xs) = insert_ranked value x (sort_ranked value xs)

-- The rules among the linked entries that were not seen, each once.
unfoldable pub unseen_rules : List Node → List ℕ → List ℕ
unfolding contains
unseen_rules [] seen = []
unseen_rules (node ∷ nodes) seen =
    let skipped = unseen_rules nodes seen in
    let added = unseen_rules nodes (node.1 ∷ seen) in
    if node.0 == rule && not (contains seen node.1) then node.1 ∷ added else skipped

unfoldable pub linked_nodes : List RelationRow → List ℕ → List Node
unfolding list_outgoing_relations list_incoming_relations
linked_nodes rows [] = []
linked_nodes rows (id ∷ ids) =
    map (λ (r : RelationRow). r.target) (list_outgoing_relations (rule, id) rows)
    ++ map (λ (r : RelationRow). r.source) (list_incoming_relations (rule, id) rows)
    ++ linked_nodes rows ids

unfoldable pub related_rules : Corpus → SearchCall → List ℕ → List Shown
unfolding score_hit
related_rules c req [] = []
related_rules c req (id ∷ ids) =
    let rest = related_rules c req ids in
    let hit : SearchHit = record {
      entity_id = id;
      score = 0;
      is_pinned = false;
      match_text = none;
    } in
    elim (score_hit c (record req { project = "" }) 0 rule hit) [
      | none ↦ rest
      | some scored ↦
          record { kind = rule; entity_id = id; is_related = true; text = scored.1 } ∷ rest
    ]

unfoldable pub spread_related_rules : Corpus → SearchCall → ℕ → List ℕ → List Shown
unfolding unseen_rules linked_nodes related_rules
spread_related_rules c req limit ids =
    related_rules c req (take limit (unseen_rules (linked_nodes c.relations ids) ids))

-- What a scope shows, and the ids of its hits.
pub record ScopeResult : Type 0 where
  pub lines : List Shown
  pub ids : List ℕ
  pub bumped : List ℕ

abbrev pub show_hit : EntityType → Ranked → Shown
show_hit kind r = record { kind = kind; entity_id = r.entity_id; is_related = false; text = r.text }

abbrev pub is_governed : EntityType → Bool
is_governed kind = kind == rule

abbrev pub counts_hits : EntityType → Bool
counts_hits kind = kind == rule || kind == knowledge

abbrev pub raw_hits : Corpus → EntityType → ℕ → List SearchHit
raw_hits c kind limit =
    if c.unified then c.search_entries kind (limit * 3) else c.search kind (limit * 3)

unfoldable pub scope_block : Corpus → SearchCall → ℕ → ℕ → Bool → EntityType → ScopeResult
unfolding lowest highest score_hits sort_ranked spread_related_rules
scope_block c req min_rank limit bump_counters kind =
    let hits = raw_hits c kind limit in
    let scored = score_hits c req kind min_rank (lowest hits) (highest hits) hits in
    let top = take limit (sort_ranked c.value scored) in
    let ids = map (λ (r : Ranked). r.entity_id) top in
    record {
      lines =
          map (show_hit kind) top
          ++ (if is_governed kind then spread_related_rules c req limit ids else []);
      ids = ids;
      bumped = if bump_counters && counts_hits kind then ids else [];
    }

-- The scopes that are asked for, each as it is called: negatives and errors are fewer in a summary of
-- several kinds and never archived, and rules have no project.
unfoldable pub search_scope : Corpus → SearchCall → ℕ → ℕ → Bool → EntityType → ScopeResult
unfolding scope_block
search_scope c req min_rank limit several kind =
    let few = if not req.full && several then min limit neg_err_summary_cap else limit in
    let plain_request = record req { include_archived = false } in
    elim kind [
      | knowledge ↦ scope_block c req min_rank limit true knowledge
      | negative ↦ scope_block c plain_request min_rank few false negative
      | error ↦ scope_block c plain_request min_rank few false error
      | rule ↦ scope_block c (record req { project = "" }) min_rank limit true rule
    ]

unfoldable pub search_scopes : Corpus → SearchCall → ℕ → ℕ → Bool → List EntityType → List Shown
unfolding search_scope
search_scopes c req min_rank limit several [] = []
search_scopes c req min_rank limit several (kind ∷ kinds) =
    (search_scope c req min_rank limit several kind).lines
    ++ search_scopes c req min_rank limit several kinds

-- `_SCOPE_MAP`, in the order of the calls; another name is all of them.
unfoldable pub scope_kinds : String → List EntityType
scope_kinds scope =
    if scope == "knowledge"
    then knowledge ∷ []
    else if scope == "negative"
    then negative ∷ []
    else if scope == "errors"
    then error ∷ []
    else if scope == "rules"
    then rule ∷ []
    else knowledge ∷ negative ∷ error ∷ rule ∷ []

unfoldable pub search_all_scopes : Corpus → SearchCall → ℕ → ℕ → String → List Shown
unfolding search_scopes scope_kinds
search_all_scopes c req min_rank limit scope =
    let kinds = scope_kinds scope in search_scopes c req min_rank limit (ltb 1 (length kinds)) kinds
