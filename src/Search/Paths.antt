-- ===== src/Search/Paths.antt =====
-- The read path that the flag of src/mcm_engine/policies.py selects makes no difference to a search.
use mcm_engine.Base.{
  ℕ, ◌*◌, String, Bool, true, false, none, some, List, [], ◌∷◌, ◌++◌, ◌≡◌, refl, ap, ◌∙◌,
  if◌then◌else◌, ltb, map, take, length, ◌&&◌,
}
use mcm_engine.Relations.Table
use mcm_engine.Relations.Table.{EntityType}
use mcm_engine.Search.Score.{SearchHit, SearchCall}
use mcm_engine.Search.Block.{
  Corpus, Ranked, score_hits, related_rules, scope_block, search_scope, search_scopes, sort_ranked,
  spread_related_rules, raw_hits, lowest, highest, show_hit, is_governed, counts_hits, scope_kinds,
  search_all_scopes, match_pieces, linked_nodes, unseen_rules,
}
use mcm_engine.Search.Shown.{IsMirrored, legacy, score_hit-legacy, if_same}

module _ (c : Corpus) (m : IsMirrored c)
    (same_hits : (kind : EntityType) (n : ℕ) → c.search_entries kind n ≡ c.search kind n) where
  score_hits-legacy :
      (req : SearchCall) (kind : EntityType) (min_rank lo hi : ℕ) (hits : List SearchHit)
      → score_hits c req kind min_rank lo hi hits
        ≡ score_hits (legacy c) req kind min_rank lo hi hits
  unfolding score_hits
  score_hits-legacy req kind min_rank lo hi [] = refl
  score_hits-legacy req kind min_rank lo hi (hit ∷ hits) = λ i.
      let rest = score_hits-legacy req kind min_rank lo hi hits i in
      if ltb hit.score min_rank
      then rest
      else elim (score_hit-legacy c m req (c.minmax_normalize hit.score lo hi) kind hit i) [
        | none ↦ rest
        | some scored ↦
            record {
              entity_id = hit.entity_id;
              rank = scored.0;
              text = scored.1 ++ match_pieces req hit;
            }
            ∷ rest
      ]

  related_rules-legacy :
      (req : SearchCall) (ids : List ℕ) → related_rules c req ids ≡ related_rules (legacy c) req ids
  unfolding related_rules
  related_rules-legacy req [] = refl
  related_rules-legacy req (id ∷ ids) =
      let hit : SearchHit = record {
        entity_id = id;
        score = 0;
        is_pinned = false;
        match_text = none;
      } in
      λ i. elim (score_hit-legacy c m (record req { project = "" }) 0 Table.rule hit i) [
        | none ↦ related_rules-legacy req ids i
        | some scored ↦
            record { kind = Table.rule; entity_id = id; is_related = true; text = scored.1 }
            ∷ related_rules-legacy req ids i
      ]

  raw_hits-legacy : (kind : EntityType) (n : ℕ) → raw_hits c kind n ≡ raw_hits (legacy c) kind n
  raw_hits-legacy kind n =
      (λ i. if c.unified then same_hits kind (n * 3) i else c.search kind (n * 3))
      ∙ if_same c.unified (c.search kind (n * 3))

  scope_block-legacy :
      (req : SearchCall) (min_rank limit : ℕ) (bump : Bool) (kind : EntityType)
      → scope_block c req min_rank limit bump kind
        ≡ scope_block (legacy c) req min_rank limit bump kind
  unfolding scope_block spread_related_rules
  scope_block-legacy req min_rank limit bump kind =
      let ranked =
        ap (λ hits. score_hits c req kind min_rank (lowest hits) (highest hits) hits)
          (raw_hits-legacy kind limit)
        ∙ score_hits-legacy req kind min_rank (lowest (raw_hits (legacy c) kind limit))
            (highest (raw_hits (legacy c) kind limit)) (raw_hits (legacy c) kind limit) in
      λ i.
        let top = take limit (sort_ranked c.value (ranked i)) in
        let ids = map (λ (r : Ranked). r.entity_id) top in
        record {
          lines =
              map (show_hit kind) top
              ++ (if is_governed kind
                  then related_rules-legacy req
                      (take limit (unseen_rules (linked_nodes c.relations ids) ids)) i
                  else []);
          ids = ids;
          bumped = if bump && counts_hits kind then ids else [];
        }

  search_scope-legacy :
      (req : SearchCall) (min_rank limit : ℕ) (several : Bool) (kind : EntityType)
      → search_scope c req min_rank limit several kind
        ≡ search_scope (legacy c) req min_rank limit several kind
  unfolding search_scope
  search_scope-legacy req min_rank limit several Table.knowledge =
      scope_block-legacy req min_rank limit true Table.knowledge
  search_scope-legacy req min_rank limit several Table.negative =
      scope_block-legacy (record req { include_archived = false }) min_rank _ false Table.negative
  search_scope-legacy req min_rank limit several Table.error =
      scope_block-legacy (record req { include_archived = false }) min_rank _ false Table.error
  search_scope-legacy req min_rank limit several Table.rule =
      scope_block-legacy (record req { project = "" }) min_rank limit true Table.rule

  search_scopes-legacy :
      (req : SearchCall) (min_rank limit : ℕ) (several : Bool) (kinds : List EntityType)
      → search_scopes c req min_rank limit several kinds
        ≡ search_scopes (legacy c) req min_rank limit several kinds
  unfolding search_scopes
  search_scopes-legacy req min_rank limit several [] = refl
  search_scopes-legacy req min_rank limit several (kind ∷ kinds) = λ i.
      (search_scope-legacy req min_rank limit several kind i).lines
      ++ search_scopes-legacy req min_rank limit several kinds i

  -- Where the entries are the rows' projections and the two indexes find the same hits, a search shows the
  -- same lines, in the same order, by the unified read path and by the legacy one.
  pub search_all_scopes-legacy :
      (req : SearchCall) (min_rank limit : ℕ) (scope : String)
      → search_all_scopes c req min_rank limit scope
        ≡ search_all_scopes (legacy c) req min_rank limit scope
  unfolding search_all_scopes
  search_all_scopes-legacy req min_rank limit scope =
      search_scopes-legacy req min_rank limit (ltb 1 (length (scope_kinds scope)))
        (scope_kinds scope)
