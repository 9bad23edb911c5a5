-- ===== src/Search/Shown.antt =====
-- What the search of src/mcm_engine/tools/search.py shows, by either read path.
use mathlib.Core.List.{Memᴰ}
use mathlib.Core.List.Memᴰ
use mcm_engine.Base.{
  ℕ, String, Bool, true, false, not, ◌&&◌, ◌||◌, Option, none, some, List, [], ◌∷◌, ◌==◌, ◌≡◌, refl,
  sym, ap, ◌∙◌, string_eq, nat_eq, if◌then◌else◌, arith, Bool-cases, Option-cases, inl, inr, subst,
  map, map_option, take, ltb, length,
}
use mcm_engine.Entries.Rows.{Entry}
use mcm_engine.Entries.Project.{Row, knowledge, negative, error, rule, to_entry}
use mcm_engine.Relations.Table
use mcm_engine.Relations.Table.{EntityType}
use mcm_engine.Relations.Step.{Memᴰ-map}
use mcm_engine.Search.Score.{SearchHit, Sources, SearchCall, Scored, score_row, score_entry}
use mcm_engine.Search.Agree.{score_entry-to_entry}
use mcm_engine.Search.Ranking.{take-Memᴰ, sort_ranked-Memᴰ}
use mcm_engine.Search.Block.{
  Corpus, Ranked, Shown, score_hit, score_hits, related_rules, scope_block, search_scope,
  search_scopes, sort_ranked, spread_related_rules, raw_hits, lowest, highest, show_hit,
  is_governed, scope_kinds, search_all_scopes,
}

-- Whether a row may be shown: a recalled rule never, an archived rule and a superseded rule or knowledge
-- where the call includes the archived.
unfoldable pub is_visible : Bool → Row → Bool
is_visible include_archived (knowledge row) = include_archived || not (row.status == "superseded")
is_visible include_archived (negative row) = true
is_visible include_archived (error row) = true
is_visible include_archived (rule row) =
    not (row.status == "recalled")
    && (include_archived || not row.archived && not (row.status == "superseded"))

score_row-is_visible :
    (src : Sources) (req : SearchCall) (relevance : ℕ) (hit : SearchHit) (row : Row) (s : Scored)
    → score_row src req relevance hit row ≡ some s
    → is_visible req.include_archived row ≡ true
unfolding is_visible score_row
score_row-is_visible src req relevance hit (knowledge row) s h = ground (arith, h)
score_row-is_visible src req relevance hit (negative row) s h = refl
score_row-is_visible src req relevance hit (error row) s h = refl
score_row-is_visible src req relevance hit (rule row) s h = ground (arith, h)

-- The entries are the rows' projections.
abbrev pub IsMirrored : Corpus → Type 0
IsMirrored c =
    (kind : EntityType) (id : ℕ) → c.find_entry kind id ≡ map_option to_entry (c.find_by_id kind id)

pub if_same {ℓ} : {A : Type ℓ} (b : Bool) (a : A) → (if b then a else a) ≡ a
if_same true a = refl
if_same false a = refl

-- The same corpus, read by the legacy path.
abbrev pub legacy : Corpus → Corpus
legacy c = record c { unified = false }

module _ (c : Corpus) (m : IsMirrored c) where
  mirrored_score :
      (req : SearchCall) (relevance : ℕ) (hit : SearchHit) (o : Option Row)
      → (elim (map_option to_entry o) as (λ x. Option Scored) [
        | none ↦ none
        | some e ↦ score_entry c.sources req relevance hit e
      ])
        ≡ (elim o as (λ x. Option Scored) [
          | none ↦ none
          | some row ↦ score_row c.sources req relevance hit row
        ])
  mirrored_score req relevance hit none = refl
  mirrored_score req relevance hit (some row) = score_entry-to_entry c.sources req relevance hit row

  -- By either path a hit is scored as its row is.
  pub score_hit-legacy :
      (req : SearchCall) (relevance : ℕ) (kind : EntityType) (hit : SearchHit)
      → score_hit c req relevance kind hit ≡ score_hit (legacy c) req relevance kind hit
  unfolding score_hit
  score_hit-legacy req relevance kind hit =
      let row_score = score_hit (legacy c) req relevance kind hit in
      let entry_score =
        ap
          (λ (o : Option Entry). elim o as (λ x. Option Scored) [
            | none ↦ none
            | some e ↦ score_entry c.sources req relevance hit e
          ])
          (m kind hit.entity_id)
        ∙ mirrored_score req relevance hit (c.find_by_id kind hit.entity_id) in
      (λ i. if c.unified then entry_score i else row_score) ∙ if_same c.unified row_score

  IsShown : Bool → EntityType → ℕ → Type 0
  IsShown include_archived kind id =
      (row : Row) × (c.find_by_id kind id ≡ some row) × (is_visible include_archived row ≡ true)

  score_hit-IsShown :
      (req : SearchCall) (relevance : ℕ) (kind : EntityType) (hit : SearchHit) (s : Scored)
      → score_hit c req relevance kind hit ≡ some s
      → IsShown req.include_archived kind hit.entity_id
  unfolding score_hit IsShown
  score_hit-IsShown req relevance kind hit s h =
      let h' = sym (score_hit-legacy req relevance kind hit) ∙ h in
      elim (Option-cases (c.find_by_id kind hit.entity_id)) [
        | inl gone ↦ absurd (cc (rw (score_hit, gone) at h'))
        | inr (row, found) ↦ (
          row,
          found,
          score_row-is_visible c.sources req relevance hit row s (rw (score_hit, found) at h'),
        )
      ]

  score_hits-IsShown :
      (req : SearchCall) (kind : EntityType) (min_rank lo hi : ℕ) (hits : List SearchHit)
      (r : Ranked)
      → Memᴰ r (score_hits c req kind min_rank lo hi hits)
      → IsShown req.include_archived kind r.entity_id
  unfolding score_hits
  score_hits-IsShown req kind min_rank lo hi [] r k = absurd (Memᴰ.not-nil k)
  score_hits-IsShown req kind min_rank lo hi (hit ∷ hits) r k =
      let rest = score_hits-IsShown req kind min_rank lo hi hits r in
      let relevance = c.minmax_normalize hit.score lo hi in
      elim (Bool-cases (ltb hit.score min_rank)) [
        | inl low ↦ rest (rw (score_hits, low) at k)
        | inr high ↦ elim (Option-cases (score_hit c req relevance kind hit)) [
          | inl gone ↦ rest (rw (score_hits, high, gone) at k)
          | inr (s, there) ↦ elim (Memᴰ.cases_cons (rw (score_hits, high, there) at k)) [
            | inr n ↦ rest n
            | inl e ↦
                subst (IsShown req.include_archived kind) (sym (ap (λ (x : Ranked). x.entity_id) e))
                  (score_hit-IsShown req relevance kind hit s there)
          ]
        ]
      ]

  related_rules-IsShown :
      (req : SearchCall) (ids : List ℕ) (line : Shown)
      → Memᴰ line (related_rules c req ids)
      → IsShown req.include_archived line.kind line.entity_id
  unfolding related_rules IsShown
  related_rules-IsShown req [] line k = absurd (Memᴰ.not-nil k)
  related_rules-IsShown req (id ∷ ids) line k =
      let hit : SearchHit = record {
        entity_id = id;
        score = 0;
        is_pinned = false;
        match_text = none;
      } in
      let call = record req { project = "" } in
      elim (Option-cases (score_hit c call 0 Table.rule hit)) [
        | inl gone ↦ related_rules-IsShown req ids line (rw (related_rules, gone) at k)
        | inr (s, there) ↦ elim (Memᴰ.cases_cons (rw (related_rules, there) at k)) [
          | inr n ↦ related_rules-IsShown req ids line n
          | inl e ↦
              subst (λ (x : Shown). IsShown req.include_archived x.kind x.entity_id) (sym e)
                (score_hit-IsShown call 0 Table.rule hit s there)
        ]
      ]

  scope_block-IsShown :
      (req : SearchCall) (min_rank limit : ℕ) (bump : Bool) (kind : EntityType) (line : Shown)
      → Memᴰ line (scope_block c req min_rank limit bump kind).lines
      → IsShown req.include_archived line.kind line.entity_id
  unfolding scope_block spread_related_rules
  scope_block-IsShown req min_rank limit bump kind line k =
      let hits = raw_hits c kind limit in
      let scored = score_hits c req kind min_rank (lowest hits) (highest hits) hits in
      let top = take limit (sort_ranked c.value scored) in
      elim (Memᴰ.append_cases (map (show_hit kind) top) k) [
        | inl n ↦
            let (r, n', e) = Memᴰ-map (show_hit kind) top line n in
            subst (λ (x : Shown). IsShown req.include_archived x.kind x.entity_id) (sym e)
              (score_hits-IsShown req kind min_rank (lowest hits) (highest hits) hits r (
                sort_ranked-Memᴰ c.value scored r
                  (take-Memᴰ limit (sort_ranked c.value scored) r n')))
        | inr n ↦ elim (Bool-cases (is_governed kind)) [
          | inl g ↦ related_rules-IsShown req _ line (
              subst
                (λ b. Memᴰ line (
                  if b
                  then spread_related_rules c req limit (map (λ (r : Ranked). r.entity_id) top)
                  else []))
                g n)
          | inr g ↦ absurd (
              Memᴰ.not-nil (
                subst
                  (λ b. Memᴰ line (
                    if b
                    then spread_related_rules c req limit (map (λ (r : Ranked). r.entity_id) top)
                    else []))
                  g n))
        ]
      ]

  wider :
      (include_archived : Bool) (kind : EntityType) (id : ℕ)
      → IsShown false kind id
      → IsShown include_archived kind id
  unfolding IsShown is_visible
  wider include_archived kind id (knowledge row, found, v) =
      (knowledge row, found, ground (arith, v))
  wider include_archived kind id (negative row, found, v) = (negative row, found, refl)
  wider include_archived kind id (error row, found, v) = (error row, found, refl)
  wider include_archived kind id (rule row, found, v) = (rule row, found, ground (arith, v))

  search_scope-IsShown :
      (req : SearchCall) (min_rank limit : ℕ) (several : Bool) (kind : EntityType) (line : Shown)
      → Memᴰ line (search_scope c req min_rank limit several kind).lines
      → IsShown req.include_archived line.kind line.entity_id
  unfolding search_scope
  search_scope-IsShown req min_rank limit several Table.knowledge line k =
      scope_block-IsShown req min_rank limit true _ line k
  search_scope-IsShown req min_rank limit several Table.negative line k =
      wider req.include_archived _ _
        (scope_block-IsShown (record req { include_archived = false }) min_rank _ false _ line k)
  search_scope-IsShown req min_rank limit several Table.error line k =
      wider req.include_archived _ _
        (scope_block-IsShown (record req { include_archived = false }) min_rank _ false _ line k)
  search_scope-IsShown req min_rank limit several Table.rule line k =
      scope_block-IsShown (record req { project = "" }) min_rank limit true _ line k

  search_scopes-IsShown :
      (req : SearchCall) (min_rank limit : ℕ) (several : Bool) (kinds : List EntityType)
      (line : Shown)
      → Memᴰ line (search_scopes c req min_rank limit several kinds)
      → IsShown req.include_archived line.kind line.entity_id
  unfolding search_scopes
  search_scopes-IsShown req min_rank limit several [] line k = absurd (Memᴰ.not-nil k)
  search_scopes-IsShown req min_rank limit several (kind ∷ kinds) line k =
      elim (Memᴰ.append_cases (search_scope c req min_rank limit several kind).lines k) [
        | inl n ↦ search_scope-IsShown req min_rank limit several kind line n
        | inr n ↦ search_scopes-IsShown req min_rank limit several kinds line n
      ]

  -- Where the entries are the rows' projections, each line of a search, of a hit or of a related rule, by
  -- either read path, is of a row that is there and may be shown: no recalled rule, and no archived rule
  -- and no superseded rule or knowledge unless the call includes the archived.
  pub search_all_scopes_shows :
      (req : SearchCall) (min_rank limit : ℕ) (scope : String) (line : Shown)
      → Memᴰ line (search_all_scopes c req min_rank limit scope)
      → (row : Row) × (c.find_by_id line.kind line.entity_id ≡ some row)
        × (is_visible req.include_archived row ≡ true)
  unfolding search_all_scopes IsShown
  search_all_scopes_shows req min_rank limit scope line k =
      search_scopes-IsShown req min_rank limit (ltb 1 (length (scope_kinds scope)))
        (scope_kinds scope) line k
