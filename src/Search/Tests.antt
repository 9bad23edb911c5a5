-- ===== src/Search/Tests.antt =====
-- A search over three linked rules, one of them recalled, by both read paths.
use mathlib.Core.List.{Memᴰ}
use mcm_engine.Base.{
  ℕ, String, Bool, true, false, Option, none, some, List, [], ◌∷◌, ◌≡◌, refl, sym, subst, ◌==◌,
  nat_eq, string_eq, if◌then◌else◌, map_option, ◌&&◌, contains,
}
use mcm_engine.Entries.Rows.{RuleRow}
use mcm_engine.Entries.Project.{Row, to_entry}
use mcm_engine.Entries.Project
use mcm_engine.Relations.Table.{EntityType, rule, entity_eq, entity_same, node_same, RelationRow}
use mcm_engine.Search.Policy.{plain, number}
use mcm_engine.Search.Score.{SearchHit, SearchCall, composite, pinned_only, score_row, score_entry}
use mcm_engine.Search.Agree.{score_entry-to_entry}
use mcm_engine.Search.Block.{Corpus, Shown, search_all_scopes}
use mcm_engine.Search.Shown.{IsMirrored, is_visible, legacy, search_all_scopes_shows}
use mcm_engine.Search.Paths.{search_all_scopes-legacy}

abbrev sample : ℕ → String → RuleRow
sample id status = record {
  id = id;
  title = "Build with ninja";
  keywords = "build";
  file_path = none;
  description = none;
  category = some "";
  hit_count = 0;
  last_hit_at = none;
  reinforcement_count = 0;
  pinned = false;
  content_hash = none;
  archived = false;
  archived_at = none;
  created_at = some 100;
  updated_at = none;
  content = none;
  created_by = some "ada";
  updated_by = none;
  correct_count = 1;
  incorrect_count = 0;
  valid_until = none;
  superseded_by = none;
  status = status;
  importance = 1;
  scope = "universal";
  kind = "directive";
  source_classification = none;
}

abbrev find_row : EntityType → ℕ → Option Row
find_row kind id =
    if kind == rule && id == 4
    then some (Project.rule (sample 4 "active"))
    else if kind == rule && id == 5
    then some (Project.rule (sample 5 "active"))
    else if kind == rule && id == 6
    then some (Project.rule (sample 6 "recalled"))
    else none

abbrev link : ℕ → ℕ → RelationRow
link source target = record {
  id = target;
  source = (rule, source);
  target = (rule, target);
  relation = "related";
  note = none;
}

abbrev found : SearchHit
found = record { entity_id = 4; score = 7; is_pinned = false; match_text = none }

abbrev indexed : EntityType → ℕ → List SearchHit
indexed kind n = if kind == rule then found ∷ [] else []

abbrev corpus : Corpus
corpus = record {
  unified = true;
  find_by_id = find_row;
  find_entry = λ kind id. map_option to_entry (find_row kind id);
  search = indexed;
  search_entries = indexed;
  relations = link 4 5 ∷ link 4 6 ∷ [];
  sources = record {
    now = 200;
    actor_weight = λ actor. 2;
    list_rule_outcomes = λ id. ("bob", true) ∷ ("ada", true) ∷ [];
    snapshot = λ kind id. record {
      hit_count = 0;
      reinforcement_count = 0;
      pinned = false;
      correct_count = 1;
      incorrect_count = 0;
    };
  };
  minmax_normalize = λ score lo hi. score;
  value = λ rank. elim rank [ composite terms expired ↦ terms.relevance | pinned_only r p ↦ r ];
}

abbrev request : SearchCall
request = record { project = ""; include_archived = false; full = false }

mirrored : IsMirrored corpus
mirrored kind id = refl

abbrev line_of : ℕ → Bool → Shown
line_of id is_related = record {
  kind = rule;
  entity_id = id;
  is_related = is_related;
  text = plain "[RULE #" ∷ number id ∷ plain "]" ∷ plain " " ∷ plain "Build with ninja" ∷ [];
}

-- The rule that is found, and of the two linked ones the one that is not recalled.
search_test :
    search_all_scopes (legacy corpus) request 0 10 "all" ≡ line_of 4 false ∷ line_of 5 true ∷ []
unfolding search_all_scopes contains node_same entity_same
search_test = refl

score_entry-to_entry_example :
    score_entry corpus.sources request 3 found (to_entry (Project.rule (sample 4 "active")))
    ≡ score_row corpus.sources request 3 found (Project.rule (sample 4 "active"))
score_entry-to_entry_example =
    score_entry-to_entry corpus.sources request 3 found (Project.rule (sample 4 "active"))

search_all_scopes-legacy_example :
    search_all_scopes corpus request 0 10 "all"
    ≡ search_all_scopes (legacy corpus) request 0 10 "all"
search_all_scopes-legacy_example =
    search_all_scopes-legacy corpus mirrored (λ kind n. refl) request 0 10 "all"

search_all_scopes_shows_example :
    (row : Row) × (find_row rule 5 ≡ some row) × (is_visible false row ≡ true)
search_all_scopes_shows_example =
    search_all_scopes_shows (legacy corpus) mirrored request 0 10 "all" (line_of 5 true)
      (subst (Memᴰ (line_of 5 true)) (sym search_test) (Memᴰ.tail (Memᴰ.head refl)))
