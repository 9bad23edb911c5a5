-- ===== src/Entries/Tests.antt =====
-- A row with an empty text, through the projection and back.
use mcm_engine.Base.{◌≡◌, refl, true, false, none, some, [], ◌∷◌}
use mcm_engine.Base.Dict.{put}
use mcm_engine.Entries.Rows.{RuleRow, text, number}
use mcm_engine.Entries.Facets.{keep, put_if}
use mcm_engine.Entries.Project.{rule, to_entry, rule_facets}
use mcm_engine.Entries.Restore.{from_entry}
use mcm_engine.Entries.RoundTrip.{canonical, from_entry-to_entry}

abbrev pinned_rule : RuleRow
pinned_rule = record {
  id = 4;
  title = "Build with ninja";
  keywords = "build";
  file_path = some "rules/build.md";
  description = none;
  category = some "";
  hit_count = 2;
  last_hit_at = none;
  reinforcement_count = 0;
  pinned = true;
  content_hash = none;
  archived = false;
  archived_at = none;
  created_at = some 100;
  updated_at = some 120;
  content = none;
  created_by = none;
  updated_by = none;
  correct_count = 3;
  incorrect_count = 0;
  valid_until = none;
  superseded_by = none;
  status = "active";
  importance = 1;
  scope = "conditional";
  kind = "directive";
  source_classification = none;
}

facets_of_rule :
    rule_facets pinned_rule
    ≡ ("file_path", text "rules/build.md")
      ∷ ("correct_count", number 3)
      ∷ ("importance", number 1)
      ∷ []
unfolding rule_facets keep put_if put
facets_of_rule = refl

-- The empty category comes back absent.
from_entry-to_entry_example :
    from_entry (to_entry (rule pinned_rule)) ≡ some (canonical (rule pinned_rule))
from_entry-to_entry_example = from_entry-to_entry (rule pinned_rule)
