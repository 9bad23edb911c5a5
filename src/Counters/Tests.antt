-- ===== src/Counters/Tests.antt =====
-- A report of an outcome counted twice on a rule that has an empty category.
use mcm_engine.Base.{true, false, none, some, ◌≡◌, refl, arith}
use mcm_engine.Entries.Rows.{RuleRow, Entry}
use mcm_engine.Entries.Project.{Row, rule, to_entry}
use mcm_engine.Counters.Increment.{correct_count, increment, update_counter, copy_counter}
use mcm_engine.Counters.Mirrored.{SameEntry, increment-SameEntry}

abbrev counted_rule : RuleRow
counted_rule = record {
  id = 4;
  title = "Build with ninja";
  keywords = "build";
  file_path = some "rules/build.md";
  description = none;
  category = some "";
  hit_count = 2;
  last_hit_at = none;
  reinforcement_count = 0;
  pinned = true;
  content_hash = none;
  archived = false;
  archived_at = none;
  created_at = some 100;
  updated_at = some 120;
  content = none;
  created_by = none;
  updated_by = none;
  correct_count = 0;
  incorrect_count = 0;
  valid_until = none;
  superseded_by = none;
  status = "active";
  importance = 1;
  scope = "conditional";
  kind = "directive";
  source_classification = none;
}

abbrev after : Row
after = update_counter correct_count 2 130 (rule counted_rule)

abbrev mirror : Entry
mirror = copy_counter correct_count after (to_entry (rule counted_rule))

increment_test :
    increment correct_count 2 130 (rule counted_rule) (to_entry (rule counted_rule))
    ≡ some (after, mirror)
unfolding increment
increment_test = refl

increment-SameEntry_example : SameEntry mirror (to_entry after)
increment-SameEntry_example =
    increment-SameEntry correct_count 2 130 (rule counted_rule) after (to_entry (rule counted_rule))
      mirror (omega arith) (record { columns = refl; facets = λ k. refl }) increment_test
