-- ===== src/Counters/Increment.antt =====
-- `increment` of src/mcm_engine/adapters/sqlite/counters.py on the row of a rule or of knowledge and on its
-- entry, which is written through. A flag that the database holds as a number is a Boolean. A call that
-- names no column of the table is a ValueError, and `none` here.
use mcm_engine.Base.{
  ℕ, ◌+◌, Bool, true, false, not, ◌||◌, Option, none, some, ◌==◌, nat_eq, string_eq, if◌then◌else◌,
}
use mcm_engine.Base.Dict.{put}
use mcm_engine.Entries.Rows.{RuleRow, Entry, number}
use mcm_engine.Entries.Project.{Row, knowledge, negative, error, rule}

pub data Counter : Type 0 where
  hit_count reinforcement_count pinned last_hit_at correct_count incorrect_count : Counter

-- `_COUNTER_COLUMNS`
unfoldable pub has_column : Row → Counter → Bool
has_column (rule row) counter = true
has_column (knowledge row) correct_count = false
has_column (knowledge row) incorrect_count = false
has_column (knowledge row) _ = true
has_column (negative row) pinned = true
has_column (negative row) _ = false
has_column (error row) pinned = true
has_column (error row) _ = false

-- The flag plus `by`
abbrev pub raise_flag : Bool → ℕ → Bool
raise_flag flag by = flag || not (by == 0)

unfoldable pub update_rule_row : Counter → ℕ → ℕ → RuleRow → RuleRow
update_rule_row hit_count by now row = record row { hit_count = row.hit_count + by }
update_rule_row reinforcement_count by now row = record row {
  reinforcement_count = row.reinforcement_count + by;
}
update_rule_row pinned by now row = record row { pinned = raise_flag row.pinned by }
update_rule_row last_hit_at by now row = record row { last_hit_at = some now }
update_rule_row correct_count by now row = record row { correct_count = row.correct_count + by }
update_rule_row incorrect_count by now row = record row {
  incorrect_count = row.incorrect_count + by;
}

unfoldable pub update_counter : Counter → ℕ → ℕ → Row → Row
unfolding update_rule_row
update_counter counter by now (rule row) = rule (update_rule_row counter by now row)
update_counter hit_count by now (knowledge row) =
    knowledge (record row { hit_count = row.hit_count + by })
update_counter reinforcement_count by now (knowledge row) =
    knowledge (record row { reinforcement_count = row.reinforcement_count + by })
update_counter pinned by now (knowledge row) =
    knowledge (record row { pinned = raise_flag row.pinned by })
update_counter last_hit_at by now (knowledge row) =
    knowledge (record row { last_hit_at = some now })
update_counter pinned by now (negative row) =
    negative (record row { pinned = raise_flag row.pinned by })
update_counter pinned by now (error row) = error (record row { pinned = raise_flag row.pinned by })
update_counter _ by now row = row

-- The value of the row, copied to the entry: a count of outcomes into the facets, the others to columns.
unfoldable pub copy_rule_counter : Counter → RuleRow → Entry → Entry
unfolding put
copy_rule_counter hit_count row e = record e { hit_count = row.hit_count }
copy_rule_counter reinforcement_count row e = record e {
  reinforcement_count = row.reinforcement_count;
}
copy_rule_counter pinned row e = record e { pinned = row.pinned }
copy_rule_counter last_hit_at row e = record e { last_hit_at = row.last_hit_at }
copy_rule_counter correct_count row e = record e {
  facets = put e.facets "correct_count" (number row.correct_count);
}
copy_rule_counter incorrect_count row e = record e {
  facets = put e.facets "incorrect_count" (number row.incorrect_count);
}

unfoldable pub copy_counter : Counter → Row → Entry → Entry
unfolding copy_rule_counter
copy_counter counter (rule row) e = copy_rule_counter counter row e
copy_counter hit_count (knowledge row) e = record e { hit_count = row.hit_count }
copy_counter reinforcement_count (knowledge row) e = record e {
  reinforcement_count = row.reinforcement_count;
}
copy_counter pinned (knowledge row) e = record e { pinned = row.pinned }
copy_counter last_hit_at (knowledge row) e = record e { last_hit_at = row.last_hit_at }
copy_counter pinned (negative row) e = record e { pinned = row.pinned }
copy_counter pinned (error row) e = record e { pinned = row.pinned }
copy_counter _ row e = e

unfoldable pub increment : Counter → ℕ → ℕ → Row → Entry → Option (Row × Entry)
unfolding has_column update_counter copy_counter
increment counter by now row e =
    if not (has_column row counter)
    then none
    else let after = update_counter counter by now row in some (after, copy_counter counter after e)
