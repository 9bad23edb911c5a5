-- ===== src/Hooks/Tests.antt =====
-- Runs of the hook, and its theorems at concrete inputs.
use mcm_engine.Base.{
  contains, or_text, none, if◌then◌else◌, ◌%◌, ◌==◌, ◌≡◌, ◌+◌, ◌/◌, refl, true, false, some, [],
  ◌∷◌, arith, nat_eq, string_eq, lower, strip,
}
use mcm_engine.Base.Dict.{get}
use mcm_engine.Hooks.State.{SessionState, new_state}
use mcm_engine.Hooks.Decide.{decide, IsStreak, expected, decide_once, decide-IsStreak}
use mcm_engine.Hooks.Coverage.{
  coverage_key, record_topic, note_compaction, is_covered, prune_topics, compaction_evicts,
  is_covered-prune_topics,
}
use mcm_engine.Hooks.Classify.{is_mutator, normalize_builtin_tool}
use mcm_engine.Hooks.Fixation.{ToolInput, mutator_path, fixation_check, edits, edits_counted}

-- Seven calls since the last read, and one lookup.
abbrev busy : SessionState
busy = record (new_state 100) {
  builtin_calls = 7;
  mutator_calls = 3;
  covered_topics = ("build", 150) ∷ [];
}

IsStreak-busy : IsStreak busy
IsStreak-busy = record { edits = omega arith; warned = refl; gapped = refl }

decide_once_example :
    ((decide "Edit" 200 busy).exit_code ≡ 0)
    × ((decide "Edit" 200 busy).notice ≡ expected "Edit" busy)
decide_once_example = decide_once "Edit" 200 busy IsStreak-busy

decide-IsStreak_example : IsStreak (decide "Edit" 200 busy).state
decide-IsStreak_example = decide-IsStreak "Edit" 200 busy IsStreak-busy

compaction_evicts_example :
    (is_covered "build" 300 86400 true (note_compaction 210 (record_topic "build" 200 busy))
      ≡ false)
    × (is_covered "build" 300 86400 true
          (record_topic "build" 220 (note_compaction 210 (record_topic "build" 200 busy)))
        ≡ true)
unfolding coverage_key lower strip
compaction_evicts_example =
    compaction_evicts "build" 200 210 220 300 86400 busy refl (omega arith) (omega arith)
      (omega arith) (omega arith)

is_covered-prune_topics_example :
    is_covered "build" 90000 86400 true (prune_topics 86600 86400 busy)
    ≡ is_covered "build" 90000 86400 true busy
unfolding get
is_covered-prune_topics_example =
    is_covered-prune_topics "build" 86600 90000 86400 true busy (refl, tt) (omega arith)

abbrev notebook : ToolInput
notebook = record { file_path = "a.py"; path = ""; notebook_path = "" }

-- The sixteenth edit in a row.
edits_counted_example :
    ((fixation_check 8 "Edit" notebook (edits 8 "Edit" notebook 15 busy)).0
      ≡ (if 16 % 8 == 0 then some 16 else none))
    × ((edits 8 "Edit" notebook 16 busy).fixation_locus ≡ some "a.py")
    × ((edits 8 "Edit" notebook 16 busy).fixation_run ≡ 16)
    × ((edits 8 "Edit" notebook 16 busy).fixation_events ≡ busy.fixation_events + 16 / 8)
unfolding mutator_path is_mutator normalize_builtin_tool contains lower or_text
edits_counted_example =
    edits_counted 8 15 "Edit" notebook "a.py" busy (omega arith) refl (λ p. ground arith)
