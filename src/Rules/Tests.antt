-- ===== src/Rules/Tests.antt =====
-- A history of the rule store, and the theorems at it. The digest of the runs is the entry's title,
-- and a moment is written in digits.
use mcm_engine.Rules.Listing.{
  InOrder, IsWanted, is_before, list_rules, list_rules_sound, list_rules_complete,
}
use mcm_engine.Rules.Query.{IsTable}
use mcm_engine.Rules.Restore.{is_archived, restore_tool, restore_tool_restores}
use mcm_engine.Base.{
  Bool, inr, arith, ◌==◌, All, length, filter, map, ℕ, String, true, false, none, some, List, [],
  ◌∷◌, ◌≡◌, refl, nat_eq, string_eq, show_nat, contains, not, ◌&&◌, ◌||◌,
}
use mcm_engine.Base.Dict.{get, put}
use mcm_engine.Entries.Rows.{RuleRow, Entry}
use mcm_engine.Rules.State.{Store, empty_store}
use mcm_engine.Rules.Commands.{Command, insert, update, outcome, supersede, run}
use mcm_engine.Rules.Sync.{SyncedAt, RowAt, EntryAt, IsSynced}
use mcm_engine.Rules.Chains.{state_of, IsLinked}
use mcm_engine.Rules.History.{
  act, act_all, act_all-IsSynced, act_all-IsLinked, IsLinked-empty_store,
}
use mcm_engine.Rules.Store.{record_outcome, update_rule, insert_rule, supersede_rule}
use mcm_engine.Rules.Mirror.{mirror_entry}
use mcm_engine.Rules.Tools.{supersede_tool, report_outcome, is_self_report}
use mcm_engine.Rules.Reports.{credited, occurrences, reports_counted}

abbrev title_hash : Entry → String
title_hash entry = entry.title

abbrev blank : RuleRow
blank = record {
  id = 0;
  title = "";
  keywords = "";
  file_path = none;
  description = none;
  category = none;
  hit_count = 0;
  last_hit_at = none;
  reinforcement_count = 0;
  pinned = false;
  content_hash = none;
  archived = false;
  archived_at = none;
  created_at = some 0;
  updated_at = some 0;
  content = none;
  created_by = some "ann";
  updated_by = none;
  correct_count = 0;
  incorrect_count = 0;
  valid_until = none;
  superseded_by = none;
  status = "active";
  importance = 0;
  scope = "conditional";
  kind = "fact";
  source_classification = none;
}

-- Two rules, the first superseded by the second; the supersession back is refused.
abbrev history : List (ℕ × Command)
history =
    (10, insert (record blank { title = "Use make" }))
    ∷ (11, insert (record blank { title = "Use ninja" }))
    ∷ (12, supersede 1 2 "ann")
    ∷ (13, supersede 2 1 "bob")
    ∷ (14, update 2 (("title", some "Use ninja 1.11") ∷ []))
    ∷ (15, outcome 2 "bob" true true)
    ∷ []

IsSynced-empty_store : IsSynced title_hash empty_store
unfolding SyncedAt RowAt EntryAt get
IsSynced-empty_store = record { at_id = λ id. (tt, tt, refl) }

act_all-IsSynced_example : IsSynced title_hash (act_all title_hash show_nat history empty_store)
act_all-IsSynced_example =
    act_all-IsSynced title_hash show_nat history empty_store IsSynced-empty_store

act_all-IsLinked_example : IsLinked (act_all title_hash show_nat history empty_store)
act_all-IsLinked_example =
    act_all-IsLinked title_hash show_nat history empty_store IsLinked-empty_store

abbrev one_rule : Store
one_rule = record empty_store { rules = (1, record blank { id = 1 }) ∷ [] }

reports_counted_example :
    get (report_outcome title_hash (1 ∷ 1 ∷ []) "bob" true 20 one_rule).1.rules 1
    ≡ some (
        credited
          (occurrences 1 (1 ∷ 1 ∷ []))
          (is_self_report "bob" (record blank { id = 1 }))
          true
          (record blank { id = 1 }))
unfolding get
reports_counted_example =
    reports_counted title_hash (1 ∷ 1 ∷ []) 1 "bob" true 20 (record blank { id = 1 }) one_rule refl

history_states :
    (state_of (act_all title_hash show_nat history empty_store) 1 ≡ some (true, some 2))
    × (state_of (act_all title_hash show_nat history empty_store) 2 ≡ some (false, none))
unfolding state_of act_all act get put run record_outcome mirror_entry update_rule contains
    supersede_tool insert_rule supersede_rule
history_states = (refl, refl)

-- The rule that is superseded and one of more weight.
abbrev two_rules : Store
two_rules = record empty_store {
  rules =
      (1, record blank { id = 1; status = "superseded" })
      ∷ (2, record blank { id = 2; importance = 2 })
      ∷ (3, record blank { id = 3; importance = 2; status = "recalled" })
      ∷ [];
}

list_rules_sound_example :
    InOrder (list_rules false 0 (some 5) two_rules)
    × All (IsWanted false 0) (list_rules false 0 (some 5) two_rules)
list_rules_sound_example = list_rules_sound false 0 (some 5) two_rules

abbrev live : RuleRow → Bool
live row = not (row.status == "recalled") && not row.archived

list_rules_complete_example :
    length (filter live (list_rules false 0 none two_rules))
    ≡ length (filter live (map (λ (entry : ℕ × RuleRow). entry.1) two_rules.rules))
list_rules_complete_example =
    list_rules_complete false 0 live two_rules
      (λ row h. (omega arith, ground (arith, h), inr (ground (arith, h))))

listed_order : map (λ row. row.id) (list_rules false 0 none two_rules) ≡ 2 ∷ 1 ∷ []
unfolding list_rules is_before
listed_order = refl

-- An archived rule and a live one.
abbrev archive : Store
archive = record empty_store {
  rules = (1, record blank { id = 1; archived = true }) ∷ (2, record blank { id = 2 }) ∷ [];
}

archive-IsTable : IsTable archive.rules
unfolding get
archive-IsTable = record { distinct = (refl, (refl, tt)); keyed = (refl, (refl, tt)) }

abbrev asked : List ℕ
asked = 2 ∷ []

restore_tool_restores_example :
    (is_archived (restore_tool title_hash asked true "bob" 30 archive).1.rules 1
      ≡ (is_archived archive.rules 1 && not (true || contains asked 1)))
    × (contains (restore_tool title_hash asked true "bob" 30 archive).0 1
        ≡ (is_archived archive.rules 1 && (true || contains asked 1)))
restore_tool_restores_example =
    restore_tool_restores title_hash asked true "bob" 30 archive 1 archive-IsTable
