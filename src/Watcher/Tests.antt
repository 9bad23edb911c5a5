-- ===== src/Watcher/Tests.antt =====
-- A directory of two rules, and the theorems at it. The digest of an entry is its title.
use mcm_engine.Base.{
  ◌⊎◌, ◌≡◌, refl, String, Bool, true, false, some, none, [], ◌∷◌, string_eq, nat_eq, contains, ◌==◌,
}
use mcm_engine.Base.Dict.{get, put, Distinct}
use mcm_engine.Entries.Rows.{RuleRow, Entry}
use mcm_engine.Rules.State.{empty_store}
use mcm_engine.Rules.Mirror.{mirror_entry}
use mcm_engine.Rules.Store.{soft_delete_rule}
use mcm_engine.Rules.Query.{IsTable}
use mcm_engine.Watcher.Cascade.{Parsed, State, row_of_file}
use mcm_engine.Watcher.Sync.{Counts, Disk, Setting, no_counts, upsert_all, sync_once, paths}
use mcm_engine.Watcher.Schedule.{Op, created, deleted, moved, on_events}
use mcm_engine.Watcher.Fired.{last_asked, on_events_last}
use mcm_engine.Watcher.Again.{sync_once_again}
use mcm_engine.Watcher.Safe.{SweptWithin, sync_once_recalled, sync_once_bounded}

abbrev title_hash : Entry → String
title_hash entry = entry.title

abbrev build_file : Parsed
build_file = record {
  title = "Build";
  keywords = some "build";
  description = none;
  category = none;
  content_hash = "h1";
}

abbrev disk : Disk
disk = record {
  rules_path_exists = true;
  md_files =
      ("rules/build.md", some build_file)
      ∷ ("rules/test.md", some (record build_file { title = "Test" }))
      ∷ ("rules/notes.md", none)
      ∷ [];
  links_in = λ path. some ("rules/test.md" ∷ []);
}

abbrev empty_disk : Disk
empty_disk = record disk { md_files = [] }

abbrev setting : Setting
setting = record {
  archive_circuit_floor = 5;
  fraction_over = 1;
  fraction_under = 2;
  is_managed_path = λ path. true;
  stem = λ path. path;
}

abbrev recalled_row : RuleRow
unfolding row_of_file
recalled_row = record (row_of_file "rules/build.md" build_file) {
  id = 1;
  status = "recalled";
  content_hash = some "h0";
}

abbrev start : State
start = record {
  store = record empty_store { rules = (1, recalled_row) ∷ [] };
  relations = [];
  cascade_count = 0;
}

abbrev wiped : State
wiped = record start { store = soft_delete_rule title_hash 1 9 start.store }

is_table : IsTable start.store.rules
unfolding get recalled_row
is_table = record { distinct = (refl, tt); keyed = (refl, tt) }

disk-Distinct : Distinct disk.md_files
unfolding get
disk-Distinct = (refl, (refl, (refl, tt)))

is_recalled : (recalled_row.status == "recalled") ≡ true
unfolding recalled_row
is_recalled = refl

has_its_path : recalled_row.file_path ≡ some "rules/build.md"
unfolding recalled_row row_of_file
has_its_path = refl

is_there : contains (paths disk.md_files) "rules/build.md" ≡ true
unfolding contains
is_there = refl

is_stored : get start.store.rules 1 ≡ some recalled_row
unfolding get
is_stored = refl

sync_once_again_example :
    (n : Counts) × (m : Counts) × (t : State) × (sync_once title_hash 5 setting disk start
      ≡ some (n, t))
    × (sync_once title_hash 9 setting disk t ≡ some (m, t))
    × (m.upserted_count ≡ 0)
    × (m.archived ≡ 0)
    × (m.links ≡ 0)
sync_once_again_example = sync_once_again title_hash 5 9 setting disk start is_table disk-Distinct

sync_once_recalled_example :
    (n : Counts) × (t : State) × (sync_once title_hash 5 setting disk start ≡ some (n, t))
    × (get t.store.rules 1 ≡ some recalled_row)
sync_once_recalled_example =
    sync_once_recalled title_hash 5 setting disk start 1 recalled_row "rules/build.md" is_table
      disk-Distinct is_stored is_recalled has_its_path is_there

is_wiped :
    sync_once title_hash 9 setting empty_disk start
    ≡ some (record no_counts { archived = 1 }, wiped)
unfolding sync_once contains soft_delete_rule mirror_entry get put
is_wiped = refl

sync_once_bounded_example :
    (n : Counts) × (t : State) × (sync_once title_hash 9 setting empty_disk start ≡ some (n, t))
    × (((true ≡ false) × (n ≡ no_counts) × (t ≡ start))
        ⊎ ((m : Counts) × (after : State) × (upsert_all title_hash 9 [] no_counts start
              ≡ some (m, after))
            × SweptWithin setting empty_disk after.store n t.store))
sync_once_bounded_example = sync_once_bounded title_hash 9 setting empty_disk start is_table tt

abbrev is_rule : String → Bool
is_rule path = true

on_events_last_example :
    get
      (on_events is_rule
        (created "rules/a.md" ∷ deleted "rules/b.md" ∷ moved "rules/a.md" "rules/b.md" ∷ [])
        [])
      "rules/b.md"
    ≡ (elim (last_asked
        (created "rules/a.md" ∷ deleted "rules/b.md" ∷ moved "rules/a.md" "rules/b.md" ∷ [])
        "rules/b.md") [ none ↦ get {K = String} {V = Op} [] "rules/b.md" | some op ↦ some op ])
on_events_last_example =
    on_events_last is_rule
      (created "rules/a.md" ∷ deleted "rules/b.md" ∷ moved "rules/a.md" "rules/b.md" ∷ [])
      "rules/b.md" [] refl
