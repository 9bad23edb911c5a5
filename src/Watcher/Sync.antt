-- ===== src/Watcher/Sync.antt =====
-- `sync_once` of src/mcm_engine/files/watcher.py and `archive_would_storm` of
-- src/mcm_engine/destructive.py. The fraction of the guard is a quotient of two numbers.
use mcm_engine.Base.{
  ℕ, ◌+◌, ◌*◌, max, String, Bool, false, not, ◌&&◌, Option, none, some, List, [], ◌∷◌, string_eq,
  nat_eq, if◌then◌else◌, Equality, filter, length, map, contains, ltb, leb,
}
use mcm_engine.Base.Dict.{Dict}
use mcm_engine.Entries.Rows.{RuleRow, Entry}
use mcm_engine.Rules.State.{Store}
use mcm_engine.Rules.Store.{soft_delete_rule}
use mcm_engine.Watcher.Cascade.{Parsed, State, Action, upserted, unchanged, cascade_upsert}
use mcm_engine.Watcher.Links.{list_rules_with_file_paths, path_of, build_wikilink_relations}

-- `orphan_count / max(1, managed_count) > over / under`, above the floor
unfoldable pub archive_would_storm : ℕ → ℕ → ℕ → ℕ → ℕ → Bool
archive_would_storm orphan_count managed_count floor over under =
    if leb orphan_count floor
    then false
    else ltb (over * max 1 managed_count) (orphan_count * under)

pub record Counts : Type 0 where
  pub upserted_count : ℕ
  pub archived : ℕ
  pub unchanged_count : ℕ
  pub links : ℕ
  pub archive_blocked : ℕ

-- The rules directory, and the links in the files.
pub record Disk : Type 0 where
  pub rules_path_exists : Bool
  -- sorted(rules_path.rglob("*.md")), by path
  pub md_files : Dict String (Option Parsed)
  pub links_in : String → Option (List String)

-- The settings of the watcher, and what pathlib says of a path.
pub record Setting : Type 0 where
  pub archive_circuit_floor : ℕ
  pub fraction_over : ℕ
  pub fraction_under : ℕ
  pub is_managed_path : String → Bool
  pub stem : String → String

unfoldable pub managed : Setting → Store → List RuleRow
unfolding list_rules_with_file_paths
managed c s =
    filter (λ row. not row.archived && c.is_managed_path (path_of row))
      (list_rules_with_file_paths s)

abbrev pub paths {ℓ} : {V : Type ℓ} → Dict String V → List String
paths files = map (λ file. file.0) files

unfoldable pub orphans : Setting → List String → Store → List RuleRow
unfolding managed
orphans c seen s = filter (λ row. not (contains seen (path_of row))) (managed c s)

abbrev pub no_counts : Counts
no_counts = record {
  upserted_count = 0;
  archived = 0;
  unchanged_count = 0;
  links = 0;
  archive_blocked = 0;
}

unfoldable pub count_action : Action → Counts → Counts
count_action upserted n = record n { upserted_count = n.upserted_count + 1 }
count_action unchanged n = record n { unchanged_count = n.unchanged_count + 1 }

unfoldable pub link_all : Setting → Disk → Counts → State → Counts × State
unfolding build_wikilink_relations
link_all c disk n s =
    let built = build_wikilink_relations c.stem disk.links_in s.store s.relations in
    (record n { links = built.0 }, record s { relations = built.1 })

module _ {ℓ} {Digest : Type ℓ} ⦃e : Equality Digest⦄ (entry_hash : Entry → Digest) where
  unfoldable pub upsert_all :
      ℕ → Dict String (Option Parsed) → Counts → State → Option (Counts × State)
  unfolding cascade_upsert count_action
  upsert_all now [] n s = some (n, s)
  upsert_all now ((path, file) ∷ files) n s =
      elim (cascade_upsert entry_hash now path (some file) s) [
        | none ↦ none
        | some (action, after) ↦ upsert_all now files (count_action action n) after
      ]

  unfoldable pub archive_all : ℕ → List RuleRow → Store → Store
  archive_all now [] s = s
  archive_all now (row ∷ rows) s = archive_all now rows (soft_delete_rule entry_hash row.id now s)

  -- The orphans are archived, or none of them is.
  unfoldable pub reap : ℕ → Setting → List String → Counts → State → Counts × State
  unfolding archive_would_storm managed orphans archive_all
  reap now c seen n s =
      let gone = orphans c seen s.store in
      if archive_would_storm (length gone) (length (managed c s.store)) c.archive_circuit_floor
        c.fraction_over c.fraction_under
      then (record n { archive_blocked = length gone }, s)
      else (record n { archived = length gone }, record s { store = archive_all now gone s.store })

  -- `none` is an exception of the database.
  unfoldable pub sync_once : ℕ → Setting → Disk → State → Option (Counts × State)
  unfolding upsert_all reap link_all
  sync_once now c disk s =
      if not disk.rules_path_exists
      then some (no_counts, s)
      else elim (upsert_all now disk.md_files no_counts s) [
        | none ↦ none
        | some (n, after) ↦
            let reaped = reap now c (paths disk.md_files) n after in
            some (link_all c disk reaped.0 reaped.1)
      ]
