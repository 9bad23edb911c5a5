-- ===== src/Watcher/Links.antt =====
-- `build_wikilink_relations` of src/mcm_engine/rules_links.py. `stem` and `is_managed_path` of a path are
-- pathlib's; what `extract_wikilinks` finds in a file is data, `none` where it cannot be read.
use mcm_engine.Base.{
  ℕ, ◌+◌, String, Bool, false, not, ◌&&◌, Option, none, some, List, [], ◌∷◌, ◌==◌, ◌++◌, nat_eq,
  string_eq, if◌then◌else◌, filter, any, map, or_else,
}
use mcm_engine.Base.Dict.{Dict, get, put}
use mcm_engine.Entries.Rows.{RuleRow}
use mcm_engine.Rules.State.{Store}

unfoldable pub has_path : RuleRow → Bool
has_path row = elim row.file_path [ none ↦ false | some path ↦ not (path == "") ]

-- `list_rules_with_file_paths`
unfoldable pub list_rules_with_file_paths : Store → List RuleRow
unfolding has_path
list_rules_with_file_paths s = filter has_path (map (λ entry. entry.1) s.rules)

abbrev pub path_of : RuleRow → String
path_of row = or_else row.file_path ""

-- `insert_relation` of the source and the target, refused where it is there.
unfoldable pub insert_relation : ℕ × ℕ → List (ℕ × ℕ) → Option (List (ℕ × ℕ))
insert_relation link relations =
    if any (λ other. other.0 == link.0 && other.1 == link.1) relations
    then none
    else some (link ∷ relations)

-- The loop over the links, with the number of new ones.
unfoldable pub insert_links : List (ℕ × ℕ) → List (ℕ × ℕ) → ℕ × List (ℕ × ℕ)
unfolding insert_relation
insert_links [] relations = (0, relations)
insert_links (link ∷ links) relations = elim (insert_relation link relations) [
  | none ↦ insert_links links relations
  | some more ↦ let rest = insert_links links more in (rest.0 + 1, rest.1)
]

unfoldable pub slug_to_id : (String → String) → List RuleRow → Dict String ℕ → Dict String ℕ
slug_to_id stem [] slugs = slugs
slug_to_id stem (row ∷ rows) slugs = slug_to_id stem rows (put slugs (stem (path_of row)) row.id)

-- The resolved links of one file: those to a known rule that is another one.
unfoldable pub links_from : Dict String ℕ → ℕ → List String → List (ℕ × ℕ)
links_from slugs rule_id [] = []
links_from slugs rule_id (slug ∷ targets) =
    let rest = links_from slugs rule_id targets in
    elim (get slugs slug) [
      | none ↦ rest
      | some target_id ↦ if target_id == rule_id then rest else (rule_id, target_id) ∷ rest
    ]

unfoldable pub links_of :
    (String → Option (List String)) → Dict String ℕ → List RuleRow → List (ℕ × ℕ)
unfolding links_from
links_of links slugs [] = []
links_of links slugs (row ∷ rows) =
    let rest = links_of links slugs rows in
    elim (links (path_of row)) [
      | none ↦ rest
      | some targets ↦ links_from slugs row.id targets ++ rest
    ]

-- The links that the rules' files hold, from the store and the files alone.
unfoldable pub wanted_links :
    (String → String) → (String → Option (List String)) → Store → List (ℕ × ℕ)
unfolding list_rules_with_file_paths slug_to_id links_of
wanted_links stem links s =
    let rows = filter (λ row. not row.archived) (list_rules_with_file_paths s) in
    links_of links (slug_to_id stem rows []) rows

unfoldable pub build_wikilink_relations :
    (String → String) → (String → Option (List String)) → Store → List (ℕ × ℕ) → ℕ × List (ℕ × ℕ)
unfolding wanted_links insert_links
build_wikilink_relations stem links s relations = insert_links (wanted_links stem links s) relations
