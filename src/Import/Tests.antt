-- ===== src/Import/Tests.antt =====
-- A batch of two rules, and the theorems at it. The digests of the runs are the texts themselves.
use mcm_engine.Base.{◌≡◌, refl, String, List, [], ◌∷◌, All, string_eq, nat_eq, strip, contains}
use mcm_engine.Entries.Rows.{Entry}
use mcm_engine.Rules.State.{empty_store}
use mcm_engine.Rules.Query.{IsTable}
use mcm_engine.Ingest.Commit.{Source}
use mcm_engine.Import.Batch.{Item, Line, update}
use mcm_engine.Import.Respond.{validate_items, valid, imported, tally, import_rules}
use mcm_engine.Import.Found.{IsFound, import_rules-IsFound}

abbrev title_hash : Entry → String
title_hash entry = entry.title

abbrev text_hash : String → String
text_hash s = s

abbrev build_rule : Item
build_rule = record {
  title = "Build";
  keywords = "build";
  content = "Build with ninja.";
  category = "";
  file_path = "";
}

abbrev request : List Item
request = record build_rule { title = " Build " } ∷ record build_rule { title = "Test" } ∷ []

abbrev batch : List Item
batch = build_rule ∷ record build_rule { title = "Test" } ∷ []

abbrev source : Source
source = record { actor = "me"; source_repo = "r"; source_ref = ""; source_commit = "" }

is_valid : validate_items [] request ≡ valid batch
unfolding validate_items strip contains
is_valid = refl

is_empty : IsTable empty_store.rules
is_empty = record { distinct = tt; keyed = tt }

import_rules-IsFound_example :
    ((lines : List Line) × ((import_rules title_hash text_hash update source 5 request
          empty_store).0
        ≡ imported (tally lines) lines))
    × All (IsFound (import_rules title_hash text_hash update source 5 request empty_store).1) batch
    × IsTable (import_rules title_hash text_hash update source 5 request empty_store).1.rules
import_rules-IsFound_example =
    import_rules-IsFound title_hash text_hash source 5 request batch empty_store is_valid is_empty
