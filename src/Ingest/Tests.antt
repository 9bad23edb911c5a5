-- ===== src/Ingest/Tests.antt =====
-- A batch of verdicts, and the theorems at it. The digests of the runs are the texts themselves.
use mcm_engine.Base.{◌≡◌, refl, ℕ, String, none, [], ◌∷◌, string_eq, nat_eq}
use mcm_engine.Entries.Rows.{Entry}
use mcm_engine.Rules.State.{Store, empty_store}
use mcm_engine.Ingest.Verdict.{Verdict, add, created, commit_raised, empty_report, tally}
use mcm_engine.Ingest.Commit.{Source}
use mcm_engine.Ingest.Batch.{settle, commit_verdicts}
use mcm_engine.Rules.Store.{insert_rule}
use mcm_engine.Base.Dict.{get}
use mcm_engine.Database.Connection.{Db, CommitReply, commit_locked}
use mcm_engine.Ingest.Connected.{connected, all_done}
use mcm_engine.Ingest.Idempotent.{commit_verdicts_again}

abbrev title_hash : Entry → String
title_hash entry = entry.title

abbrev text_hash : String → String
text_hash s = s

abbrev build_rule : Verdict
build_rule = record {
  action = add;
  source_topic = "README.md";
  title = "Build";
  keywords = "build";
  category = "";
  content = "Build with ninja.";
  target_rule_id = none;
}

abbrev test_rule : Verdict
test_rule = record build_rule { title = "Test"; content = "Run the tests." }

abbrev source : Source
source = record { actor = "ingest"; source_repo = "r"; source_ref = ""; source_commit = "" }

abbrev all_locked : ℕ → CommitReply
all_locked n = commit_locked

abbrev committed_once : Db Store
committed_once =
    (commit_verdicts title_hash text_hash source 5 all_done (build_rule ∷ test_rule ∷ [])
      (connected empty_store)).1

commit_verdicts_again_example :
    (commit_verdicts title_hash text_hash source 9 all_locked
      (build_rule ∷ test_rule ∷ [])
      committed_once).1
    ≡ committed_once
commit_verdicts_again_example =
    commit_verdicts_again title_hash text_hash all_locked source source 5 9
      (build_rule ∷ test_rule ∷ []) empty_store ((refl, refl), ((refl, refl), tt))

-- The commit of the only verdict raises: the rule is not there, and the report has both a created rule
-- and an error.
raised_twice :
    (commit_verdicts title_hash text_hash source 5 all_locked
      (build_rule ∷ [])
      (connected empty_store))
    ≡ (
      record empty_report {
        created_count = 1;
        error_count = 1;
        details = commit_raised ∷ created 1 ∷ [];
      },
      connected empty_store,
    )
unfolding commit_verdicts settle tally insert_rule get
raised_twice = refl
