-- ===== src/Hooks/State.antt =====
-- One agent's entry in the state file of src/mcm_engine/hooks/mcp_enforcement.py. The entry is a JSON
-- object whose keys are read with a default; a field here holds the default where the key is absent.
-- A time is a number of seconds. Also the entries that are dropped as stale.
use mcm_engine.Base.{ℕ, ◌+◌, String, Bool, false, Option, none, [], ◌∷◌, ltb, if◌then◌else◌}
use mcm_engine.Base.Dict.{Dict}

pub record SessionState : Type 0 where
  pub builtin_calls : ℕ
  pub mutator_calls : ℕ
  pub fixation_locus : Option String
  pub fixation_run : ℕ
  pub fixation_events : ℕ
  pub warn_emitted : Bool
  pub gap_emitted : Bool
  pub last_reset_at : ℕ
  pub first_seen_at : ℕ
  pub covered_topics : Dict String ℕ
  -- 0 where no compaction was noted
  pub last_compaction_at : ℕ

-- The entry that `setdefault` makes.
abbrev pub new_state : ℕ → SessionState
new_state now = record {
  builtin_calls = 0;
  mutator_calls = 0;
  fixation_locus = none;
  fixation_run = 0;
  fixation_events = 0;
  warn_emitted = false;
  gap_emitted = false;
  last_reset_at = now;
  first_seen_at = now;
  covered_topics = [];
  last_compaction_at = 0;
}

abbrev pub state_ttl_seconds : ℕ
state_ttl_seconds = 2592000

-- `_prune_stale`: the test `last_reset_at < now - ttl` is written with the sum on the other side.
unfoldable pub prune_stale : ℕ → ℕ → Dict String SessionState → Dict String SessionState
prune_stale now ttl [] = []
prune_stale now ttl ((key, s) ∷ state) =
    let rest = prune_stale now ttl state in
    if ltb (s.last_reset_at + ttl) now then rest else (key, s) ∷ rest
