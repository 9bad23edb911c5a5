-- ===== src/Tracker/State.antt =====
-- The data of `SessionTracker`: src/mcm_engine/config.py (`NudgeConfig`) and the class attributes and
-- `__init__` of src/mcm_engine/tracker.py. Turn counts and thresholds are natural numbers. A nudge
-- type is the text `periodic:<tool>` in the source, and a constructor with the tool here.
use mcm_engine.Base.{
  ℕ, String, Bool, true, false, List, [], ◌∷◌, map, ◌≡◌, ◌↔◌, arith, Equality, ◌==◌, string_eq,
}
use mcm_engine.Base.Dict.{Dict}

pub record NudgeConfig : Type 0 where
  pub store_reminder_turns : ℕ
  pub checkpoint_turns : ℕ
  pub mandatory_stop_turns : ℕ
  pub hyper_focus_threshold : ℕ
  pub rules_check_interval : ℕ
  pub mandatory_stop_blocking : Bool
  pub mandatory_stop_grace : ℕ
  pub nudge_escalation_threshold : ℕ
  pub suppress_repeat_nudges : Bool
  pub periodic_tools : Dict String ℕ
  pub advisory_periodic_tools : List String

-- `NudgeConfig()`
abbrev pub default_config : NudgeConfig
default_config = record {
  store_reminder_turns = 10;
  checkpoint_turns = 25;
  mandatory_stop_turns = 50;
  hyper_focus_threshold = 3;
  rules_check_interval = 15;
  mandatory_stop_blocking = false;
  mandatory_stop_grace = 5;
  nudge_escalation_threshold = 3;
  suppress_repeat_nudges = true;
  periodic_tools = ("link_knowledge", 25) ∷ ("add_negative", 40) ∷ [];
  advisory_periodic_tools = "add_negative" ∷ "link_knowledge" ∷ [];
}

pub data NudgeType : Type 0 where
  mandatory_stop checkpoint store_reminder hyper_focus rules_check : NudgeType
  periodic : String → NudgeType

unfoldable pub nudge_same : NudgeType → NudgeType → Bool
nudge_same mandatory_stop mandatory_stop = true
nudge_same checkpoint checkpoint = true
nudge_same store_reminder store_reminder = true
nudge_same hyper_focus hyper_focus = true
nudge_same rules_check rules_check = true
nudge_same (periodic t) (periodic u) = t == u
nudge_same _ _ = false

pub nudge_same_iff : (a b : NudgeType) → (nudge_same a b ≡ true) ↔ (a ≡ b)
unfolding nudge_same
nudge_same_iff (periodic t) (periodic u) = ground (arith, string_eq.same_iff t u)
nudge_same_iff mandatory_stop b = ground arith
nudge_same_iff _ b = ground arith

instance abbrev pub nudge_eq : Equality NudgeType
nudge_eq = record { same = nudge_same; same_iff = nudge_same_iff }

-- What the tracker knows of one topic that was retrieved.
pub record CoverageEntry : Type 0 where
  pub topic : String
  pub query : String
  pub result_ids : List ℕ
  pub searched_at : ℕ
  pub resident : Bool

pub record SessionTracker : Type 0 where
  pub config : NudgeConfig
  pub turn_count : ℕ
  pub last_store_turn : ℕ
  pub last_checkpoint_turn : ℕ
  pub topic_freq : Dict String ℕ
  pub session_start : ℕ
  pub pending_nudges : List NudgeType
  pub ignored_counts : Dict NudgeType ℕ
  pub nudge_fires : Dict NudgeType ℕ
  pub nudge_suppressed : Dict NudgeType ℕ
  pub calls_since : Dict String ℕ
  pub called_this_session : List String
  pub coverage : Dict String CoverageEntry

-- `SessionTracker(config)` at the time `now`
unfoldable pub new_tracker : NudgeConfig → ℕ → SessionTracker
new_tracker config now = record {
  config = config;
  turn_count = 0;
  last_store_turn = 0;
  last_checkpoint_turn = 0;
  topic_freq = [];
  session_start = now;
  pending_nudges = [];
  ignored_counts = [];
  nudge_fires = [];
  nudge_suppressed = [];
  calls_since = map (λ e. (e.0, 0)) config.periodic_tools;
  called_this_session = [];
  coverage = [];
}

-- The table `RESOLVES`.
unfoldable pub resolves : NudgeType → List String
resolves store_reminder =
    "add_rule" ∷ "add_knowledge" ∷ "add_negative" ∷ "report_error" ∷ "report_finding" ∷ []
resolves checkpoint = "session_handoff" ∷ "save_snapshot" ∷ []
resolves mandatory_stop = "session_handoff" ∷ "save_snapshot" ∷ []
resolves rules_check = "search" ∷ "report_error" ∷ "check_compat" ∷ "read_rule" ∷ []
resolves hyper_focus = "add_knowledge" ∷ "add_rule" ∷ "session_handoff" ∷ []
resolves (periodic t) = []

abbrev pub read_only_tools : List String
read_only_tools =
    "sift_candidates" ∷ "find_duplicate_rules" ∷ "find_conflicting_rules" ∷ "consolidation_report"
    ∷ "list_rules" ∷ "get_related" ∷ "scroll_entries" ∷ "get_entry" ∷ "recall_events"
    ∷ "trace_chain" ∷ "find_duplicate_entries" ∷ "find_conflicting_entries"
    ∷ "session_metrics_report" ∷ []

abbrev pub exempt_tools : List String
exempt_tools = "session_handoff" ∷ "save_snapshot" ∷ "session_start" ∷ "session_summary" ∷ []
