-- ===== src/Tracker/Calls.antt =====
-- `record_call` and the operations that move the watermarks: src/mcm_engine/tracker.py, and the line
-- of src/mcm_engine/tools/session.py in which `save_snapshot` moves the checkpoint. A raise is a
-- result beside the state, since what was written before it stays written.
use mcm_engine.Base.{
  ℕ, ◌+◌, ◌-◌, String, Bool, false, not, ◌&&◌, Option, none, some, List, [], ◌∷◌, map, ◌==◌,
  string_eq, or_else, if◌then◌else◌, ltb, leb, contains, filter, lower, strip,
}
use mcm_engine.Base.Dict.{Dict, get, put, remove, has}
use mcm_engine.Tracker.State.{
  NudgeConfig, NudgeType, periodic, nudge_eq, SessionTracker, resolves, read_only_tools,
  exempt_tools,
}

-- How `record_call` ends: it returns, or it raises `MandatoryStopError` for want of a checkpoint (the
-- number of calls) or for a nudge that was ignored too often (the nudge, the count, the tools that
-- clear it).
pub data CallResult : Type 0 where
  returned : CallResult
  blocked : ℕ → CallResult
  escalated : NudgeType → ℕ → List String → CallResult

-- `topic.lower().strip()`
unfoldable pub topic_key : String → String
unfolding lower strip
topic_key topic = strip (lower topic)

-- `topic_freq[key] = topic_freq.get(key, 0) + 1`, if there is a topic
unfoldable pub count_topic : Option String → Dict String ℕ → Dict String ℕ
count_topic none freq = freq
count_topic (some topic) freq =
    let key = topic_key topic in
    if topic == "" then freq else put freq key (or_else (get freq key) 0 + 1)

-- Every tracked tool's counter goes up by one.
unfoldable pub advance_counters : Dict String ℕ → Dict String ℕ
advance_counters = map (λ e. (e.0, e.1 + 1))

-- The counters after a call of `tool`: all go up, its own goes to zero.
unfoldable pub count_call : String → Dict String ℕ → Dict String ℕ
unfolding advance_counters
count_call tool calls = let up = advance_counters calls in if has up tool then put up tool 0 else up

unfoldable pub resolving_tools : NudgeType → List String
unfolding resolves
resolving_tools (periodic tool) = tool ∷ []
resolving_tools nudge = resolves nudge

unfoldable pub is_advisory : NudgeConfig → NudgeType → Bool
is_advisory config (periodic tool) = contains config.advisory_periodic_tools tool
is_advisory config nudge = false

-- The pending nudges that a call of `tool` resolves.
unfoldable pub resolved_by : String → List NudgeType → List NudgeType
resolved_by tool = filter (λ n. contains (resolving_tools n) tool)

-- `pending_nudges.discard(n)` for each resolved nudge
unfoldable pub still_pending : List NudgeType → List NudgeType → List NudgeType
still_pending resolved = filter (λ n. not (contains resolved n))

-- `ignored_counts.pop(n, None)` for each resolved nudge
unfoldable pub clear_ignored : List NudgeType → Dict NudgeType ℕ → Dict NudgeType ℕ
clear_ignored [] counts = counts
clear_ignored (n ∷ ns) counts = clear_ignored ns (remove counts n)

-- `ignored_counts[n] = ignored_counts.get(n, 0) + 1` for each nudge that is left
unfoldable pub accrue_ignored : List NudgeType → Dict NudgeType ℕ → Dict NudgeType ℕ
accrue_ignored [] counts = counts
accrue_ignored (n ∷ ns) counts = accrue_ignored ns (put counts n (or_else (get counts n) 0 + 1))

unfoldable pub is_blocked : SessionTracker → String → Bool
is_blocked s tool =
    if contains exempt_tools tool
    then false
    else if not s.config.mandatory_stop_blocking
    then false
    else ltb (s.config.mandatory_stop_turns + s.config.mandatory_stop_grace)
        (s.turn_count - s.last_checkpoint_turn)

-- The loop over `ignored_counts.items()` that looks for a nudge past the threshold.
unfoldable pub escalation : NudgeConfig → Dict NudgeType ℕ → CallResult
escalation config [] = returned
escalation config ((nudge, count) ∷ counts) =
    let rest = escalation config counts in
    if leb config.nudge_escalation_threshold count && not (is_advisory config nudge)
    then escalated nudge count (resolving_tools nudge)
    else rest

-- The first half of `record_call`: counters, and the nudges that the call resolves.
unfoldable pub note_call : String → Option String → SessionTracker → SessionTracker
unfolding count_topic count_call resolved_by still_pending clear_ignored
note_call tool topic s =
    let resolved = resolved_by tool s.pending_nudges in
    record s {
      turn_count = s.turn_count + 1;
      topic_freq = count_topic topic s.topic_freq;
      called_this_session =
          if contains s.called_this_session tool
          then s.called_this_session
          else tool ∷ s.called_this_session;
      calls_since = count_call tool s.calls_since;
      pending_nudges = still_pending resolved s.pending_nudges;
      ignored_counts = clear_ignored resolved s.ignored_counts;
    }

-- The end of `record_call` for a read-only tool: both watermarks move with the turn.
unfoldable pub keep_deficits : SessionTracker → SessionTracker
keep_deficits s = record s {
  last_store_turn = s.last_store_turn + 1;
  last_checkpoint_turn = s.last_checkpoint_turn + 1;
}

-- The end of `record_call` for any other tool.
unfoldable pub enforce : String → SessionTracker → CallResult
enforce tool s =
    if is_blocked s tool
    then blocked s.turn_count
    else if contains exempt_tools tool
    then returned
    else escalation s.config s.ignored_counts

unfoldable pub record_call : String → Option String → SessionTracker → CallResult × SessionTracker
record_call tool topic s =
    let noted = note_call tool topic s in
    let charged = record noted {
      ignored_counts = accrue_ignored noted.pending_nudges noted.ignored_counts;
    } in
    if contains read_only_tools tool
    then (returned, keep_deficits noted)
    else (enforce tool charged, charged)

unfoldable pub record_store : SessionTracker → SessionTracker
record_store s = record s { last_store_turn = s.turn_count }

-- `tracker.last_checkpoint_turn = tracker.turn_count` in `save_snapshot`
unfoldable pub record_checkpoint : SessionTracker → SessionTracker
record_checkpoint s = record s { last_checkpoint_turn = s.turn_count }

unfoldable pub reset_all : SessionTracker → SessionTracker
reset_all s = record s {
  turn_count = 0;
  last_store_turn = 0;
  last_checkpoint_turn = 0;
  topic_freq = [];
  pending_nudges = [];
  ignored_counts = [];
  nudge_fires = [];
  nudge_suppressed = [];
  calls_since = map (λ e. (e.0, 0)) s.calls_since;
  called_this_session = [];
  coverage = [];
}
