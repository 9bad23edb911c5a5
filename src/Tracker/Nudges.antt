-- ===== src/Tracker/Nudges.antt =====
-- `get_nudge` (src/mcm_engine/tracker.py). A message is the data that the source's text is made of:
-- the nudge's type, the topic and the number that the text shows, or a plugin's own text. A plugin is
-- a function of the tracker; one that raises is one that answers nothing. The source reads
-- `calls_since[tool]` for the text after `calls_since.get(tool, 0)` for the test: the tools of both
-- tables are the same, and one function serves here.
use mcm_engine.Base.{
  ℕ, ◌+◌, ◌-◌, ◌%◌, String, Bool, ◌&&◌, Option, none, some, List, [], ◌∷◌, ◌++◌, ◌==◌, nat_eq,
  string_eq, or_else, if◌then◌else◌, ltb, leb, contains,
}
use mcm_engine.Base.Dict.{Dict, get, put}
use mcm_engine.Tracker.State.{
  NudgeType, mandatory_stop, checkpoint, store_reminder, hyper_focus, rules_check, periodic,
  nudge_eq, SessionTracker,
}
use mcm_engine.Tracker.Calls.{topic_key}

pub data Message : Type 0 where
  nudge : NudgeType → String → ℕ → Message
  plugin : String → Message

-- What is triggered: the type beside the data of its message.
abbrev pub Typed : Type 0
Typed = List (NudgeType × String × ℕ)

-- Mandatory stop, or else checkpoint.
unfoldable pub stop_nudges : SessionTracker → Typed
stop_nudges s =
    let turns = s.turn_count - s.last_checkpoint_turn in
    if leb s.config.mandatory_stop_turns turns
    then (mandatory_stop, "", turns) ∷ []
    else if leb s.config.checkpoint_turns turns
    then (checkpoint, "", turns) ∷ []
    else []

unfoldable pub store_nudges : SessionTracker → Typed
store_nudges s =
    let turns = s.turn_count - s.last_store_turn in
    if leb s.config.store_reminder_turns turns then (store_reminder, "", turns) ∷ [] else []

-- `topic_freq.get(key, 0)`
unfoldable pub topic_count : SessionTracker → String → ℕ
topic_count s topic = or_else (get s.topic_freq (topic_key topic)) 0

unfoldable pub focus_nudges : SessionTracker → Option String → Typed
unfolding topic_count
focus_nudges s none = []
focus_nudges s (some topic) =
    if topic == ""
    then []
    else if leb s.config.hyper_focus_threshold (topic_count s topic)
    then (hyper_focus, topic, topic_count s topic) ∷ []
    else []

unfoldable pub rules_nudges : SessionTracker → Typed
rules_nudges s =
    let interval = s.config.rules_check_interval in
    if ltb 0 interval && ltb 0 s.turn_count && s.turn_count % interval == 0
    then (rules_check, "", 0) ∷ []
    else []

-- `calls_since.get(tool, 0)`
unfoldable pub calls_without : SessionTracker → String → ℕ
calls_without s tool = or_else (get s.calls_since tool) 0

unfoldable pub periodic_nudges : SessionTracker → Dict String ℕ → Typed
unfolding calls_without
periodic_nudges s [] = []
periodic_nudges s ((tool, threshold) ∷ tools) =
    let rest = periodic_nudges s tools in
    if leb threshold (calls_without s tool)
    then (periodic tool, tool, calls_without s tool) ∷ rest
    else rest

-- The list `typed` of what is triggered.
unfoldable pub typed : SessionTracker → Option String → Typed
typed s topic =
    stop_nudges s
    ++ (store_nudges s
        ++ (focus_nudges s topic ++ (rules_nudges s ++ periodic_nudges s s.config.periodic_tools)))

pub record Emission : Type 0 where
  pub messages : List Message
  pub nudge_fires : Dict NudgeType ℕ
  pub nudge_suppressed : Dict NudgeType ℕ

unfoldable pub bump : Dict NudgeType ℕ → NudgeType → Dict NudgeType ℕ
bump counts n = put counts n (or_else (get counts n) 0 + 1)

-- One round of the loop that leaves repeats out.
unfoldable pub emit_one : Bool → List NudgeType → NudgeType → String → ℕ → Emission → Emission
unfolding bump
emit_one suppress pending n about shown out =
    if suppress && contains pending n
    then record out { nudge_suppressed = bump out.nudge_suppressed n }
    else record out {
      messages = out.messages ++ nudge n about shown ∷ [];
      nudge_fires = bump out.nudge_fires n;
    }

unfoldable pub emit : Bool → List NudgeType → Typed → Emission → Emission
emit suppress pending [] out = out
emit suppress pending ((n, about, shown) ∷ rest) out =
    emit suppress pending rest (emit_one suppress pending n about shown out)

abbrev pub Plugin : Type 0
Plugin = SessionTracker → Option String

-- Plugin nudges are never left out; an empty text is no nudge.
unfoldable pub plugin_messages : List Plugin → SessionTracker → List Message
plugin_messages [] s = []
plugin_messages (fn ∷ fns) s =
    let rest = plugin_messages fns s in
    elim (fn s) [ none ↦ rest | some text ↦ if text == "" then rest else plugin text ∷ rest ]

-- `pending_nudges.update(fired)`
unfoldable pub add_pending : List NudgeType → Typed → List NudgeType
add_pending pending [] = pending
add_pending pending ((n, about, shown) ∷ rest) =
    add_pending (if contains pending n then pending else n ∷ pending) rest

-- The messages, in order; the source joins them, and answers `None` where there are none.
unfoldable pub get_nudge :
    List Plugin → Option String → SessionTracker → List Message × SessionTracker
get_nudge plugins topic s =
    let fired = typed s topic in
    let out = emit s.config.suppress_repeat_nudges s.pending_nudges fired (record {
      messages = [];
      nudge_fires = s.nudge_fires;
      nudge_suppressed = s.nudge_suppressed;
    }) in
    let counted = record s {
      nudge_fires = out.nudge_fires;
      nudge_suppressed = out.nudge_suppressed;
    } in
    (
      out.messages ++ plugin_messages plugins counted,
      record counted { pending_nudges = add_pending s.pending_nudges fired },
    )
