-- ===== src/Watcher/Schedule.antt =====
-- `_RulesEventHandler`, `_schedule`, `_fire` and `stop` of src/mcm_engine/files/watcher.py. A timer is its
-- path and what it will do; the events are those of files, and `is_rule` of a path is `_is_rule`.
use mcm_engine.Base.{
  ℕ, String, Bool, Option, none, some, List, [], ◌∷◌, string_eq, if◌then◌else◌, Equality,
}
use mcm_engine.Base.Dict.{Dict, put, remove}
use mcm_engine.Entries.Rows.{Entry}
use mcm_engine.Watcher.Cascade.{Parsed, State, cascade_upsert, cascade_delete}

pub data Op : Type 0 where
  upsert : Op
  delete : Op

pub data Event : Type 0 where
  created : String → Event
  modified : String → Event
  deleted : String → Event
  moved : String → String → Event

-- A new event of a path takes the place of its timer.
unfoldable pub schedule : String → Op → Dict String Op → Dict String Op
schedule path op timers = put (remove timers path) path op

unfoldable pub schedule_rule : (String → Bool) → String → Op → Dict String Op → Dict String Op
unfolding schedule
schedule_rule is_rule path op timers = if is_rule path then schedule path op timers else timers

unfoldable pub on_event : (String → Bool) → Event → Dict String Op → Dict String Op
unfolding schedule_rule
on_event is_rule (created path) timers = schedule_rule is_rule path upsert timers
on_event is_rule (modified path) timers = schedule_rule is_rule path upsert timers
on_event is_rule (deleted path) timers = schedule_rule is_rule path delete timers
on_event is_rule (moved path dest) timers =
    schedule_rule is_rule dest upsert (schedule_rule is_rule path delete timers)

unfoldable pub on_events : (String → Bool) → List Event → Dict String Op → Dict String Op
unfolding on_event
on_events is_rule [] timers = timers
on_events is_rule (event ∷ events) timers = on_events is_rule events (on_event is_rule event timers)

-- `stop` cancels the timers.
unfoldable pub stop : Dict String Op → Dict String Op
stop timers = []

module _ {ℓ} {Digest : Type ℓ} ⦃e : Equality Digest⦄ (entry_hash : Entry → Digest) where
  unfoldable pub cascade : ℕ → Op → String → Option (Option Parsed) → State → Option State
  unfolding cascade_upsert cascade_delete
  cascade now upsert path file s = elim (cascade_upsert entry_hash now path file s) [
    | none ↦ none
    | some (action, after) ↦ some after
  ]
  cascade now delete path file s = cascade_delete entry_hash now path file s

  -- The timer of the path has run out. An exception is swallowed.
  unfoldable pub fire :
      ℕ → Op → String → Option (Option Parsed) → Dict String Op → State → Dict String Op × State
  unfolding cascade
  fire now op path file timers s =
      (remove timers path, elim (cascade now op path file s) [ none ↦ s | some after ↦ after ])
