-- ===== src/Tracker/Tests.antt =====
-- Runs of the tracker, and its theorems at concrete inputs.
use mcm_engine.Base.{
  ◌+◌, or_else, ℕ, ◌≤◌, ◌-◌, ◌≡◌, ◌≢◌, refl, true, false, none, some, [], ◌∷◌, arith, nat_eq, ◌&&◌,
  ◌||◌, not, string_eq, contains, if◌then◌else◌,
}
use mcm_engine.Base.Dict.{get, put, has}
use mcm_engine.Tracker.State.{
  NudgeType, store_reminder, nudge_eq, nudge_same, SessionTracker, default_config, read_only_tools,
  exempt_tools,
}
use mcm_engine.Tracker.Calls.{
  returned, escalated, resolving_tools, is_advisory, is_blocked, note_call, accrue_ignored,
  resolved_by, escalation, enforce, record_call,
}
use mcm_engine.Tracker.Nudges.{get_nudge}
use mcm_engine.Tracker.Triggers.{shows, due, get_nudge-shows}
use mcm_engine.Tracker.Blocking.{IsValid, read_only_is_neutral, record_call-IsValid}
use mcm_engine.Tracker.Escalation.{
  run_calls, ignored_nudge_blocks, resolving_call_clears, escalated_sound,
}
use mcm_engine.Tracker.Scoped.{ScopedTracker, delegate, session_of, delegate_isolates}

program : Unit {0}
unfolding record_call get_nudge contains nudge_same get escalation enforce is_advisory
program = tt

-- Twelve calls without a stored finding, and the reminder ignored once.
abbrev reminded : SessionTracker
reminded = record {
  config = default_config;
  turn_count = 12;
  last_store_turn = 0;
  last_checkpoint_turn = 0;
  topic_freq = [];
  session_start = 0;
  pending_nudges = store_reminder ∷ [];
  ignored_counts = (store_reminder, 1) ∷ [];
  nudge_fires = (store_reminder, 1) ∷ [];
  nudge_suppressed = [];
  calls_since = ("link_knowledge", 12) ∷ ("add_negative", 12) ∷ [];
  called_this_session = [];
  coverage = [];
}

IsValid-reminded : IsValid reminded
unfolding get nudge_same contains
IsValid-reminded = record {
  store = omega arith;
  checkpoint = omega arith;
  counted = λ n. ground arith;
}

read_only_is_neutral_example :
    ((record_call "list_rules" none reminded).0 ≡ returned)
    × ((record_call "list_rules" none reminded).1.turn_count
          - (record_call "list_rules" none reminded).1.last_store_turn
        ≡ reminded.turn_count - reminded.last_store_turn)
    × ((record_call "list_rules" none reminded).1.turn_count
          - (record_call "list_rules" none reminded).1.last_checkpoint_turn
        ≡ reminded.turn_count - reminded.last_checkpoint_turn)
    × ((n : NudgeType)
        → get (record_call "list_rules" none reminded).1.ignored_counts n ≡ (
            if contains (resolved_by "list_rules" reminded.pending_nudges) n
            then none
            else get reminded.ignored_counts n))
unfolding contains
read_only_is_neutral_example = read_only_is_neutral "list_rules" none reminded refl

record_call-IsValid_example : IsValid (record_call "search" none reminded).1
record_call-IsValid_example = record_call-IsValid "search" none reminded IsValid-reminded

ignored_nudge_blocks_example :
    (record_call "search" none (run_calls ("search" ∷ "search" ∷ []) reminded)).0 ≢ returned
unfolding contains nudge_same is_advisory resolving_tools
ignored_nudge_blocks_example =
    ignored_nudge_blocks store_reminder ("search" ∷ "search" ∷ []) "search" none reminded refl refl
      ((refl, refl), ((refl, refl), tt)) (refl, refl) refl (omega arith)

resolving_call_clears_example :
    ((record_call "add_rule" none reminded).0 ≢ escalated store_reminder 3 [])
    × (contains (record_call "add_rule" none reminded).1.pending_nudges store_reminder ≡ false)
    × (has (record_call "add_rule" none reminded).1.ignored_counts store_reminder ≡ false)
unfolding contains resolving_tools
resolving_call_clears_example =
    resolving_call_clears "add_rule" none reminded store_reminder 3 [] IsValid-reminded refl

abbrev twice : SessionTracker
twice = record reminded { ignored_counts = (store_reminder, 2) ∷ [] }

third_ignore_raises :
    (record_call "search" none twice).0
    ≡ escalated store_reminder 3 (resolving_tools store_reminder)
unfolding record_call enforce get put nudge_same escalation is_advisory is_blocked note_call
    accrue_ignored contains resolving_tools
third_ignore_raises = refl

IsValid-twice : IsValid twice
unfolding contains nudge_same get
IsValid-twice = record {
  store = IsValid-reminded.store;
  checkpoint = IsValid-reminded.checkpoint;
  counted = λ n p. ground arith;
}

escalated_sound_example :
    (contains reminded.pending_nudges store_reminder ≡ true)
    × (contains (resolving_tools store_reminder) "search" ≡ false)
    × (get (record_call "search" none twice).1.ignored_counts store_reminder ≡ some 3)
    × (or_else (get twice.ignored_counts store_reminder) 0 + 1 ≤ 3)
    × (is_advisory default_config store_reminder ≡ false)
    × (3 ≤ 3)
    × (resolving_tools store_reminder ≡ resolving_tools store_reminder)
    × (contains exempt_tools "search" ≡ false)
    × (contains read_only_tools "search" ≡ false)
unfolding get
escalated_sound_example =
    escalated_sound "search" none twice store_reminder 3 (resolving_tools store_reminder)
      IsValid-twice (refl, tt) third_ignore_raises

get_nudge-shows_example :
    (shows (get_nudge [] none reminded).0 store_reminder ≡ (
      due reminded none store_reminder
      && not (true && contains reminded.pending_nudges store_reminder)))
    × (contains (get_nudge [] none reminded).1.pending_nudges store_reminder
        ≡ (contains reminded.pending_nudges store_reminder || due reminded none store_reminder))
get_nudge-shows_example = get_nudge-shows [] none reminded store_reminder

-- Two client sessions, numbered.
abbrev two_clients : ScopedTracker ℕ
two_clients = record {
  config = default_config;
  trackers =
      (1, record { tracker = reminded; plugin_nudge_fns = [] })
      ∷ (2, record { tracker = twice; plugin_nudge_fns = [] })
      ∷ [];
  default_tracker = none;
  plugin_nudge_fns = [];
}

delegate_isolates_example :
    ((delegate (some 1) 9 (λ s. record_call "search" none s.tracker) two_clients).0
      ≡ (record_call "search" none reminded).0)
    × (session_of
          (some 1)
          (delegate (some 1) 9 (λ s. record_call "search" none s.tracker) two_clients).1
        ≡ some (record { tracker = (record_call "search" none reminded).1; plugin_nudge_fns = [] }))
    × (session_of
          (some 2)
          (delegate (some 1) 9 (λ s. record_call "search" none s.tracker) two_clients).1
        ≡ session_of (some 2) two_clients)
unfolding session_of get
delegate_isolates_example =
    delegate_isolates (some 1) (some 2) 9 (λ s. record_call "search" none s.tracker) two_clients
      (λ p. ground arith)
