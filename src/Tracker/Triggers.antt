-- ===== src/Tracker/Triggers.antt =====
-- Which nudges are triggered and which of them are shown: `get_nudge` (src/mcm_engine/tracker.py)
-- against a description of each nudge by itself.
use mcm_engine.Base.{
  ℕ, ◌-◌, ◌%◌, ◌<◌, ◌≡◌, refl, String, Bool, false, not, ◌&&◌, ◌||◌, Option, none, some, List, [],
  ◌∷◌, ◌++◌, arith, ◌==◌, nat_eq, string_eq, if◌then◌else◌, ltb, leb, contains, any,
}
use mcm_engine.Base.Dict.{Dict}
use mcm_engine.Tracker.State.{
  NudgeType, mandatory_stop, checkpoint, store_reminder, hyper_focus, rules_check, periodic,
  nudge_eq, nudge_same, SessionTracker,
}
use mcm_engine.Tracker.Calls.{record_store, record_checkpoint}
use mcm_engine.Tracker.Nudges.{
  Message, nudge, plugin, Typed, stop_nudges, store_nudges, topic_count, focus_nudges, rules_nudges,
  calls_without, periodic_nudges, typed, Emission, emit_one, emit, Plugin, plugin_messages,
  add_pending, get_nudge,
}

unfoldable pub triggers : Typed → NudgeType → Bool
triggers [] n = false
triggers ((m, about, count) ∷ t) n = m == n || triggers t n

triggers-append :
    (t u : Typed) (n : NudgeType) → triggers (t ++ u) n ≡ (triggers t n || triggers u n)
unfolding triggers
triggers-append [] u n = refl
triggers-append ((m, about, count) ∷ t) u n = ground (arith, triggers-append t u n)

-- The nudges among the messages.
unfoldable pub shows : List Message → NudgeType → Bool
shows [] n = false
shows (nudge m about count ∷ ms) n = m == n || shows ms n
shows (plugin text ∷ ms) n = shows ms n

shows-append :
    (ms ns : List Message) (n : NudgeType) → shows (ms ++ ns) n ≡ (shows ms n || shows ns n)
unfolding shows
shows-append [] ns n = refl
shows-append (nudge m about count ∷ ms) ns n = ground (arith, shows-append ms ns n)
shows-append (plugin text ∷ ms) ns n = shows-append ms ns n

shows-plugin_messages :
    (fns : List Plugin) (s : SessionTracker) (n : NudgeType)
    → shows (plugin_messages fns s) n ≡ false
unfolding plugin_messages shows
shows-plugin_messages [] s n = refl
shows-plugin_messages (fn ∷ fns) s n = ground (arith, shows-plugin_messages fns s n)

-- What each nudge waits for, by itself.
unfoldable pub due : SessionTracker → Option String → NudgeType → Bool
due s topic mandatory_stop =
    leb s.config.mandatory_stop_turns (s.turn_count - s.last_checkpoint_turn)
due s topic checkpoint =
    leb s.config.checkpoint_turns (s.turn_count - s.last_checkpoint_turn)
    && ltb (s.turn_count - s.last_checkpoint_turn) s.config.mandatory_stop_turns
due s topic store_reminder = leb s.config.store_reminder_turns (s.turn_count - s.last_store_turn)
due s none hyper_focus = false
due s (some topic) hyper_focus =
    not (topic == "") && leb s.config.hyper_focus_threshold (topic_count s topic)
due s topic rules_check =
    ltb 0 s.config.rules_check_interval
    && ltb 0 s.turn_count
    && s.turn_count % s.config.rules_check_interval == 0
due s topic (periodic tool) =
    any (λ e. e.0 == tool && leb e.1 (calls_without s tool)) s.config.periodic_tools

triggers-stop_nudges :
    (s : SessionTracker) (topic : Option String) (n : NudgeType)
    → triggers (stop_nudges s) n ≡ (
        (mandatory_stop == n && due s topic mandatory_stop)
        || (checkpoint == n && due s topic checkpoint))
unfolding triggers stop_nudges due
triggers-stop_nudges s topic n = ground arith

triggers-store_nudges :
    (s : SessionTracker) (topic : Option String) (n : NudgeType)
    → triggers (store_nudges s) n ≡ (store_reminder == n && due s topic store_reminder)
unfolding triggers store_nudges due
triggers-store_nudges s topic n = ground arith

triggers-focus_nudges :
    (s : SessionTracker) (topic : Option String) (n : NudgeType)
    → triggers (focus_nudges s topic) n ≡ (hyper_focus == n && due s topic hyper_focus)
unfolding triggers focus_nudges due
triggers-focus_nudges s none n = ground arith
triggers-focus_nudges s (some topic) n = ground arith

triggers-rules_nudges :
    (s : SessionTracker) (topic : Option String) (n : NudgeType)
    → triggers (rules_nudges s) n ≡ (rules_check == n && due s topic rules_check)
unfolding triggers rules_nudges due
triggers-rules_nudges s topic n = ground arith

-- A periodic nudge comes from the table's entry of its own tool, and no other nudge comes from there.
unfoldable pub is_periodic : NudgeType → Dict String ℕ → SessionTracker → Bool
is_periodic (periodic tool) tools s = any (λ e. e.0 == tool && leb e.1 (calls_without s tool)) tools
is_periodic n tools s = false

triggers-periodic_nudges :
    (s : SessionTracker) (tools : Dict String ℕ) (n : NudgeType)
    → triggers (periodic_nudges s tools) n ≡ is_periodic n tools s
unfolding triggers periodic_nudges is_periodic nudge_same
triggers-periodic_nudges s [] mandatory_stop = refl
triggers-periodic_nudges s [] _ = refl
triggers-periodic_nudges s ((tool, threshold) ∷ tools) mandatory_stop =
    ground (arith, triggers-periodic_nudges s tools mandatory_stop)
triggers-periodic_nudges s ((tool, threshold) ∷ tools) (periodic t) =
    ground (arith, triggers-periodic_nudges s tools (periodic t), string_eq.same_iff tool t)
triggers-periodic_nudges s ((tool, threshold) ∷ tools) n =
    ground (arith, triggers-periodic_nudges s tools n)

triggers_split :
    (s : SessionTracker) (topic : Option String) (n : NudgeType)
    → triggers (typed s topic) n ≡ (
        triggers (stop_nudges s) n
        || (triggers (store_nudges s) n
            || (triggers (focus_nudges s topic) n
                || (triggers (rules_nudges s) n || is_periodic n s.config.periodic_tools s))))
unfolding typed
triggers_split s topic n = simp (triggers-append, triggers-periodic_nudges)

-- What is triggered is what is due.
pub triggers-typed :
    (s : SessionTracker) (topic : Option String) (n : NudgeType)
    → triggers (typed s topic) n ≡ due s topic n
unfolding nudge_same is_periodic due
triggers-typed s topic (periodic tool) = simp (
  triggers_split,
  triggers-stop_nudges s topic,
  triggers-store_nudges s topic,
  triggers-focus_nudges s topic,
  triggers-rules_nudges s topic,
)
triggers-typed s topic n =
    simp
      (
        triggers_split,
        triggers-stop_nudges s topic,
        triggers-store_nudges s topic,
        triggers-focus_nudges s topic,
        triggers-rules_nudges s topic,
      )
      (ground arith)

triggers-emit :
    (suppress : Bool) (pending : List NudgeType) (t : Typed) (out : Emission) (n : NudgeType)
    → shows (emit suppress pending t out).messages n
      ≡ (shows out.messages n || (triggers t n && not (suppress && contains pending n)))
unfolding emit emit_one shows triggers
triggers-emit suppress pending [] out n = ground arith
triggers-emit suppress pending ((m, about, count) ∷ t) out n = ground (
  arith,
  triggers-emit suppress pending t (emit_one suppress pending m about count out) n,
  shows-append out.messages (nudge m about count ∷ []) n,
  nudge_eq.same_iff m n,
)

contains-add_pending :
    (pending : List NudgeType) (t : Typed) (n : NudgeType)
    → contains (add_pending pending t) n ≡ (contains pending n || triggers t n)
unfolding add_pending triggers contains
contains-add_pending pending [] n = ground arith
contains-add_pending pending ((m, about, count) ∷ t) n = ground (
  arith,
  contains-add_pending (if contains pending m then pending else m ∷ pending) t n,
  nudge_eq.same_iff m n,
)

-- A nudge is shown exactly when it is due and is not left out as the repeat of a pending one, and
-- the pending nudges afterwards are those before and all that are due, shown or not.
pub get_nudge-shows :
    (plugins : List Plugin) (topic : Option String) (s : SessionTracker) (n : NudgeType)
    → (shows (get_nudge plugins topic s).0 n
        ≡ (due s topic n && not (s.config.suppress_repeat_nudges && contains s.pending_nudges n)))
      × (contains (get_nudge plugins topic s).1.pending_nudges n
          ≡ (contains s.pending_nudges n || due s topic n))
unfolding get_nudge
get_nudge-shows plugins topic s n = (
  simp (shows-append, shows-plugin_messages, triggers-emit, triggers-typed)
      (unfold shows in ground arith),
  simp (contains-add_pending, triggers-typed),
)

-- After a stored finding no store reminder is due, after a checkpoint neither of the two checkpoint
-- nudges, where their thresholds are positive.
pub resets_silence :
    (s : SessionTracker) (topic : Option String)
    → 0 < s.config.store_reminder_turns
    → 0 < s.config.checkpoint_turns
    → 0 < s.config.mandatory_stop_turns
    → (due (record_store s) topic store_reminder ≡ false)
      × (due (record_checkpoint s) topic checkpoint ≡ false)
      × (due (record_checkpoint s) topic mandatory_stop ≡ false)
unfolding due record_store record_checkpoint
resets_silence s topic a b c = (ground arith, ground arith, ground arith)
