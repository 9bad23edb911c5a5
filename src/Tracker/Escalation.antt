-- ===== src/Tracker/Escalation.antt =====
-- How a nudge that is ignored comes to a block, and how the block is cleared: the escalation part of
-- `record_call` (src/mcm_engine/tracker.py).
use mcm_engine.Base.{
  ℕ, ◌+◌, ◌≤◌, ◌≡◌, refl, ◌≢◌, String, true, false, Option, none, some, subst, List, [], ◌∷◌, arith,
  or_else, contains, length, All, string_eq, if◌then◌else◌,
}
use mcm_engine.Base.Dict.{get, has, Distinct}
use mcm_engine.Tracker.State.{NudgeType, nudge_eq, SessionTracker, read_only_tools, exempt_tools}
use mcm_engine.Tracker.Calls.{
  returned, escalated, resolving_tools, is_advisory, note_call, keep_deficits, enforce, resolved_by,
  still_pending, clear_ignored, record_call,
}
use mcm_engine.Tracker.Ignored.{
  escalation_fires, escalation_sound, escalation_own, clear_ignored-Distinct,
  accrue_ignored-Distinct,
}
use mcm_engine.Tracker.Blocking.{
  IsValid, pending-record_call, record_call-IsValid, ignoring_call_counts,
}

-- A run of calls with no topic, in which a raise is caught and the next call goes on from the state
-- that it left.
unfoldable pub run_calls : List String → SessionTracker → SessionTracker
run_calls [] s = s
run_calls (tool ∷ tools) s = run_calls tools (record_call tool none s).1

-- The call neither reads only nor resolves the nudge.
abbrev pub Ignores : NudgeType → String → Type 0
Ignores n tool =
    (contains read_only_tools tool ≡ false) × (contains (resolving_tools n) tool ≡ false)

config-record_call :
    (tool : String) (topic : Option String) (s : SessionTracker)
    → (record_call tool topic s).1.config ≡ s.config
unfolding record_call note_call keep_deficits
config-record_call tool topic s = ground arith

run_calls_counts :
    (n : NudgeType) (tools : List String) (s : SessionTracker)
    → contains s.pending_nudges n ≡ true
    → All (Ignores n) tools
    → (or_else (get s.ignored_counts n) 0 + length tools
        ≤ or_else (get (run_calls tools s).ignored_counts n) 0)
      × (contains (run_calls tools s).pending_nudges n ≡ true)
      × ((run_calls tools s).config ≡ s.config)
unfolding run_calls
run_calls_counts n [] s p h = (omega arith, p, refl)
run_calls_counts n (tool ∷ tools) s p (h, hs) = ground (
  arith,
  ignoring_call_counts tool none s n h.0 h.1 p,
  pending-record_call tool none s n,
  config-record_call tool none s,
  run_calls_counts n tools (record_call tool none s).1,
)

-- The tests at the end of `record_call` are made on the state that it leaves.
record_call-enforce :
    (tool : String) (topic : Option String) (s : SessionTracker)
    → (record_call tool topic s).0 ≡ (
        if contains read_only_tools tool
        then returned
        else enforce tool (record_call tool topic s).1)
unfolding record_call
record_call-enforce tool topic s = ground arith

enforce_fires :
    (tool : String) (s : SessionTracker) (n : NudgeType)
    → contains exempt_tools tool ≡ false
    → is_advisory s.config n ≡ false
    → s.config.nudge_escalation_threshold ≤ or_else (get s.ignored_counts n) 0
    → has s.ignored_counts n ≡ true
    → enforce tool s ≢ returned
unfolding enforce
enforce_fires tool s n x a t h = ground (arith, escalation_fires s.config s.ignored_counts n)

enforce_sound :
    (tool : String) (s : SessionTracker) (n : NudgeType) (k : ℕ) (ts : List String)
    → enforce tool s ≡ escalated n k ts
    → (is_advisory s.config n ≡ false)
      × (s.config.nudge_escalation_threshold ≤ k)
      × (ts ≡ resolving_tools n)
      × (contains exempt_tools tool ≡ false)
      × (has s.ignored_counts n ≡ true)
unfolding enforce
enforce_sound tool s n k ts h = ground (arith, escalation_sound s.config s.ignored_counts n k ts)

-- After a pending nudge that is not advisory has been ignored by enough calls in a row, so that with
-- the next one the threshold is reached, that next call raises, unless its tool is exempt.
pub ignored_nudge_blocks :
    (n : NudgeType) (tools : List String) (tool : String) (topic : Option String)
    (s : SessionTracker)
    → contains s.pending_nudges n ≡ true
    → is_advisory s.config n ≡ false
    → All (Ignores n) tools
    → Ignores n tool
    → contains exempt_tools tool ≡ false
    → s.config.nudge_escalation_threshold ≤ length tools + 1
    → (record_call tool topic (run_calls tools s)).0 ≢ returned
ignored_nudge_blocks n tools tool topic s p a hs h x t =
    let s' = run_calls tools s in
    let (counts, pending, same) = run_calls_counts n tools s p hs in
    ground (
      arith,
      counts,
      pending,
      same,
      ignoring_call_counts tool topic s' n h.0 h.1 pending,
      config-record_call tool topic s',
      record_call-enforce tool topic s',
      enforce_fires tool (record_call tool topic s').1 n x,
    )

-- A call of a tool that resolves a nudge is not stopped for that nudge, and clears it: afterwards it
-- is neither pending nor counted.
pub resolving_call_clears :
    (tool : String) (topic : Option String) (s : SessionTracker) (n : NudgeType) (k : ℕ)
    (ts : List String)
    → IsValid s
    → contains (resolving_tools n) tool ≡ true
    → ((record_call tool topic s).0 ≢ escalated n k ts)
      × (contains (record_call tool topic s).1.pending_nudges n ≡ false)
      × (has (record_call tool topic s).1.ignored_counts n ≡ false)
resolving_call_clears tool topic s n k ts v r =
    let s' = (record_call tool topic s).1 in
    let counted = (record_call-IsValid tool topic s v).counted n in
    let pending = pending-record_call tool topic s n in
    (
      λ e.
          ground (
            arith,
            counted,
            pending,
            record_call-enforce tool topic s,
            enforce_sound tool s' n k ts,
          ),
      ground (arith, pending),
      ground (arith, counted, pending),
    )

enforce_own :
    (tool : String) (s : SessionTracker) (n : NudgeType) (k : ℕ) (ts : List String)
    → Distinct s.ignored_counts
    → enforce tool s ≡ escalated n k ts
    → get s.ignored_counts n ≡ some k
unfolding enforce
enforce_own tool s n k ts d h = ground (arith, escalation_own s.config s.ignored_counts n k ts d)

record_call-Distinct :
    (tool : String) (topic : Option String) (s : SessionTracker)
    → Distinct s.ignored_counts
    → contains read_only_tools tool ≡ false
    → Distinct (record_call tool topic s).1.ignored_counts
unfolding record_call note_call
record_call-Distinct tool topic s d w =
    let resolved = resolved_by tool s.pending_nudges in
    let cleared = clear_ignored resolved s.ignored_counts in
    rw w (
      accrue_ignored-Distinct (still_pending resolved s.pending_nudges) cleared
        (clear_ignored-Distinct resolved s.ignored_counts d))

-- Where the state is valid and no nudge is counted twice, a call that ends in an escalated block names
-- a nudge that was pending, that the call does not resolve and that is not advisory; the number is that
-- nudge's own count after the call, at least one more than before it and at the threshold or past it.
-- The block names the tools that clear the nudge, and stops no exempt tool and no read-only one.
pub escalated_sound :
    (tool : String) (topic : Option String) (s : SessionTracker) (n : NudgeType) (k : ℕ)
    (ts : List String)
    → IsValid s
    → Distinct s.ignored_counts
    → (record_call tool topic s).0 ≡ escalated n k ts
    → (contains s.pending_nudges n ≡ true)
      × (contains (resolving_tools n) tool ≡ false)
      × (get (record_call tool topic s).1.ignored_counts n ≡ some k)
      × (or_else (get s.ignored_counts n) 0 + 1 ≤ k)
      × (is_advisory s.config n ≡ false)
      × (s.config.nudge_escalation_threshold ≤ k)
      × (ts ≡ resolving_tools n)
      × (contains exempt_tools tool ≡ false)
      × (contains read_only_tools tool ≡ false)
escalated_sound tool topic s n k ts v d h =
    let after = (record_call tool topic s).1 in
    let config = config-record_call tool topic s in
    let w : contains read_only_tools tool ≡ false =
      ground (arith, h, record_call-enforce tool topic s) in
    let enforced : enforce tool after ≡ escalated n k ts =
      ground (arith, h, w, record_call-enforce tool topic s) in
    let (advisory, reached, named, exempt, counted) = enforce_sound tool after n k ts enforced in
    let own = enforce_own tool after n k ts (record_call-Distinct tool topic s d w) enforced in
    let left : contains after.pending_nudges n ≡ true =
      (record_call-IsValid tool topic s v).counted n counted in
    let pending = pending-record_call tool topic s n in
    let unresolved : contains (resolving_tools n) tool ≡ false = ground (arith, left, pending) in
    let before : contains s.pending_nudges n ≡ true = ground (arith, left, pending) in
    let (up, _) = ignoring_call_counts tool topic s n w unresolved before in
    let higher : or_else (get s.ignored_counts n) 0 + 1 ≤ k =
      subst (λ o. or_else (get s.ignored_counts n) 0 + 1 ≤ or_else o 0) own up in
    (
      before,
      unresolved,
      own,
      higher,
      ground (arith, advisory, config),
      ground (arith, reached, config),
      named,
      exempt,
      w,
    )
