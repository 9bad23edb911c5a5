-- ===== src/Tracker/Blocking.antt =====
-- Which calls `record_call` (src/mcm_engine/tracker.py) lets through, which it stops, and how a nudge
-- that is ignored comes to a block.
use mcm_engine.Base.{
  ◌+◌, ◌-◌, ◌≤◌, ◌≡◌, String, true, false, Option, none, arith, if◌then◌else◌, or_else, contains,
  string_eq,
}
use mcm_engine.Base.Dict.{get, has}
use mcm_engine.Tracker.State.{NudgeType, nudge_eq, SessionTracker, read_only_tools, exempt_tools}
use mcm_engine.Tracker.Calls.{
  returned, resolving_tools, resolved_by, still_pending, clear_ignored, is_blocked, note_call,
  keep_deficits, enforce, record_call,
}
use mcm_engine.Tracker.Ignored.{
  contains-resolved_by, contains-still_pending, get-clear_ignored, get-accrue_ignored,
  has-accrue_ignored,
}

-- The watermarks do not run ahead of the turn, so that the differences below are the source's, and
-- only pending nudges are counted as ignored.
pub record IsValid (s : SessionTracker) : Type 0 where
  pub store : s.last_store_turn ≤ s.turn_count
  pub checkpoint : s.last_checkpoint_turn ≤ s.turn_count
  pub counted : (n : NudgeType) → has s.ignored_counts n ≡ true → contains s.pending_nudges n ≡ true

-- A tool of `EXEMPT_TOOLS` is never stopped, whatever the state: a checkpoint can always be taken.
pub exempt_returns :
    (tool : String) (topic : Option String) (s : SessionTracker)
    → contains exempt_tools tool ≡ true
    → (record_call tool topic s).0 ≡ returned
unfolding record_call enforce is_blocked
exempt_returns tool topic s h = ground arith

-- A read-only query always returns, keeps both write-hygiene deficits, and counts no nudge as
-- ignored: the count of a pending nudge that it resolves is dropped, every other is as it was.
pub read_only_is_neutral :
    (tool : String) (topic : Option String) (s : SessionTracker)
    → contains read_only_tools tool ≡ true
    → ((record_call tool topic s).0 ≡ returned)
      × ((record_call tool topic s).1.turn_count - (record_call tool topic s).1.last_store_turn
          ≡ s.turn_count - s.last_store_turn)
      × ((record_call tool topic s).1.turn_count - (record_call tool topic s).1.last_checkpoint_turn
          ≡ s.turn_count - s.last_checkpoint_turn)
      × ((n : NudgeType)
          → get (record_call tool topic s).1.ignored_counts n ≡ (
              if contains (resolved_by tool s.pending_nudges) n
              then none
              else get s.ignored_counts n))
unfolding record_call note_call keep_deficits
read_only_is_neutral tool topic s h = (
  ground arith,
  ground arith,
  ground arith,
  λ n. ground (arith, get-clear_ignored (resolved_by tool s.pending_nudges) s.ignored_counts n),
)

-- What any call leaves pending: the nudges that its tool does not resolve.
pub pending-record_call :
    (tool : String) (topic : Option String) (s : SessionTracker) (n : NudgeType)
    → contains (record_call tool topic s).1.pending_nudges n
      ≡ (if contains (resolving_tools n) tool then false else contains s.pending_nudges n)
unfolding record_call note_call keep_deficits
pending-record_call tool topic s n = ground (
  arith,
  contains-still_pending (resolved_by tool s.pending_nudges) s.pending_nudges n,
  contains-resolved_by tool s.pending_nudges n,
)

-- A call keeps the invariant, whether it returns or raises.
pub record_call-IsValid :
    (tool : String) (topic : Option String) (s : SessionTracker)
    → IsValid s
    → IsValid (record_call tool topic s).1
unfolding record_call note_call keep_deficits
record_call-IsValid tool topic s v = record {
  store = ground arith;
  checkpoint = ground arith;
  counted = λ n. ground (
    arith,
    v.counted n,
    contains-still_pending (resolved_by tool s.pending_nudges) s.pending_nudges n,
    get-clear_ignored (resolved_by tool s.pending_nudges) s.ignored_counts n,
    has-accrue_ignored (still_pending (resolved_by tool s.pending_nudges) s.pending_nudges)
        (clear_ignored (resolved_by tool s.pending_nudges) s.ignored_counts) n,
  );
}

-- A call that ignores a pending nudge counts it once more at least.
pub ignoring_call_counts :
    (tool : String) (topic : Option String) (s : SessionTracker) (n : NudgeType)
    → contains read_only_tools tool ≡ false
    → contains (resolving_tools n) tool ≡ false
    → contains s.pending_nudges n ≡ true
    → (or_else (get s.ignored_counts n) 0 + 1
        ≤ or_else (get (record_call tool topic s).1.ignored_counts n) 0)
      × (has (record_call tool topic s).1.ignored_counts n ≡ true)
unfolding record_call note_call
ignoring_call_counts tool topic s n w r p =
    let left = still_pending (resolved_by tool s.pending_nudges) s.pending_nudges in
    let cleared = clear_ignored (resolved_by tool s.pending_nudges) s.ignored_counts in
    ground (
      arith,
      contains-resolved_by tool s.pending_nudges n,
      contains-still_pending (resolved_by tool s.pending_nudges) s.pending_nudges n,
      get-clear_ignored (resolved_by tool s.pending_nudges) s.ignored_counts n,
      get-accrue_ignored left cleared n,
      has-accrue_ignored left cleared n,
    )
